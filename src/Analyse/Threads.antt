-- ===== src/Analyse/Threads.antt =====
-- ANALYSEPCAP/main.cpp: the loop of main, with the threads that it starts for the files. The
-- directory and pthreads are inputs. The array for a file's name has no room for the byte 0 that
-- strcpy writes; the model goes on as where the byte behind it is unused.
pub mod Loops
pub mod Defined
mod Tests
use testofdumping.Prelude.{
  ℕ, zero, suc, ◌+◌, List, [], ◌∷◌, ◌++◌, Bool, true, false, ltb, leb, if◌then◌else◌, length,
}
use testofdumping.Dump.Types.{Text}
use testofdumping.Analyse.{scan}
use testofdumping.L2.Ports.{set_at}

-- The length of `threads`, and the count of threads from which on main waits for some.
abbrev pub max_threads : ℕ
max_threads = 20

abbrev pub thread_limit : ℕ
thread_limit = 3

-- An entry of `threads`: never written, or written by a call of pthread_create that failed; a thread
-- that can be joined; one that was.
pub data Slot : Type 0 where
  unset running joined : Slot

-- `threads`; the files that a thread was started for; how often a thread was cancelled.
pub record Pool : Type 0 where
  pub threads : ℕ → Slot
  pub started : List Text
  pub cancelled : ℕ

-- What a pass meets: the directory, with the results of rename; the number of tasks in /proc; for
-- each entry of `threads`, whether pthread_timedjoin_np and pthread_create return 0.
pub record Pass : Type 0 where
  pub entries : List (Text × Bool)
  pub thread_count : ℕ
  pub joins : ℕ → Bool
  pub creates : ℕ → Bool

-- A pass goes on, leaves the array, or joins what is no thread.
pub data Passing : Type 0 where
  going overrun no_thread : Pool → Passing

infixl 20 ◌>>=◌
abbrev pub ◌>>=◌ : Passing → (Pool → Passing) → Passing
going m >>= f = f m
overrun m >>= f = overrun m
no_thread m >>= f = no_thread m

unfoldable pub join_slot : Slot → Bool → ℕ → Pool → Passing
join_slot unset ok i m = no_thread m
join_slot joined ok i m = no_thread m
join_slot running true i m = going (record m { threads = set_at m.threads i joined })
join_slot running false i m = going (record m { cancelled = m.cancelled + 1 })

-- The body of the loop that waits, and cancels a thread that does not end.
unfoldable pub join_thread : Bool → ℕ → Pool → Passing
join_thread ok i m = if leb max_threads i then overrun m else join_slot (m.threads i) ok i m

-- The loop, with the rounds left.
unfoldable pub join_loop : (ℕ → Bool) → ℕ → ℕ → Pool → Passing
join_loop joins zero i m = going m
join_loop joins (suc n) i m = join_thread (joins i) i m >>= join_loop joins n (i + 1)

-- The body of the loop that starts the threads.
unfoldable pub create_thread : Bool → Text → ℕ → Pool → Passing
create_thread ok file i m =
    if leb max_threads i
    then overrun m
    else going (
        if ok
        then record m { threads = set_at m.threads i running; started = m.started ++ file ∷ [] }
        else record m { threads = set_at m.threads i unset })

unfoldable pub create_loop : (ℕ → Bool) → List Text → ℕ → Pool → Passing
create_loop creates [] i m = going m
create_loop creates (file ∷ files) i m =
    create_thread (creates i) file i m >>= create_loop creates files (i + 1)

-- One pass of the loop of main, from the search of the directory on.
unfoldable pub wait_for_threads : Pass → Pool → Passing
wait_for_threads p m =
    if ltb thread_limit p.thread_count
    then join_loop p.joins (length (scan p.entries)) 0 m
    else going m

unfoldable pub pass : Pass → Pool → Passing
pass p m = wait_for_threads p m >>= create_loop p.creates (scan p.entries) 0

unfoldable pub passes : List Pass → Pool → Passing
passes [] m = going m
passes (p ∷ ps) m = pass p m >>= passes ps

abbrev pub idle : Pool
idle = record { threads = λ i. unset; started = []; cancelled = 0 }
