-- ===== src/L2/Links.antt =====
-- `check_all_ports_link_status` of src_lat/09Feb2016ICIS_pcap/main.c: it waits for the links, at
-- most nine seconds, and prints their state.
pub mod Wait
mod Tests
use testofdumping.Prelude.{
  ℕ, zero, suc, ◌+◌, List, [], ◌∷◌, Option, none, some, Bool, true, false, ◌||◌, ◌==◌,
  if◌then◌else◌, map,
}

-- MAX_CHECK_TIME.
abbrev pub max_check_time : ℕ
max_check_time = 90

-- `print_flag`, how often the program has slept, and what it has printed of the ports.
pub record Watch : Type 0 where
  pub print_flag : Bool
  pub delays : ℕ
  pub printed : Option (List (ℕ × Bool))

-- The inner loop before `print_flag` is set: `all_ports_up`, for the links as they are now.
unfoldable pub all_ports_up : (ℕ → Bool) → List ℕ → Bool
all_ports_up up [] = true
all_ports_up up (portid ∷ ports) = if up portid then all_ports_up up ports else false

-- The inner loop once it is set.
unfoldable pub print_links : (ℕ → Bool) → List ℕ → Watch → Watch
print_links up ports w = record w { printed = some (map (λ portid. (portid, up portid)) ports) }

-- A round of the outer loop before `print_flag` is set.
unfoldable pub poll_links : (ℕ → Bool) → List ℕ → ℕ → Watch → Watch
poll_links up ports count w =
    if all_ports_up up ports
    then record w { print_flag = true }
    else record w { print_flag = count + 1 == max_check_time; delays = w.delays + 1 }

-- The outer loop, with the rounds left; `up count` is the state of the links in a round.
unfoldable pub link_loop : (ℕ → ℕ → Bool) → List ℕ → ℕ → ℕ → Watch → Watch
link_loop up ports zero count w = w
link_loop up ports (suc n) count w = elim (w.print_flag) [
  | true ↦ print_links (up count) ports w
  | false ↦ link_loop up ports n (count + 1) (poll_links (up count) ports count w)
]

unfoldable pub check_all_ports_link_status : (ℕ → ℕ → Bool) → List ℕ → Watch
check_all_ports_link_status up ports =
    link_loop up ports (max_check_time + 1) 0
      (record { print_flag = false; delays = 0; printed = none })
