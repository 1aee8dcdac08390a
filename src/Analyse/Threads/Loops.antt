-- ===== src/Analyse/Threads/Loops.antt =====
-- The two loops over the array of threads.
use testofdumping.Prelude.{
  ℕ, zero, suc, ◌+◌, ◌≤◌, ◌<◌, List, [], ◌∷◌, ◌++◌, Bool, true, false, leb, length, ◌≡◌, ◌≢◌, refl,
  ap, sym, subst, ◌∙◌, ◌⊎◌, inl, inr, append_assoc, append-nil, max, arith, Bool-cases,
}
use native.Mathlib.Decide.{dec_lt, ℕ_discrete}
use testofdumping.Dump.Types.{Text}
use testofdumping.L2.Ports.{set_at}
use testofdumping.Analyse.Threads.{
  max_threads, Slot, unset, running, joined, Pool, Passing, going, overrun, no_thread, ◌>>=◌,
  join_slot, join_thread, join_loop, create_thread, create_loop,
}

-- The first threads can be joined, and the others were never started.
abbrev pub HasThreads : ℕ → ℕ → (ℕ → Slot) → Type 0
HasThreads from n threads =
    (j : ℕ) → from ≤ j → ((n ≤ j) ⊎ (threads j ≡ running)) × ((j < n) ⊎ (threads j ≡ unset))

abbrev pub Fails : Passing → Type 0
Fails (going m) = ⊥
Fails (overrun m) = Unit
Fails (no_thread m) = Unit

pub >>=-Fails : (o : Passing) (f : Pool → Passing) → Fails o → Fails (o >>= f)
>>=-Fails (going m) f h = absurd h
>>=-Fails (overrun m) f h = tt
>>=-Fails (no_thread m) f h = tt

map_right : {A B C : Type 0} → (B → C) → A ⊎ B → A ⊎ C
map_right f (inl a) = inl a
map_right f (inr b) = inr (f b)

map_left : {A B C : Type 0} → (A → B) → A ⊎ C → B ⊎ C
map_left f (inl a) = inl (f a)
map_left f (inr b) = inr b

set_at-same : (threads : ℕ → Slot) (i : ℕ) (v : Slot) → set_at threads i v i ≡ v
set_at-same threads i v = ground arith

set_at-other :
    (threads : ℕ → Slot) (i : ℕ) (v : Slot) (j : ℕ) → j ≢ i → set_at threads i v j ≡ threads j
set_at-other threads i v j ne = ground arith

-- What a loop over the entries from i on, below the end, leaves alone.
pub record IsSame (end : ℕ) (m m' : Pool) : Type 0 where
  pub above : (j : ℕ) → end ≤ j → m'.threads j ≡ m.threads j
  pub started : m'.started ≡ m.started

join_thread-running :
    (ok : Bool) (i : ℕ) (m : Pool)
    → i < max_threads
    → m.threads i ≡ running
    → (m' : Pool) × (join_thread ok i m ≡ going m') × IsSame (i + 1) m m'
unfolding join_thread join_slot
join_thread-running true i m lt e =
    let inside : leb max_threads i ≡ false = ground arith in
    (
      record m { threads = set_at m.threads i joined },
      rw (inside, e),
      record { above = λ j le. ground (arith, le); started = refl },
    )
join_thread-running false i m lt e =
    let inside : leb max_threads i ≡ false = ground arith in
    (
      record m { cancelled = m.cancelled + 1 },
      rw (inside, e),
      record { above = λ j le. refl; started = refl },
    )

HasThreads-above :
    (i f : ℕ) (m m' : Pool)
    → IsSame (i + 1) m m'
    → HasThreads i f m.threads
    → HasThreads (i + 1) f m'.threads
HasThreads-above i f m m' same has j le =
    let e : m'.threads j ≡ m.threads j = same.above j le in
    let (low, high) = has j (omega (arith, le)) in
    (map_right (λ h. e ∙ h) low, map_right (λ h. e ∙ h) high)

pub HasThreads-same :
    {n : ℕ} (f : ℕ) (m m' : Pool)
    → IsSame n m m'
    → HasThreads 0 f m.threads
    → HasThreads n f m'.threads
HasThreads-same f m m' same has j le =
    let e : m'.threads j ≡ m.threads j = same.above j le in
    let (low, high) = has j (omega arith) in
    (map_right (λ h. e ∙ h) low, map_right (λ h. e ∙ h) high)

-- The loop that waits, over n entries from i on: all are threads, or one is not.
pub join_loop-going :
    (joins : ℕ → Bool) (n i f : ℕ) (m : Pool)
    → f ≤ max_threads
    → HasThreads i f m.threads
    → i + n ≤ f
    → (m' : Pool) × (join_loop joins n i m ≡ going m') × IsSame (i + n) m m'
unfolding join_loop
join_loop-going joins zero i f m small has le =
    (m, refl, record { above = λ j le. refl; started = refl })
join_loop-going joins (suc n) i f m small has le =
    let is_thread : m.threads i ≡ running = elim ((has i (omega arith)).0) [
      | inl beyond ↦ absurd (omega (arith, le, beyond))
      | inr e ↦ e
    ] in
    let (m₁, e₁, same₁) = join_thread-running (joins i) i m (omega (arith, le, small)) is_thread in
    let (m₂, e₂, same₂) =
      join_loop-going joins n (i + 1) f m₁ small (HasThreads-above i f m m₁ same₁ has)
        (omega (arith, le)) in
    (
      m₂,
      ap (λ o. o >>= join_loop joins n (i + 1)) e₁ ∙ e₂,
      record {
        above = λ j le. same₂.above j (omega (arith, le)) ∙ same₁.above j (omega (arith, le));
        started = same₂.started ∙ same₁.started;
      },
    )

pub join_loop-Fails :
    (joins : ℕ → Bool) (n i f : ℕ) (m : Pool)
    → f ≤ max_threads
    → HasThreads i f m.threads
    → i ≤ f
    → f < i + n
    → Fails (join_loop joins n i m)
unfolding join_loop join_thread join_slot
join_loop-Fails joins zero i f m small has le lt = absurd (omega (arith, le, lt))
join_loop-Fails joins (suc n) i f m small has le lt = elim (dec_lt i f) [
  | yes below ↦
      let is_thread : m.threads i ≡ running = elim ((has i (omega arith)).0) [
        | inl beyond ↦ absurd (omega (arith, below, beyond))
        | inr e ↦ e
      ] in
      let (m₁, e₁, same₁) =
        join_thread-running (joins i) i m (omega (arith, below, small)) is_thread in
      subst (λ o. Fails (o >>= join_loop joins n (i + 1))) (sym e₁)
        (join_loop-Fails joins n (i + 1) f m₁ small (HasThreads-above i f m m₁ same₁ has)
          (omega (arith, below)) (omega (arith, lt)))
  | no above ↦
      let is_unset : m.threads i ≡ unset = elim ((has i (omega arith)).1) [
        | inl below ↦ absurd (above below)
        | inr e ↦ e
      ] in
      >>=-Fails (join_thread (joins i) i m) (join_loop joins n (i + 1))
        (elim (Bool-cases (leb max_threads i)) [ inl e ↦ rw e tt | inr e ↦ rw (e, is_unset) tt ])
]

-- What the loop that starts the threads does to the entries from i on, when each call of
-- pthread_create returns 0.
pub record IsStarted (i f : ℕ) (files : List Text) (m m' : Pool) : Type 0 where
  pub below : (j : ℕ) → j < i → m'.threads j ≡ m.threads j
  pub has : HasThreads i (max f (i + length files)) m'.threads
  pub started : m'.started ≡ m.started ++ files

create_thread-going :
    (file : Text) (i : ℕ) (m : Pool)
    → i < max_threads
    → create_thread true file i m
      ≡ going (record m { threads = set_at m.threads i running; started = m.started ++ file ∷ [] })
unfolding create_thread
create_thread-going file i m lt =
    let inside : leb max_threads i ≡ false = ground arith in rw inside refl

HasThreads-cons :
    (i f n : ℕ) (threads : ℕ → Slot)
    → threads i ≡ running
    → HasThreads (i + 1) (max f (i + 1 + n)) threads
    → HasThreads i (max f (i + suc n)) threads
HasThreads-cons i f n threads e has j ge = elim (ℕ_discrete i j) [
  | yes same ↦ (inr (ap threads (sym same) ∙ e), inl (omega (arith, same)))
  | no other ↦
      let (low, high) = has j (omega (arith, ge, other)) in
      (map_left (λ h. omega (arith, h)) low, map_left (λ h. omega (arith, h)) high)
]

pub create_loop-going :
    (creates : ℕ → Bool) (files : List Text) (i f : ℕ) (m : Pool)
    → ((j : ℕ) → creates j ≡ true)
    → HasThreads (i + length files) f m.threads
    → i + length files ≤ max_threads
    → (m' : Pool) × (create_loop creates files i m ≡ going m') × IsStarted i f files m m'
unfolding create_loop
create_loop-going creates [] i f m ok has le = (
  m,
  refl,
  record {
    below = λ j lt. refl;
    has = λ j ge.
        let (low, high) = has j (omega (arith, ge)) in
        (map_left (λ h. omega (arith, h, ge)) low, map_left (λ h. omega (arith, h)) high);
    started = sym (append-nil m.started);
  },
)
create_loop-going creates (file ∷ files) i f m ok has le =
    let m₁ : Pool = record m {
      threads = set_at m.threads i running;
      started = m.started ++ file ∷ [];
    } in
    let e₁ : create_thread (creates i) file i m ≡ going m₁ =
      ap (λ b. create_thread b file i m) (ok i)
      ∙ create_thread-going file i m (omega (arith, le)) in
    let has₁ : HasThreads (i + 1 + length files) f m₁.threads = λ j ge.
      let e : m₁.threads j ≡ m.threads j = set_at-other m.threads i running j (omega (arith, ge)) in
      let (low, high) = has j (omega (arith, ge)) in
      (map_right (λ h. e ∙ h) low, map_right (λ h. e ∙ h) high) in
    let (m₂, e₂, loop) = create_loop-going creates files (i + 1) f m₁ ok has₁ (omega (arith, le)) in
    (
      m₂,
      ap (λ o. o >>= create_loop creates files (i + 1)) e₁ ∙ e₂,
      record {
        below = λ j lt.
            loop.below j (omega (arith, lt))
            ∙ set_at-other m.threads i running j (omega (arith, lt));
        has =
            HasThreads-cons i f (length files) m₂.threads
              (loop.below i (omega arith) ∙ set_at-same m.threads i running) loop.has;
        started = loop.started ∙ append_assoc m.started (file ∷ []) files;
      },
    )

pub create_loop-Fails :
    (creates : ℕ → Bool) (files : List Text) (i : ℕ) (m : Pool)
    → i ≤ max_threads
    → max_threads < i + length files
    → Fails (create_loop creates files i m)
unfolding create_loop create_thread
create_loop-Fails creates [] i m le lt = absurd (omega (arith, le, lt))
create_loop-Fails creates (file ∷ files) i m le lt = elim (Bool-cases (leb max_threads i)) [
  | inl outside ↦ rw outside tt
  | inr inside ↦
      let le' : i + 1 ≤ max_threads = ground arith in
      rw inside (create_loop-Fails creates files (i + 1) _ le' (omega (arith, lt)))
]
