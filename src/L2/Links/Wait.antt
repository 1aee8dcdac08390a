-- ===== src/L2/Links/Wait.antt =====
-- How long the program waits for the links, and that it prints them.
use testofdumping.Prelude.{
  ℕ, zero, suc, ◌+◌, ◌-◌, ◌≤◌, ◌<◌, List, Bool, true, false, ◌≡◌, refl, ◌⊎◌, inl, inr, arith, some,
  map, Bool-cases,
}
use native.Mathlib.Decide.{ℕ_discrete}
use testofdumping.L2.Links.{
  max_check_time, Watch, all_ports_up, print_links, poll_links, link_loop,
  check_all_ports_link_status,
}

-- Round k prints: the links were all up in the round before, or the rounds have run out; and in no
-- earlier round were they all up.
abbrev pub IsLast : (ℕ → ℕ → Bool) → List ℕ → ℕ → Type 0
IsLast up ports k =
    (((0 < k) × (all_ports_up (up (k - 1)) ports ≡ true)) ⊎ (k ≡ max_check_time))
    × ((j : ℕ) → j + 1 < k → all_ports_up (up j) ports ≡ false)

-- What holds at the head of the outer loop.
record IsWaiting (up : ℕ → ℕ → Bool) (ports : List ℕ) (count : ℕ) (w : Watch) : Type 0 where
  slept : w.delays ≤ count
  done : w.print_flag ≡ true → (count ≤ max_check_time) × IsLast up ports count
  going :
      w.print_flag ≡ false
      → (count < max_check_time) × ((j : ℕ) → j < count → all_ports_up (up j) ports ≡ false)

module _ (up : ℕ → ℕ → Bool) (ports : List ℕ) where
  poll_links-IsWaiting :
      (count : ℕ) (w : Watch)
      → w.print_flag ≡ false
      → IsWaiting up ports count w
      → IsWaiting up ports (count + 1) (poll_links (up count) ports count w)
  unfolding poll_links
  poll_links-IsWaiting count w off v = elim (Bool-cases (all_ports_up (up count) ports)) [
    | inl all ↦ rw all (record {
      slept = omega (arith, v.slept);
      done = λ _. (
        omega (arith, (v.going off).0),
        (inl (omega arith, now all), λ j lt. (v.going off).1 j (omega (arith, lt))),
      );
      going = λ e. cc;
    })
    | inr down ↦ rw down (record {
      slept = omega (arith, v.slept);
      done = λ e. (
        ground (arith, e),
        (inr (ground (arith, e)), λ j lt. (v.going off).1 j (omega (arith, lt))),
      );
      going = λ e. (
        ground (arith, e, (v.going off).0),
        λ j lt. elim (ℕ_discrete j count) [
          | yes here ↦ rw here down
          | no ne ↦ (v.going off).1 j (omega (arith, lt, ne))
        ],
      );
    })
  ]
    where
      now : all_ports_up (up count) ports ≡ true → all_ports_up (up (count + 1 - 1)) ports ≡ true
      now all = let e : count + 1 - 1 ≡ count = omega arith in rw e all

  -- The loop prints the links as they are in its last round, and sleeps at most once a round.
  abbrev pub HasPrinted : Watch → Type 0
  HasPrinted w =
      (k : ℕ) × (k ≤ max_check_time)
      × (w.printed ≡ some (map (λ portid. (portid, up k portid)) ports))
      × (w.delays ≤ k)
      × IsLast up ports k

  link_loop-HasPrinted :
      (n count : ℕ) (w : Watch)
      → count + n ≡ max_check_time + 1
      → IsWaiting up ports count w
      → HasPrinted (link_loop up ports n count w)
  unfolding link_loop print_links
  link_loop-HasPrinted zero count w e v = elim (Bool-cases w.print_flag) [
    | inl on ↦ absurd (omega (arith, (v.done on).0, e))
    | inr off ↦ absurd (omega (arith, (v.going off).0, e))
  ]
  link_loop-HasPrinted (suc n) count w e v = go (w.print_flag) refl (λ v'.
      link_loop-HasPrinted n (count + 1) (poll_links (up count) ports count w) (omega arith) v')
    where
      go :
          (b : Bool)
          → w.print_flag ≡ b
          → (IsWaiting up ports (count + 1) (poll_links (up count) ports count w)
              → HasPrinted (link_loop up ports n (count + 1) (poll_links (up count) ports count w)))
          → HasPrinted (elim b [
            | true ↦ print_links (up count) ports w
            | false ↦ link_loop up ports n (count + 1) (poll_links (up count) ports count w)
          ])
      go true on ih = (count, (v.done on).0, refl, v.slept, (v.done on).1)
      go false off ih = ih (poll_links-IsWaiting count w off v)

  -- However the links come and go, the wait ends: in some round k, of at most 90, the program
  -- prints the links as they are then. The links were all up in the round before, or k is 90; they
  -- were not all up in any earlier round; and the program has slept at most k times.
  pub link_status_printed : HasPrinted (check_all_ports_link_status up ports)
  unfolding check_all_ports_link_status
  link_status_printed = link_loop-HasPrinted (max_check_time + 1) 0 _ refl (record {
    slept = omega arith;
    done = λ e. cc;
    going = λ _. (omega arith, λ j lt. absurd (omega (arith, lt)));
  })
