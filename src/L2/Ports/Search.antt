-- ===== src/L2/Ports/Search.antt =====
-- The search for a core with room.
use testofdumping.Prelude.{
  ℕ, zero, suc, ◌+◌, ◌≤◌, ◌<◌, true, false, ◌≡◌, ◌≢◌, inl, inr, arith, Bool-cases, some, none,
  length,
}
use native.Mathlib.Decide.{ℕ_discrete}
use testofdumping.L2.Ports.{Lcores, Machine, lcore_taken, find_lcore}

module _ (m : Machine) (per_lcore : ℕ) where
  -- Where the search stops, and what it has passed.
  pub find_lcore-some :
      (s : Lcores) (left id found : ℕ)
      → find_lcore m per_lcore s left id ≡ some found
      → (id ≤ found)
        × (found < id + left)
        × (lcore_taken m per_lcore s found ≡ false)
        × ((k : ℕ) → id ≤ k → k < found → lcore_taken m per_lcore s k ≡ true)
  unfolding find_lcore
  find_lcore-some s zero id found e = cc
  find_lcore-some s (suc left) id found e = elim (Bool-cases (lcore_taken m per_lcore s id)) [
    | inr free ↦
        let here : id ≡ found = ground (arith, free) in
        (
          omega arith,
          omega arith,
          rw (← here) free,
          λ k le lt. absurd (omega (arith, le, lt, here)),
        )
    | inl taken ↦
        let (low, high, free, passed) = find_lcore-some s left (id + 1) found (rw taken at e) in
        (
          omega (arith, low),
          omega (arith, high),
          free,
          λ k le lt. elim (ℕ_discrete k id) [
            | yes at_id ↦ rw at_id taken
            | no ne ↦ passed k (omega (arith, ne, le)) lt
          ],
        )
  ]

  pub find_lcore-none :
      (s : Lcores) (left id : ℕ)
      → find_lcore m per_lcore s left id ≡ none
      → (k : ℕ) → id ≤ k
      → k < id + left
      → lcore_taken m per_lcore s k ≡ true
  unfolding find_lcore
  find_lcore-none s zero id e k le lt = absurd (omega (arith, le, lt))
  find_lcore-none s (suc left) id e k le lt = elim (Bool-cases (lcore_taken m per_lcore s id)) [
    | inr free ↦ cc (rw free at e)
    | inl taken ↦ elim (ℕ_discrete k id) [
      | yes at_id ↦ rw at_id taken
      | no ne ↦
          find_lcore-none s left (id + 1) (rw taken at e) k (omega (arith, ne, le))
            (omega (arith, lt))
    ]
  ]

  pub free_lcore :
      (s : Lcores) (k : ℕ)
      → lcore_taken m per_lcore s k ≡ false
      → (m.lcore_enabled k ≡ true) × (length (s.rx_port_list k) ≢ per_lcore)
  unfolding lcore_taken
  free_lcore s k e = ground arith

  pub full_lcore :
      (s : Lcores) (k : ℕ)
      → lcore_taken m per_lcore s k ≡ true
      → m.lcore_enabled k ≡ true
      → length (s.rx_port_list k) ≡ per_lcore
  unfolding lcore_taken
  full_lcore s k e on = ground arith
