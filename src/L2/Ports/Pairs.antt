-- ===== src/L2/Ports/Pairs.antt =====
-- The pairing of the ports is an involution on the enabled ports.
use testofdumping.Prelude.{
  ℕ, zero, suc, ◌+◌, ◌%◌, ◌<◌, Bool, true, false, ◌≡◌, ◌≢◌, ◌⊎◌, inl, inr, arith, ◌==◌, Bool-cases,
}
use native.Mathlib.Decide.{ℕ_discrete}
use testofdumping.L2.Ports.{
  set_at, Pairing, unpaired, pair_port, visit_port, pair_loop, pair_last, pair_ports,
}

-- The port that waits for a partner.
abbrev IsWaiting : Pairing → ℕ → Type 0
IsWaiting s p = (s.nb_ports_in_mask % 2 ≡ 1) × (p ≡ s.last_port)

-- Port p is paired with another one below the bound, which is not waiting.
record HasPartner (enabled : ℕ → Bool) (bound : ℕ) (s : Pairing) (p : ℕ) : Type 0 where
  below : s.icis_dst_ports p < bound
  is_enabled : enabled (s.icis_dst_ports p) ≡ true
  free : (s.nb_ports_in_mask % 2 ≡ 0) ⊎ (s.icis_dst_ports p ≢ s.last_port)
  other : s.icis_dst_ports p ≢ p
  back : s.icis_dst_ports (s.icis_dst_ports p) ≡ p

record IsPaired (enabled : ℕ → Bool) (bound : ℕ) (s : Pairing) : Type 0 where
  waiting : s.nb_ports_in_mask % 2 ≡ 1 → (s.last_port < bound) × (enabled s.last_port ≡ true)
  partner : (p : ℕ) → p < bound → enabled p ≡ true → ¬ IsWaiting s p → HasPartner enabled bound s p

module _ (enabled : ℕ → Bool) (i : ℕ) (s : Pairing) (v : IsPaired enabled i s) where
  -- A disabled port changes nothing.
  skip-IsPaired : enabled i ≡ false → IsPaired enabled (i + 1) s
  skip-IsPaired off = record {
    waiting = λ odd. (omega (arith, v.waiting odd), (v.waiting odd).1);
    partner = λ p lt on free.
        let before : p < i = elim (ℕ_discrete p i) [
          | yes e ↦ cc (rw e at on)
          | no ne ↦ omega arith
        ] in
        let r = v.partner p before on free in
        record {
          below = omega (arith, r.below);
          is_enabled = r.is_enabled;
          free = r.free;
          other = r.other;
          back = r.back;
        };
  }

  -- An enabled port that finds none waiting waits itself.
  wait-IsPaired :
      enabled i ≡ true
      → s.nb_ports_in_mask % 2 ≡ 0
      → IsPaired enabled
          (i + 1)
          (record s { last_port = i; nb_ports_in_mask = s.nb_ports_in_mask + 1 })
  wait-IsPaired on even = record {
    waiting = λ odd. (omega arith, on);
    partner = λ p lt onp free.
        let ne : p ≢ i = λ e. free (omega arith, e) in
        let r = v.partner p (omega (arith, ne)) onp (λ w. omega (arith, w)) in
        record {
          below = omega (arith, r.below);
          is_enabled = r.is_enabled;
          free = inr (λ e. omega (arith, r.below, e));
          other = r.other;
          back = r.back;
        };
  }

  -- An enabled port that finds one waiting is paired with it.
  pair-IsPaired :
      enabled i ≡ true
      → s.nb_ports_in_mask % 2 ≡ 1
      → IsPaired enabled (i + 1) (record s {
        icis_dst_ports = set_at (set_at s.icis_dst_ports i s.last_port) s.last_port i;
        nb_ports_in_mask = s.nb_ports_in_mask + 1;
      })
  pair-IsPaired on odd = record {
    waiting = λ odd'. absurd (omega arith);
    partner = λ p lt onp free.
        let (low, last_on) = v.waiting odd in
        elim (ℕ_discrete p i) [
          | yes e ↦ record {
            below = ground arith;
            is_enabled = ground arith;
            free = inl (omega arith);
            other = ground arith;
            back = ground arith;
          }
          | no ne ↦ elim (ℕ_discrete p s.last_port) [
            | yes e ↦ record {
              below = ground arith;
              is_enabled = ground arith;
              free = inl (omega arith);
              other = ground arith;
              back = ground arith;
            }
            | no ne' ↦
                let r = v.partner p (omega (arith, ne)) onp (λ w. ne' w.1) in
                let apart : s.icis_dst_ports p ≢ s.last_port = elim (r.free) [
                  | inl even ↦ absurd (omega arith)
                  | inr d ↦ d
                ] in
                record {
                  below = ground (arith, r.below);
                  is_enabled = ground (arith, r.is_enabled);
                  free = inl (omega arith);
                  other = ground (arith, r.other);
                  back = ground (arith, r.below, r.back, apart);
                }
          ]
        ];
  }

  visit_port-IsPaired : IsPaired enabled (i + 1) (visit_port enabled i s)
  unfolding visit_port pair_port
  visit_port-IsPaired = elim (Bool-cases (enabled i)) [
    | inr off ↦ rw off (skip-IsPaired off)
    | inl on ↦ elim (Bool-cases (s.nb_ports_in_mask % 2 == 0)) [
      | inl even ↦ simp (on, even) (wait-IsPaired on (ground arith))
      | inr odd ↦ simp (on, odd) (pair-IsPaired on (ground arith))
    ]
  ]

module _ (enabled : ℕ → Bool) where
  pair_loop-IsPaired :
      (n i j : ℕ) (s : Pairing)
      → i + n ≡ j
      → IsPaired enabled i s
      → IsPaired enabled j (pair_loop enabled n i s)
  unfolding pair_loop
  pair_loop-IsPaired zero i j s e v = let e' : i ≡ j = omega arith in rw (← e') v
  pair_loop-IsPaired (suc n) i j s e v =
      pair_loop-IsPaired n (i + 1) j (visit_port enabled i s) (omega arith)
        (visit_port-IsPaired enabled i s v)

  unpaired-IsPaired : IsPaired enabled 0 unpaired
  unpaired-IsPaired = record {
    waiting = λ odd. absurd (omega (arith, odd));
    partner = λ p lt on free. absurd (omega (arith, lt));
  }

  -- What the last step makes of it.
  abbrev IsBack : ℕ → Pairing → ℕ → Type 0
  IsBack bound t p =
      (t.icis_dst_ports p < bound)
      × (enabled (t.icis_dst_ports p) ≡ true)
      × (t.icis_dst_ports (t.icis_dst_ports p) ≡ p)
      × ((t.icis_dst_ports p ≢ p) ⊎ ((t.nb_ports_in_mask % 2 ≡ 1) × (p ≡ t.last_port)))

  pair_last-IsBack :
      (bound p : ℕ) (s : Pairing)
      → IsPaired enabled bound s
      → p < bound
      → enabled p ≡ true
      → IsBack bound (pair_last s) p
  unfolding pair_last
  pair_last-IsBack bound p s v lt on = elim (Bool-cases (s.nb_ports_in_mask % 2 == 0)) [
    | inl even ↦
        let r = v.partner p lt on (λ w. ground (arith, w)) in
        rw even (r.below, r.is_enabled, r.back, inl r.other)
    | inr odd ↦
        let one : s.nb_ports_in_mask % 2 ≡ 1 = ground arith in
        let (low, last_on) = v.waiting one in
        elim (ℕ_discrete p s.last_port) [
          | yes e ↦ simp odd (ground arith, ground arith, ground arith, inr (one, e))
          | no ne ↦
              let r = v.partner p lt on (λ w. ne w.1) in
              let apart : s.icis_dst_ports p ≢ s.last_port = elim (r.free) [
                | inl even ↦ absurd (omega arith)
                | inr d ↦ d
              ] in
              simp odd (
                ground (arith, r.below),
                ground (arith, r.is_enabled),
                ground (arith, r.back, apart),
                inl (λ e. r.other (ground (arith, e))),
              )
        ]
  ]

  -- Every enabled port has an enabled port to send to, and that one sends back to it: to itself only
  -- where the number of enabled ports is odd, and then only the last one does.
  pub pair_ports_back :
      (nb_ports p : ℕ)
      → p < nb_ports
      → enabled p ≡ true
      → let t = pair_ports enabled nb_ports in
        (t.icis_dst_ports p < nb_ports)
        × (enabled (t.icis_dst_ports p) ≡ true)
        × (t.icis_dst_ports (t.icis_dst_ports p) ≡ p)
        × ((t.icis_dst_ports p ≢ p) ⊎ ((t.nb_ports_in_mask % 2 ≡ 1) × (p ≡ t.last_port)))
  unfolding pair_ports
  pair_ports_back nb_ports p lt on =
      pair_last-IsBack nb_ports p (pair_loop enabled nb_ports 0 unpaired)
        (pair_loop-IsPaired nb_ports 0 nb_ports unpaired (omega arith) unpaired-IsPaired) lt on
