-- ===== src/L2/Stats/Sums.antt =====
-- The totals that are printed, against the packets that came.
use testofdumping.Prelude.{
  ℕ, zero, suc, ◌+◌, ◌%◌, ◌^◌, ◌≤◌, ◌<◌, List, [], ◌∷◌, ◌++◌, Bool, true, false, ◌≡◌, refl, ap, sym,
  subst, ==_iff, ◌∙◌, arith, length, length-append, All, Bool-cases, inl, inr, if◌then◌else◌,
}
use native.Mathlib.Decide.{ℕ_discrete}
use testofdumping.L2.Ports.{set_at}
use testofdumping.L2.Stats.{
  PortStatistics, Traffic, Arrival, stamp, forward, count_rx, poll_port, poll_loop, Totals,
  add_port, print_stats, silent,
}

-- All packets of some polls.
abbrev pub arrived : List (ℕ × List Arrival) → ℕ
arrived [] = 0
arrived ((portid, burst) ∷ rest) = length burst + arrived rest

module _ (enabled : ℕ → Bool) (bound : ℕ) where
  -- Only enabled ports are polled.
  abbrev pub IsPolled : ℕ × List Arrival → Type 0
  IsPolled x = (x.0 < bound) × (enabled x.0 ≡ true)

  -- Counts at a port beyond the loop do not show.
  print_stats_apart :
      (n i : ℕ) (stats : ℕ → PortStatistics) (st : PortStatistics)
      → n ≤ i
      → print_stats enabled (set_at stats i st) n ≡ print_stats enabled stats n
  unfolding print_stats
  print_stats_apart zero i stats st le = refl
  print_stats_apart (suc n) i stats st le =
      let same : set_at stats i st n ≡ stats n = ground arith in
      let ih = print_stats_apart n i stats st (omega arith) in
      ap (λ b. if enabled n then add_port (set_at stats i st n) b else b) ih
      ∙ ap
          (λ s.
            if enabled n
            then add_port s (print_stats enabled stats n)
            else print_stats enabled stats n)
          same

  -- One more round of the loop, at an enabled port and at another.
  print_stats_on :
      (n : ℕ) (stats : ℕ → PortStatistics)
      → enabled n ≡ true
      → print_stats enabled stats (suc n) ≡ add_port (stats n) (print_stats enabled stats n)
  unfolding print_stats
  print_stats_on n stats on = rw on

  print_stats_off :
      (n : ℕ) (stats : ℕ → PortStatistics)
      → enabled n ≡ false
      → print_stats enabled stats (suc n) ≡ print_stats enabled stats n
  unfolding print_stats
  print_stats_off n stats off = rw off

  -- The totals with so many more packets received.
  abbrev HasMore : ℕ → Totals → Totals → Type 0
  HasMore nb before after =
      (after.total_packets_rx ≡ (before.total_packets_rx + nb) % 2 ^ 64)
      × (after.total_packets_tx ≡ before.total_packets_tx)
      × (after.total_packets_dropped ≡ before.total_packets_dropped)

  abbrev more_rx : ℕ → PortStatistics → PortStatistics
  more_rx nb st = record st { rx = (st.rx + nb) % 2 ^ 64 }

  add_port_more :
      (nb : ℕ) (st : PortStatistics) (before : Totals)
      → HasMore nb (add_port st before) (add_port (more_rx nb st) before)
  unfolding add_port
  add_port_more nb st before = (omega arith, refl, refl)

  add_port_same :
      (nb : ℕ) (st : PortStatistics) (before after : Totals)
      → HasMore nb before after
      → HasMore nb (add_port st before) (add_port st after)
  unfolding add_port
  add_port_same nb st before after h =
      (omega arith, ap (λ k. (k + st.tx) % 2 ^ 64) h.1, ap (λ k. (k + st.dropped) % 2 ^ 64) h.2)

  -- Packets counted at an enabled port show in the total of those received, and nowhere else.
  print_stats_more :
      (n i nb : ℕ) (stats : ℕ → PortStatistics)
      → i < n
      → enabled i ≡ true
      → HasMore nb
          (print_stats enabled stats n)
          (print_stats enabled (set_at stats i (more_rx nb (stats i))) n)
  print_stats_more zero i nb stats lt on = absurd (omega (arith, lt))
  print_stats_more (suc n) i nb stats lt on = elim (ℕ_discrete i n) [
    | yes e ↦
        let on_n : enabled n ≡ true = rw (← e) on in
        let here : set_at stats i (more_rx nb (stats i)) n ≡ more_rx nb (stats n) =
          ap (λ b. if b then more_rx nb (stats i) else stats n) ((==_iff n i).1 (sym e))
          ∙ ap (λ k. more_rx nb (stats k)) e in
        subst
          (λ t. HasMore nb t (print_stats enabled (set_at stats i (more_rx nb (stats i))) (suc n)))
          (sym (print_stats_on n stats on_n))
          (subst (HasMore nb (add_port (stats n) (print_stats enabled stats n)))
            (sym (
              print_stats_on n (set_at stats i (more_rx nb (stats i))) on_n
              ∙ ap (λ t. add_port (set_at stats i (more_rx nb (stats i)) n) t)
                  (print_stats_apart n i stats (more_rx nb (stats i)) (omega arith))
              ∙ ap (λ st. add_port st (print_stats enabled stats n)) here))
            (add_port_more nb (stats n) (print_stats enabled stats n)))
    | no ne ↦
        let ih = print_stats_more n i nb stats (omega arith) on in
        let there : set_at stats i (more_rx nb (stats i)) n ≡ stats n = ground arith in
        elim (Bool-cases (enabled n)) [
          | inl on_n ↦
              subst
                (λ t.
                  HasMore nb t
                    (print_stats enabled (set_at stats i (more_rx nb (stats i))) (suc n)))
                (sym (print_stats_on n stats on_n))
                (subst (HasMore nb (add_port (stats n) (print_stats enabled stats n)))
                  (sym (
                    print_stats_on n (set_at stats i (more_rx nb (stats i))) on_n
                    ∙ ap
                        (λ st.
                          add_port st
                            (print_stats enabled (set_at stats i (more_rx nb (stats i))) n))
                        there))
                  (add_port_same nb (stats n) _ _ ih))
          | inr off ↦
              subst
                (λ t.
                  HasMore nb t
                    (print_stats enabled (set_at stats i (more_rx nb (stats i))) (suc n)))
                (sym (print_stats_off n stats off))
                (subst (HasMore nb (print_stats enabled stats n))
                  (sym (print_stats_off n (set_at stats i (more_rx nb (stats i))) off)) ih)
        ]
  ]

  forward_counts :
      (burst : List Arrival) (t : Traffic)
      → ((forward burst t).port_statistics ≡ t.port_statistics)
        × (length (forward burst t).queued + length (forward burst t).refused
            ≡ length t.queued + length t.refused + length burst)
  unfolding forward
  forward_counts [] t = (refl, omega arith)
  forward_counts (a ∷ rest) t = elim (Bool-cases a.enqueued) [
    | inl taken ↦
        let (same, sum) = forward_counts rest (record t { queued = t.queued ++ stamp a ∷ [] }) in
        simp taken (same, omega (arith, sum, length-append t.queued (stamp a ∷ [])))
    | inr lost ↦
        let (same, sum) = forward_counts rest (record t { refused = t.refused ++ stamp a ∷ [] }) in
        simp lost (same, omega (arith, sum, length-append t.refused (stamp a ∷ [])))
  ]

  -- The totals printed after some polls.
  abbrev pub totals : Traffic → Totals
  totals t = print_stats enabled t.port_statistics bound

  -- A total is a word of 64 bits.
  total_rx_word :
      (n : ℕ) (stats : ℕ → PortStatistics)
      → (print_stats enabled stats n).total_packets_rx % 2 ^ 64
        ≡ (print_stats enabled stats n).total_packets_rx
  unfolding print_stats add_port
  total_rx_word zero stats = refl
  total_rx_word (suc n) stats = elim (Bool-cases (enabled n)) [
    | inl on ↦ rw on (omega arith)
    | inr off ↦ rw off (total_rx_word n stats)
  ]

  poll_port_counts :
      (portid : ℕ) (burst : List Arrival) (t : Traffic)
      → portid < bound
      → enabled portid ≡ true
      → HasMore (length burst) (totals t) (totals (poll_port portid burst t))
        × (length (poll_port portid burst t).queued + length (poll_port portid burst t).refused
            ≡ length t.queued + length t.refused + length burst)
  unfolding poll_port count_rx
  poll_port_counts portid burst t lt on =
      let (same, sum) = forward_counts burst (count_rx portid (length burst) t) in
      (
        subst (λ stats. HasMore (length burst) (totals t) (print_stats enabled stats bound))
            (sym same) (print_stats_more bound portid (length burst) t.port_statistics lt on),
        sum,
      )

  poll_loop_counts :
      (polls : List (ℕ × List Arrival)) (t : Traffic)
      → All IsPolled polls
      → HasMore (arrived polls) (totals t) (totals (poll_loop polls t))
        × (length (poll_loop polls t).queued + length (poll_loop polls t).refused
            ≡ length t.queued + length t.refused + arrived polls)
  unfolding poll_loop
  poll_loop_counts [] t h =
      ((omega (arith, total_rx_word bound t.port_statistics), refl, refl), omega arith)
  poll_loop_counts ((portid, burst) ∷ rest) t h =
      let (one, sum) = poll_port_counts portid burst t h.0.0 h.0.1 in
      let (more, sums) = poll_loop_counts rest (poll_port portid burst t) h.1 in
      ((omega (arith, one.0, more.0), more.1 ∙ one.1, more.2 ∙ one.2), omega (arith, sum, sums))

  zero_totals :
      (n : ℕ)
      → print_stats enabled silent.port_statistics n
        ≡ record { total_packets_tx = 0; total_packets_rx = 0; total_packets_dropped = 0 }
  unfolding print_stats add_port
  zero_totals zero = refl
  zero_totals (suc n) = elim (Bool-cases (enabled n)) [
    | inl on ↦ rw on (ap (add_port (silent.port_statistics n)) (zero_totals n))
    | inr off ↦ rw off (zero_totals n)
  ]

  -- After any polls of enabled ports, in any order and by any cores one at a time, the totals
  -- printed are the number of packets that came, modulo 2^64, as received, and 0 as sent and as
  -- dropped: also where the ring has refused packets, although every packet that came is on the ring
  -- or was refused.
  pub totals_printed :
      (polls : List (ℕ × List Arrival))
      → All IsPolled polls
      → let t = poll_loop polls silent in
        ((totals t).total_packets_rx ≡ arrived polls % 2 ^ 64)
        × ((totals t).total_packets_tx ≡ 0)
        × ((totals t).total_packets_dropped ≡ 0)
        × (length t.queued + length t.refused ≡ arrived polls)
  totals_printed polls h =
      let (more, sum) = poll_loop_counts polls silent h in
      let z = zero_totals bound in
      (
        omega (arith, more.0, ap (λ (s : Totals). s.total_packets_rx) z),
        more.1 ∙ ap (λ (s : Totals). s.total_packets_tx) z,
        more.2 ∙ ap (λ (s : Totals). s.total_packets_dropped) z,
        omega (arith, sum),
      )
