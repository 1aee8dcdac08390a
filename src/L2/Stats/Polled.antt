-- ===== src/L2/Stats/Polled.antt =====
-- The cores poll the ports that main has given them.
use testofdumping.Prelude.{
  ℕ, zero, suc, ◌+◌, ◌%◌, ◌^◌, ◌≤◌, ◌<◌, List, [], ◌∷◌, ◌++◌, Bool, true, ◌≡◌, refl, ap, sym, subst,
  ◌∙◌, arith, length, All, All-append, ◌==◌, Bool-cases, inl, inr,
}
use native.Mathlib.Decide.{ℕ_discrete}
use testofdumping.Dump.Types.{next}
use testofdumping.L2.Ports.{Machine, Lcores, enabled_ports, assign_ports}
use testofdumping.L2.Ports.Gather.{gather}
use testofdumping.L2.Ports.Cores.{assign_ports_all}
use testofdumping.L2.Stats.{
  Traffic, Arrival, poll_port, poll_loop, poll_ports, slave_ports, packet_producers, silent,
}
use testofdumping.L2.Stats.Sums.{arrived, IsPolled, totals, totals_printed}

-- The polls of a round, and of some rounds.
abbrev polls_in : List ℕ → (ℕ → List Arrival) → List (ℕ × List Arrival)
polls_in [] bursts = []
polls_in (portid ∷ ports) bursts = (portid, bursts portid) ∷ polls_in ports bursts

abbrev pub all_polls : (ℕ → List ℕ) → List (ℕ × (ℕ → List Arrival)) → List (ℕ × List Arrival)
all_polls lists [] = []
all_polls lists ((lcore_id, bursts) ∷ rounds) =
    polls_in (lists lcore_id) bursts ++ all_polls lists rounds

poll_loop-append :
    (xs ys : List (ℕ × List Arrival)) (t : Traffic)
    → poll_loop (xs ++ ys) t ≡ poll_loop ys (poll_loop xs t)
unfolding poll_loop
poll_loop-append [] ys t = refl
poll_loop-append ((portid, burst) ∷ xs) ys t = poll_loop-append xs ys (poll_port portid burst t)

poll_ports_lem :
    (ports : List ℕ) (bursts : ℕ → List Arrival) (t : Traffic)
    → poll_ports ports bursts t ≡ poll_loop (polls_in ports bursts) t
unfolding poll_ports poll_loop
poll_ports_lem [] bursts t = refl
poll_ports_lem (portid ∷ ports) bursts t =
    poll_ports_lem ports bursts (poll_port portid (bursts portid) t)

packet_producers_lem :
    (master : ℕ) (lists : ℕ → List ℕ) (rounds : List (ℕ × (ℕ → List Arrival))) (t : Traffic)
    → packet_producers master lists rounds t
      ≡ poll_loop (all_polls (slave_ports master lists) rounds) t
unfolding packet_producers poll_loop
packet_producers_lem master lists [] t = refl
packet_producers_lem master lists ((k, bursts) ∷ rounds) t =
    let polled = slave_ports master lists in
    packet_producers_lem master lists rounds (poll_ports (polled k) bursts t)
    ∙ ap (poll_loop (all_polls polled rounds)) (poll_ports_lem (polled k) bursts t)
    ∙ sym (poll_loop-append (polls_in (polled k) bursts) (all_polls polled rounds) t)

All-append-left : (P : ℕ → Type 0) (xs ys : List ℕ) → All P (xs ++ ys) → All P xs
All-append-left P [] ys h = tt
All-append-left P (x ∷ xs) ys h = (h.0, All-append-left P xs ys h.1)

All-append-right : (P : ℕ → Type 0) (xs ys : List ℕ) → All P (xs ++ ys) → All P ys
All-append-right P [] ys h = h
All-append-right P (x ∷ xs) ys h = All-append-right P xs ys h.1

-- What holds of all gathered ports holds of those of each core.
All-gather :
    (P : ℕ → Type 0) (n k : ℕ) (lists : ℕ → List ℕ)
    → All P (gather n lists)
    → k < n
    → All P (lists k)
All-gather P zero k lists h lt = absurd (omega (arith, lt))
All-gather P (suc n) k lists h lt = elim (ℕ_discrete k n) [
  | yes e ↦ subst (λ j. All P (lists j)) (sym e) (All-append-right P (gather n lists) (lists n) h)
  | no other ↦
      All-gather P n k lists (All-append-left P (gather n lists) (lists n) h)
        (omega (arith, lt, other))
]

module _ (enabled : ℕ → Bool) (bound : ℕ) where
  abbrev IsPort : ℕ → Type 0
  IsPort portid = (portid < bound) × (enabled portid ≡ true)

  enabled_ports-IsPort :
      (n portid : ℕ) → portid + n ≤ bound → All IsPort (enabled_ports enabled n portid)
  unfolding enabled_ports
  enabled_ports-IsPort zero portid le = tt
  enabled_ports-IsPort (suc n) portid le =
      let rest = enabled_ports-IsPort n (portid + 1) (omega (arith, le)) in
      elim (Bool-cases (enabled portid)) [
        | inl on ↦ rw on ((omega (arith, le), on), rest)
        | inr off ↦ rw off rest
      ]

  polls_in-IsPolled :
      (ports : List ℕ) (bursts : ℕ → List Arrival)
      → All IsPort ports
      → All (IsPolled enabled bound) (polls_in ports bursts)
  polls_in-IsPolled [] bursts h = tt
  polls_in-IsPolled (portid ∷ ports) bursts h = (h.0, polls_in-IsPolled ports bursts h.1)

  slave_ports-IsPort :
      (master k : ℕ) (lists : ℕ → List ℕ)
      → All IsPort (lists k)
      → All IsPort (slave_ports master lists k)
  unfolding slave_ports
  slave_ports-IsPort master k lists h = elim (Bool-cases (k == master)) [
    | inl skipped ↦ rw skipped tt
    | inr slave ↦ rw slave h
  ]

  all_polls-IsPolled :
      (lists : ℕ → List ℕ) (n : ℕ) (rounds : List (ℕ × (ℕ → List Arrival)))
      → ((k : ℕ) → k < n → All IsPort (lists k))
      → All (λ r. r.0 < n) rounds
      → All (IsPolled enabled bound) (all_polls lists rounds)
  all_polls-IsPolled lists n [] h on = tt
  all_polls-IsPolled lists n ((k, bursts) ∷ rounds) h on =
      All-append _ _ _ (polls_in-IsPolled (lists k) bursts (h k on.0))
        (all_polls-IsPolled lists n rounds h on.1)

  -- Where main could assign the ports, of which it knows no more than the loop of print_stats
  -- visits, and the cores then run any rounds of packet_producer, one round at a time, all but the
  -- master core, whichever that is: the totals printed are the number of packets that came at the
  -- ports of these cores, modulo 2^64, as received, and 0 as sent and as dropped: also where the ring
  -- has refused packets, although every packet that came is on the ring or was refused.
  pub packet_producers-totals :
      (m : Machine) (master per_lcore nb_ports : ℕ) (l : Lcores)
      (rounds : List (ℕ × (ℕ → List Arrival)))
      → assign_ports m per_lcore enabled nb_ports ≡ next l
      → nb_ports ≤ bound
      → All (λ r. r.0 < m.max_lcore) rounds
      → let t = packet_producers master l.rx_port_list rounds silent in
        let came = arrived (all_polls (slave_ports master l.rx_port_list) rounds) in
        ((totals enabled bound t).total_packets_rx ≡ came % 2 ^ 64)
        × ((totals enabled bound t).total_packets_tx ≡ 0)
        × ((totals enabled bound t).total_packets_dropped ≡ 0)
        × (length t.queued + length t.refused ≡ came)
  packet_producers-totals m master per_lcore nb_ports l rounds e le on =
      let (lists, _, _) = assign_ports_all m per_lcore enabled nb_ports l e in
      let ports : All IsPort (gather m.max_lcore l.rx_port_list) =
        subst (All IsPort) (sym lists) (enabled_ports-IsPort nb_ports 0 (omega (arith, le))) in
      let polled = slave_ports master l.rx_port_list in
      subst
        (λ t.
          ((totals enabled bound t).total_packets_rx ≡ arrived (all_polls polled rounds) % 2 ^ 64)
          × ((totals enabled bound t).total_packets_tx ≡ 0)
          × ((totals enabled bound t).total_packets_dropped ≡ 0)
          × (length t.queued + length t.refused ≡ arrived (all_polls polled rounds)))
        (sym (packet_producers_lem master l.rx_port_list rounds silent))
        (totals_printed enabled bound (all_polls polled rounds) (
          all_polls-IsPolled polled m.max_lcore rounds
            (λ k lt.
              slave_ports-IsPort master k l.rx_port_list
                (All-gather IsPort m.max_lcore k l.rx_port_list ports lt))
            on))
