-- ===== src/L2/Stats/Tests.antt =====
-- Rounds of two cores, with packets that the ring refuses.
use testofdumping.Prelude.{
  ℕ, ◌+◌, ◌%◌, ◌^◌, List, [], ◌∷◌, Bool, true, false, ◌≡◌, refl, arith, ltb, length, if◌then◌else◌,
}
use testofdumping.Dump.Types.{next, state}
use testofdumping.L2.Ports.{
  Machine, Lcores, enabled_ports, lcore_taken, find_lcore, give_port, assign_port, assign_loop,
  assign_ports,
}
use testofdumping.L2.Stats.{Arrival, slave_ports, packet_producers, silent}
use testofdumping.L2.Stats.Sums.{arrived, totals}
use testofdumping.L2.Stats.Polled.{all_polls, packet_producers-totals}

abbrev three : ℕ → Bool
three portid = ltb portid 3

abbrev arrival : Bool → Arrival
arrival answer = record {
  mbuf = record {
    tx_offload = 0;
    udata64 = 0;
    data_len = 3;
    pkt_len = 3;
    payload = 7 ∷ 8 ∷ 9 ∷ [];
  };
  sec = 1030;
  usec = 5;
  enqueued = answer;
}

-- Of the two cores that are enabled, the first polls two ports.
abbrev machine : Machine
machine = record { max_lcore = 3; lcore_enabled = λ id. ltb 0 id }

abbrev shared : Lcores
shared = state (assign_ports machine 2 three 3)

shared-next : assign_ports machine 2 three 3 ≡ next shared
unfolding assign_ports assign_loop assign_port give_port find_lcore lcore_taken enabled_ports
shared-next = refl

abbrev bursts : ℕ → List Arrival
bursts portid = if ltb portid 2 then arrival true ∷ arrival false ∷ [] else []

abbrev rounds : List (ℕ × (ℕ → List Arrival))
rounds = (1, bursts) ∷ (2, bursts) ∷ (1, bursts) ∷ []

packet_producers-totals_example :
    let t = packet_producers 0 shared.rx_port_list rounds silent in
    let came = arrived (all_polls (slave_ports 0 shared.rx_port_list) rounds) in
    ((totals three 4 t).total_packets_rx ≡ came % 2 ^ 64)
    × ((totals three 4 t).total_packets_tx ≡ 0)
    × ((totals three 4 t).total_packets_dropped ≡ 0)
    × (length t.queued + length t.refused ≡ came)
packet_producers-totals_example =
    packet_producers-totals three 4 machine 0 2 3 shared rounds shared-next (omega arith)
      (omega arith, (omega arith, (omega arith, tt)))

eight_came : arrived (all_polls (slave_ports 0 shared.rx_port_list) rounds) ≡ 8
unfolding assign_ports assign_loop assign_port give_port find_lcore lcore_taken enabled_ports
    slave_ports
eight_came = refl
