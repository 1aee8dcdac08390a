-- ===== src/L2/Stats.antt =====
-- The polling loop of src_lat/09Feb2016ICIS_pcap/main.c, `packet_producer`, and the statistics that
-- `print_stats` adds up.
pub mod Sums
pub mod Polled
mod Tests
use testofdumping.Prelude.{
  ℕ, zero, suc, ◌+◌, ◌%◌, ◌^◌, List, [], ◌∷◌, ◌++◌, Bool, true, false, ◌==◌, if◌then◌else◌, length,
}
use testofdumping.Dump.Types.{Mbuf}
use testofdumping.L2.Ports.{set_at}

-- `struct icis_port_statistics`.
pub record PortStatistics : Type 0 where
  pub tx : ℕ
  pub rx : ℕ
  pub dropped : ℕ

-- `port_statistics`; what was put on the ring, and what the ring refused.
pub record Traffic : Type 0 where
  pub port_statistics : ℕ → PortStatistics
  pub queued : List Mbuf
  pub refused : List Mbuf

-- A packet of a burst, with the time that gettimeofday gives and the ring's answer.
pub record Arrival : Type 0 where
  pub mbuf : Mbuf
  pub sec : ℕ
  pub usec : ℕ
  pub enqueued : Bool

-- The packet with its time in the fields that the writing thread reads.
unfoldable pub stamp : Arrival → Mbuf
stamp a = record (a.mbuf) { tx_offload = a.sec; udata64 = a.usec }

-- The inner loop over a burst. The ring's answer is not looked at.
unfoldable pub forward : List Arrival → Traffic → Traffic
forward [] t = t
forward (a ∷ rest) t = forward rest (
    if a.enqueued
    then record t { queued = t.queued ++ stamp a ∷ [] }
    else record t { refused = t.refused ++ stamp a ∷ [] })

unfoldable pub count_rx : ℕ → ℕ → Traffic → Traffic
count_rx portid nb_rx t =
    let st = t.port_statistics portid in
    record t {
      port_statistics =
          set_at t.port_statistics portid (record st { rx = (st.rx + nb_rx) % 2 ^ 64 });
    }

-- One port is polled.
unfoldable pub poll_port : ℕ → List Arrival → Traffic → Traffic
poll_port portid burst t = forward burst (count_rx portid (length burst) t)

-- The loops of all cores, one poll after another.
unfoldable pub poll_loop : List (ℕ × List Arrival) → Traffic → Traffic
poll_loop [] t = t
poll_loop ((portid, burst) ∷ rest) t = poll_loop rest (poll_port portid burst t)

-- One round of the `while` loop of a core, over its `rx_port_list`. A core without ports does not
-- enter the loop, and its rounds would do nothing.
unfoldable pub poll_ports : List ℕ → (ℕ → List Arrival) → Traffic → Traffic
poll_ports [] bursts t = t
poll_ports (portid ∷ ports) bursts t = poll_ports ports bursts (poll_port portid (bursts portid) t)

-- The ports that a core polls: `rte_eal_mp_remote_launch` with SKIP_MASTER starts no loop on the
-- master core, whose ports nobody polls.
unfoldable pub slave_ports : ℕ → (ℕ → List ℕ) → ℕ → List ℕ
slave_ports master rx_port_list lcore_id = if lcore_id == master then [] else rx_port_list lcore_id

-- `packet_producer` of all cores that `icis_launch_one_lcore` starts: the rounds in the order in
-- which they happen, each with its core and the burst at each port.
unfoldable pub packet_producers :
    ℕ → (ℕ → List ℕ) → List (ℕ × (ℕ → List Arrival)) → Traffic → Traffic
packet_producers master rx_port_list [] t = t
packet_producers master rx_port_list ((lcore_id, bursts) ∷ rounds) t =
    packet_producers master rx_port_list rounds
      (poll_ports (slave_ports master rx_port_list lcore_id) bursts t)

-- The three totals.
pub record Totals : Type 0 where
  pub total_packets_tx : ℕ
  pub total_packets_rx : ℕ
  pub total_packets_dropped : ℕ

-- The body of the loop in `print_stats` for an enabled port.
unfoldable pub add_port : PortStatistics → Totals → Totals
add_port st s = record {
  total_packets_tx = (s.total_packets_tx + st.tx) % 2 ^ 64;
  total_packets_rx = (s.total_packets_rx + st.rx) % 2 ^ 64;
  total_packets_dropped = (s.total_packets_dropped + st.dropped) % 2 ^ 64;
}

-- The loop, over the first so many ports.
unfoldable pub print_stats : (ℕ → Bool) → (ℕ → PortStatistics) → ℕ → Totals
print_stats enabled stats zero = record {
  total_packets_tx = 0;
  total_packets_rx = 0;
  total_packets_dropped = 0;
}
print_stats enabled stats (suc n) =
    let before = print_stats enabled stats n in
    if enabled n then add_port (stats n) before else before

-- Nothing counted or queued yet.
abbrev pub silent : Traffic
silent = record {
  port_statistics = λ portid. record { tx = 0; rx = 0; dropped = 0 };
  queued = [];
  refused = [];
}
