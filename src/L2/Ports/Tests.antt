-- ===== src/L2/Ports/Tests.antt =====
-- Ports and cores at which the conditions of the theorems hold.
use testofdumping.Prelude.{ℕ, ◌%◌, ◌≤◌, ◌<◌, true, ◌≡◌, ◌≢◌, [], ◌⊎◌, refl, arith, ltb, length}
use testofdumping.Dump.Types.{next, state}
use testofdumping.L2.Ports.{
  Lcores, Machine, port_enabled, pair_ports, enabled_ports, find_lcore, lcore_taken, give_port,
  assign_port, assign_loop, assign_ports,
}
use testofdumping.L2.Ports.Gather.{gather}
use testofdumping.L2.Ports.Pairs.{pair_ports_back}
use testofdumping.L2.Ports.Cores.{assign_ports_all}

-- Ports 0, 2 and 3.
abbrev mask : ℕ
mask = 13

port_on : port_enabled mask 2 ≡ true
unfolding port_enabled
port_on = refl

pair_ports_back_example :
    let t = pair_ports (port_enabled mask) 4 in
    (t.icis_dst_ports 2 < 4)
    × (port_enabled mask (t.icis_dst_ports 2) ≡ true)
    × (t.icis_dst_ports (t.icis_dst_ports 2) ≡ 2)
    × ((t.icis_dst_ports 2 ≢ 2) ⊎ ((t.nb_ports_in_mask % 2 ≡ 1) × (2 ≡ t.last_port)))
pair_ports_back_example = pair_ports_back (port_enabled mask) 4 2 (omega arith) port_on

-- Three cores, the first of which is not enabled.
abbrev machine : Machine
machine = record { max_lcore = 3; lcore_enabled = λ id. ltb 0 id }

abbrev shared : Lcores
shared = state (assign_ports machine 2 (port_enabled mask) 4)

goes_on : assign_ports machine 2 (port_enabled mask) 4 ≡ next shared
unfolding assign_ports assign_loop assign_port give_port find_lcore lcore_taken enabled_ports
    port_enabled
goes_on = refl

assign_ports_all_example :
    (gather 3 shared.rx_port_list ≡ enabled_ports (port_enabled mask) 4 0)
    × ((k : ℕ) → length (shared.rx_port_list k) ≤ 2)
    × ((k : ℕ) → (shared.rx_port_list k ≡ []) ⊎ (machine.lcore_enabled k ≡ true))
assign_ports_all_example = assign_ports_all machine 2 (port_enabled mask) 4 shared goes_on
