-- ===== src/L2/Ports.antt =====
-- What main of src_lat/09Feb2016ICIS_pcap/main.c does with the ports: their pairing, and their
-- assignment to cores. RTE_MAX_ETHPORTS and RTE_MAX_LCORE belong to DPDK's configuration.
pub mod Pairs
pub mod Gather
pub mod Search
pub mod Cores
mod Tests
use testofdumping.Prelude.{
  ℕ, zero, suc, ◌+◌, ◌-◌, ◌%◌, ◌^◌, List, [], ◌∷◌, ◌++◌, Option, none, some, Bool, true, false,
  ◌||◌, not, ltb, ◌==◌, if◌then◌else◌, bit_and, length,
}
use testofdumping.Dump.Types.{Outcome, next, exit, ◌>>=◌}

-- An array as a function of the index, and a write to it.
abbrev pub set_at {ℓ} : {A : Type ℓ} → (ℕ → A) → ℕ → A → ℕ → A
set_at f i v k = if k == i then v else f k

-- `icis_enabled_port_mask & (1 << portid)`.
unfoldable pub port_enabled : ℕ → ℕ → Bool
port_enabled mask portid = not (bit_and mask (2 ^ portid) == 0)

-- `icis_dst_ports`, `last_port` and `nb_ports_in_mask`.
pub record Pairing : Type 0 where
  pub icis_dst_ports : ℕ → ℕ
  pub last_port : ℕ
  pub nb_ports_in_mask : ℕ

abbrev pub unpaired : Pairing
unpaired = record { icis_dst_ports = λ portid. 0; last_port = 0; nb_ports_in_mask = 0 }

-- The body of the loop for an enabled port.
unfoldable pub pair_port : ℕ → Pairing → Pairing
pair_port portid s =
    if s.nb_ports_in_mask % 2 == 0
    then record s { last_port = portid; nb_ports_in_mask = s.nb_ports_in_mask + 1 }
    else record s {
      icis_dst_ports = set_at (set_at s.icis_dst_ports portid s.last_port) s.last_port portid;
      nb_ports_in_mask = s.nb_ports_in_mask + 1;
    }

unfoldable pub visit_port : (ℕ → Bool) → ℕ → Pairing → Pairing
visit_port enabled portid s = if enabled portid then pair_port portid s else s

-- The loop, with the rounds left and the port that is next.
unfoldable pub pair_loop : (ℕ → Bool) → ℕ → ℕ → Pairing → Pairing
pair_loop enabled zero portid s = s
pair_loop enabled (suc n) portid s = pair_loop enabled n (portid + 1) (visit_port enabled portid s)

-- The port that is left over sends to itself.
unfoldable pub pair_last : Pairing → Pairing
pair_last s =
    if s.nb_ports_in_mask % 2 == 0
    then s
    else record s { icis_dst_ports = set_at s.icis_dst_ports s.last_port s.last_port }

unfoldable pub pair_ports : (ℕ → Bool) → ℕ → Pairing
pair_ports enabled nb_ports = pair_last (pair_loop enabled nb_ports 0 unpaired)

-- `rx_lcore_id`, and for each core its `rx_port_list`, whose length is `n_rx_port`.
pub record Lcores : Type 0 where
  pub rx_lcore_id : ℕ
  pub rx_port_list : ℕ → List ℕ

-- DPDK's part: RTE_MAX_LCORE, and `rte_lcore_is_enabled`.
pub record Machine : Type 0 where
  pub max_lcore : ℕ
  pub lcore_enabled : ℕ → Bool

-- The condition of the `while` loop.
unfoldable pub lcore_taken : Machine → ℕ → Lcores → ℕ → Bool
lcore_taken m per_lcore s id = not (m.lcore_enabled id) || (length (s.rx_port_list id) == per_lcore)

-- The `while` loop: the first core from `id` on that is free, with the cores that are left.
unfoldable pub find_lcore : Machine → ℕ → Lcores → ℕ → ℕ → Option ℕ
find_lcore m per_lcore s zero id = none
find_lcore m per_lcore s (suc left) id =
    let rest = find_lcore m per_lcore s left (id + 1) in
    if lcore_taken m per_lcore s id then rest else some id

unfoldable pub give_port : ℕ → Option ℕ → Lcores → Outcome Lcores
give_port portid none s = exit 1 s
give_port portid (some id) s = next (record {
  rx_lcore_id = id;
  rx_port_list = set_at s.rx_port_list id (s.rx_port_list id ++ portid ∷ []);
})

-- The body of the loop that assigns the ports, for an enabled port.
unfoldable pub assign_port : Machine → ℕ → ℕ → Lcores → Outcome Lcores
assign_port m per_lcore portid s =
    give_port portid (find_lcore m per_lcore s (m.max_lcore - s.rx_lcore_id) s.rx_lcore_id) s

-- The enabled ports from `portid` on, over so many.
unfoldable pub enabled_ports : (ℕ → Bool) → ℕ → ℕ → List ℕ
enabled_ports enabled zero portid = []
enabled_ports enabled (suc n) portid =
    let rest = enabled_ports enabled n (portid + 1) in
    if enabled portid then portid ∷ rest else rest

-- The loop, over the enabled ports.
unfoldable pub assign_loop : Machine → ℕ → List ℕ → Lcores → Outcome Lcores
assign_loop m per_lcore [] s = next s
assign_loop m per_lcore (portid ∷ ports) s =
    assign_port m per_lcore portid s >>= assign_loop m per_lcore ports

abbrev pub unassigned : Lcores
unassigned = record { rx_lcore_id = 0; rx_port_list = λ id. [] }

unfoldable pub assign_ports : Machine → ℕ → (ℕ → Bool) → ℕ → Outcome Lcores
assign_ports m per_lcore enabled nb_ports =
    assign_loop m per_lcore (enabled_ports enabled nb_ports 0) unassigned
