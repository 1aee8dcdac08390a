-- ===== src/L2/Main.antt =====
-- `main` of src_lat/09Feb2016ICIS_pcap/main.c up to the threads.
pub mod Launch
pub mod Bounds
mod Tests
use testofdumping.Prelude.{
  ℕ, ◌-◌, ◌<◌, List, [], ◌∷◌, Bool, true, false, not, ltb, ◌==◌, if◌then◌else◌, length, All,
}
use testofdumping.Prelude.Int.{ℤ, pos, ltb_ℤ}
use testofdumping.Dump.Types.{Text, Outcome, next, exit, fault, overrun_array, ◌>>=◌}
use testofdumping.Options.Boot.{fatal_if}
use testofdumping.L2.{IcisSettings, IcisParsed, taken, turned_down, undefined, icis_parse_args}
use testofdumping.L2.Ports.{Machine, Lcores, port_enabled, enabled_ports, assign_ports}

-- What DPDK answers while a port is set up.
pub record PortSetup : Type 0 where
  pub configure : ℤ  -- rte_eth_dev_configure
  pub rx_queue : ℤ  -- rte_eth_rx_queue_setup
  pub tx_queue : ℤ  -- rte_eth_tx_queue_setup
  pub started : ℤ  -- rte_eth_dev_start

-- What DPDK answers while the program starts, with its RTE_MAX_ETHPORTS.
pub record IcisBoot : Type 0 where
  pub eal : ℤ  -- rte_eal_init
  pub pool_made : Bool  -- the pool is not NULL
  pub ring_made : Bool  -- the ring is not NULL
  pub dev_count : ℕ  -- rte_eth_dev_count
  pub max_ethports : ℕ
  pub machine : Machine
  pub port : ℕ → PortSetup

-- `icis_parse_args`, a negative result of which ends the process.
unfoldable pub parsed_args : IcisParsed → Outcome IcisSettings
parsed_args (taken s) = next s
parsed_args (turned_down s) = exit 1 s
parsed_args (undefined s) = fault overrun_array s

-- `nb_ports`.
unfoldable pub nb_ports : IcisBoot → ℕ
nb_ports b = if ltb b.max_ethports b.dev_count then b.max_ethports else b.dev_count

unfoldable pub ports_in_use : IcisBoot → IcisSettings → List ℕ
ports_in_use b s = enabled_ports (port_enabled s.icis_enabled_port_mask) (nb_ports b) 0

-- The assignment of ports to cores, of which only the failure shows here.
unfoldable pub assigned : Outcome Lcores → IcisSettings → Outcome IcisSettings
assigned (next l) s = next s
assigned (exit code l) s = exit code s
assigned (fault why l) s = fault why s

unfoldable pub assign_all : IcisBoot → IcisSettings → Outcome IcisSettings
assign_all b s =
    assigned
      (assign_ports b.machine s.icis_rx_queue_per_lcore (port_enabled s.icis_enabled_port_mask)
        (nb_ports b))
      s

-- The body of the loop that initialises the ports, for an enabled port.
unfoldable pub setup_port : PortSetup → IcisSettings → Outcome IcisSettings
setup_port a s =
    fatal_if (ltb_ℤ a.configure (pos 0)) s
    >>= fatal_if (ltb_ℤ a.rx_queue (pos 0))
    >>= fatal_if (ltb_ℤ a.tx_queue (pos 0))
    >>= fatal_if (ltb_ℤ a.started (pos 0))

unfoldable pub setup_ports : (ℕ → PortSetup) → List ℕ → IcisSettings → Outcome IcisSettings
setup_ports port [] s = next s
setup_ports port (portid ∷ rest) s = setup_port (port portid) s >>= setup_ports port rest

unfoldable pub setup_all : IcisBoot → IcisSettings → Outcome IcisSettings
setup_all b s = setup_ports b.port (ports_in_use b s) s

-- `nb_ports_available`, counted down from `nb_ports`, is the number of enabled ports.
unfoldable pub any_available : IcisBoot → IcisSettings → Outcome IcisSettings
any_available b s = fatal_if (length (ports_in_use b s) == 0) s

-- Up to the wait for the links, with the settings that the threads then run with.
unfoldable pub main : IcisBoot → IcisParsed → IcisSettings → Outcome IcisSettings
main b parsed s =
    fatal_if (ltb_ℤ b.eal (pos 0)) s
    >>= (λ _. parsed_args parsed)
    >>= fatal_if (not b.pool_made)
    >>= fatal_if (not b.ring_made)
    >>= fatal_if (b.dev_count == 0)
    >>= assign_all b
    >>= setup_all b
    >>= any_available b
