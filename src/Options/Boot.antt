-- ===== src/Options/Boot.antt =====
-- `main` of the dumpers, up to the loops of the two threads: what each check does with each answer.
use testofdumping.Prelude.{ℕ, List, [], ◌∷◌, All, Bool, true, false, not, if◌then◌else◌, ◌≡◌}
use testofdumping.Prelude.Int.{ℤ, pos, ltb_ℤ, eq_ℤ}
use testofdumping.Dump.Types.{
  Program, main_dump, main_icispcap, lat_dump, lat_src_dump, Text, Settings, Outcome, next, exit,
  fault, overrun_array, ◌>>=◌,
}
use testofdumping.Options.{Parsed, accepted, refused, overrun, parse_args}

-- What DPDK answers while a port is set up.
pub record PortAnswers : Type 0 where
  pub configure : ℤ  -- rte_eth_dev_configure
  pub rx_queue : ℤ  -- rte_eth_rx_queue_setup
  pub rx_stats : ℤ  -- rte_eth_dev_set_rx_queue_stats_mapping
  pub tx_queue : ℤ  -- rte_eth_tx_queue_setup
  pub started : ℤ  -- rte_eth_dev_start

-- What DPDK answers while the program starts.
pub record Boot : Type 0 where
  pub eal : ℤ  -- rte_eal_init
  pub lcores : ℤ  -- rte_lcore_count
  pub pci : ℤ  -- rte_eal_pci_probe
  pub pool_made : Bool  -- the pool is not NULL
  pub ring_made : Bool  -- the ring is not NULL
  pub ports : List PortAnswers  -- one for each of rte_eth_dev_count
  pub launched : Bool  -- rte_eal_mp_remote_launch returns 0

-- `FATAL_ERROR` under a condition.
abbrev pub fatal_if {ℓ} : {S : Type ℓ} → Bool → S → Outcome S
fatal_if failed s = if failed then exit 1 s else next s

-- src_lat refuses to start on other than two cores; src/ only says so.
unfoldable pub check_lcores : Program → Boot → Settings → Outcome Settings
check_lcores lat_dump b s = fatal_if (not (eq_ℤ b.lcores (pos 2))) s
check_lcores lat_src_dump b s = fatal_if (not (eq_ℤ b.lcores (pos 2))) s
check_lcores _ b s = next s

-- The result of `parse_args` is not kept: the test behind it is on `ret`, the number of cores.
unfoldable pub ignore_result : Boot → Parsed → Outcome Settings
ignore_result b (accepted s) = fatal_if (ltb_ℤ b.lcores (pos 0)) s
ignore_result b (refused s) = fatal_if (ltb_ℤ b.lcores (pos 0)) s
ignore_result b (overrun s) = fault overrun_array s

unfoldable pub parse_and_go_on :
    (atoi atol : Text → ℤ) → Program → Boot → List (ℕ × Text) → Settings → Outcome Settings
parse_and_go_on atoi atol p b options s = ignore_result b (parse_args atoi atol p options s)

-- Only src/ still probes the PCI bus, for old versions of DPDK.
unfoldable pub check_pci : Program → Boot → Settings → Outcome Settings
check_pci main_dump b s = fatal_if (ltb_ℤ b.pci (pos 0)) s
check_pci main_icispcap b s = fatal_if (ltb_ℤ b.pci (pos 0)) s
check_pci _ b s = next s

-- `init_port`. `rte_panic` aborts: the code is the one that a shell shows for SIGABRT.
unfoldable pub init_port : PortAnswers → Settings → Outcome Settings
init_port a s =
    (if ltb_ℤ a.configure (pos 0) then exit 134 s else next s)
    >>= fatal_if (ltb_ℤ a.rx_queue (pos 0))
    >>= fatal_if (ltb_ℤ a.rx_stats (pos 0))
    >>= fatal_if (ltb_ℤ a.tx_queue (pos 0))
    >>= fatal_if (ltb_ℤ a.started (pos 0))

unfoldable pub init_port_list : List PortAnswers → Settings → Outcome Settings
init_port_list [] s = next s
init_port_list (a ∷ rest) s = init_port a s >>= init_port_list rest

-- The loop over the ports, in the programs that set them up.
unfoldable pub init_ports : Program → Boot → Settings → Outcome Settings
init_ports main_dump b s = init_port_list b.ports s
init_ports main_icispcap b s = init_port_list b.ports s
init_ports _ b s = next s

-- From the first line of `main` to the call of the consumer: the settings that it runs with, or the
-- way in which the process ends before.
unfoldable pub boot :
    (atoi atol : Text → ℤ) → Program → Boot → List (ℕ × Text) → Settings → Outcome Settings
boot atoi atol p b options s =
    fatal_if (ltb_ℤ b.eal (pos 0)) s
    >>= check_lcores p b
    >>= parse_and_go_on atoi atol p b options
    >>= check_pci p b
    >>= fatal_if (not b.pool_made)
    >>= fatal_if (not b.ring_made)
    >>= init_ports p b
    >>= fatal_if (not b.launched)

-- A port whose every call succeeds.
pub record IsPortUp (a : PortAnswers) : Type 0 where
  pub configure : ltb_ℤ a.configure (pos 0) ≡ false
  pub rx_queue : ltb_ℤ a.rx_queue (pos 0) ≡ false
  pub rx_stats : ltb_ℤ a.rx_stats (pos 0) ≡ false
  pub tx_queue : ltb_ℤ a.tx_queue (pos 0) ≡ false
  pub started : ltb_ℤ a.started (pos 0) ≡ false

-- DPDK starts: every check of `main` passes.
pub record IsUp (b : Boot) : Type 0 where
  pub eal : ltb_ℤ b.eal (pos 0) ≡ false
  pub lcores : eq_ℤ b.lcores (pos 2) ≡ true
  pub pci : ltb_ℤ b.pci (pos 0) ≡ false
  pub pool_made : b.pool_made ≡ true
  pub ring_made : b.ring_made ≡ true
  pub ports : All IsPortUp b.ports
  pub launched : b.launched ≡ true
