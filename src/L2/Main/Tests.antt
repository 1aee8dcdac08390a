-- ===== src/L2/Main/Tests.antt =====
-- A start at concrete answers.
use testofdumping.Prelude.{
  ℕ, ◌<◌, List, [], ◌∷◌, Bool, true, ◌≡◌, ◌↔◌, refl, ltb, none, length, arith,
}
use testofdumping.Prelude.Int.{ℤ, pos, negsuc}
use testofdumping.Dump.Types.{Text, codes, next}
use testofdumping.L2.{
  IcisSettings, taken, is_number, icis_parse_nqueue, set_nqueue, set_icis_option, icis_parse_args,
}
use testofdumping.L2.Ports.{
  Lcores, port_enabled, enabled_ports, lcore_taken, find_lcore, give_port, assign_port, assign_loop,
  assign_ports,
}
use testofdumping.L2.Ports.Gather.{gather}
use testofdumping.L2.Main.{
  IcisBoot, parsed_args, nb_ports, ports_in_use, assigned, assign_all, setup_port, setup_ports,
  setup_all, any_available, main,
}
use testofdumping.L2.Main.Launch.{CanLaunch, main_launches}
use testofdumping.L2.Main.Bounds.{max_rx_queue_per_lcore, rx_port_list_fits}

abbrev settings : IcisSettings
settings = record {
  common = record {
    file_name = none;
    max_packets = 0;
    buffer_size = 8192;
    seconds_rotation = 0;
    max_rotations = negsuc 0;
    max_size = 0;
    snaplen = pos 65535;
    interface_name = [];
    filter_str = [];
    buflen = 2097152;
  };
  icis_enabled_port_mask = 5;
  icis_rx_queue_per_lcore = 1;
  timer_period = pos 20000000000;
}

abbrev up : IcisBoot
up = record {
  eal = pos 4;
  pool_made = true;
  ring_made = true;
  dev_count = 3;
  max_ethports = 32;
  machine = record { max_lcore = 4; lcore_enabled = λ id. ltb 0 id };
  port =
      λ portid. record { configure = pos 0; rx_queue = pos 0; tx_queue = pos 0; started = pos 0 };
}

main_launches_example :
    (main up (taken settings) settings ≡ next settings)
    ↔ ((taken settings ≡ taken settings) × CanLaunch up settings)
main_launches_example = main_launches up (taken settings) settings settings

abbrev reads_two : Text → ℕ → ℕ × Bool
reads_two text base = (2, true)

abbrev reads_ten : Text → ℕ → ℤ × Bool
reads_ten text base = (pos 10, true)

abbrev ten : Text → ℤ
ten text = pos 10

abbrev two_each : IcisSettings
two_each = record settings { icis_rx_queue_per_lcore = 2 }

abbrev options : List (ℕ × Text)
options = (b'q', codes "2") ∷ []

launched :
    main up (icis_parse_args reads_two reads_ten ten ten options settings) settings ≡ next two_each
unfolding main icis_parse_args set_icis_option icis_parse_nqueue set_nqueue is_number parsed_args
    assign_all assigned assign_ports assign_loop assign_port give_port find_lcore lcore_taken
    setup_all setup_ports setup_port any_available ports_in_use nb_ports enabled_ports port_enabled
launched = refl

rx_port_list_fits_example :
    (l : Lcores) × (assign_ports up.machine 2 (port_enabled 5) (nb_ports up) ≡ next l)
    × (gather 4 l.rx_port_list ≡ ports_in_use up two_each)
    × ((k : ℕ) → length (l.rx_port_list k) < max_rx_queue_per_lcore)
rx_port_list_fits_example =
    rx_port_list_fits reads_two reads_ten ten ten up options settings two_each (omega arith)
      launched
