-- ===== src/L2/Tests.antt =====
-- Options at which the conditions of the theorems hold.
use testofdumping.Prelude.{ℕ, ◌*◌, ◌<◌, [], none, Bool, true, false, ◌≡◌, ◌↔◌, inl, inr, refl}
use testofdumping.Prelude.Int.{ℤ, pos, negsuc}
use testofdumping.Dump.Types.{Text, codes}
use testofdumping.L2.{IcisSettings, taken, all_ports, is_number, to_s32, set_icis_option}
use testofdumping.L2.Portmask.{no_mask_enables_all}
use testofdumping.L2.Timer.{timer_accepts}

-- Conversions that stop before the end and read 0, and that read every text as 60.
abbrev stops : Text → ℕ → ℕ × Bool
stops text base = (0, false)

abbrev sixty : Text → ℕ → ℤ × Bool
sixty text base = (pos 60, true)

abbrev sixty_int : Text → ℤ
sixty_int text = pos 60

abbrev defaults : IcisSettings
defaults = record {
  common = record {
    file_name = none;
    max_packets = 0;
    buffer_size = 8192;
    seconds_rotation = 0;
    max_rotations = negsuc 0;
    max_size = 0;
    snaplen = pos 65535;
    interface_name = [];
    filter_str = [];
    buflen = 2097152;
  };
  icis_enabled_port_mask = 0;
  icis_rx_queue_per_lcore = 1;
  timer_period = pos 20000000000;
}

no_mask_enables_all_example :
    set_icis_option stops sixty sixty_int sixty_int b'p' (codes "ports") defaults
    ≡ taken (record defaults { icis_enabled_port_mask = all_ports })
no_mask_enables_all_example =
    no_mask_enables_all stops sixty sixty_int sixty_int (codes "ports") defaults (inr (inl refl))

abbrev timed : IcisSettings
timed = record defaults { timer_period = pos 120000000000 }

timer_accepts_example :
    (set_icis_option stops sixty sixty_int sixty_int b'T' (codes "60") defaults ≡ taken timed) ↔ (
      (is_number (codes "60") true ≡ true)
      × (k : ℕ) × (k < 86400)
      × (to_s32 (pos 60) ≡ pos k)
      × (timed ≡ record defaults { timer_period = pos (k * 2000000000) }))
timer_accepts_example = timer_accepts stops sixty sixty_int sixty_int (codes "60") defaults timed
