-- ===== src/Options/Tests.antt =====
-- Command lines at which the conditions of the theorems hold.
use testofdumping.Prelude.{
  ℕ, List, [], ◌∷◌, none, some, true, false, ◌≡◌, ◌≢◌, ◌↔◌, ◌⊎◌, refl, arith, All,
}
use testofdumping.Prelude.Int.{ℤ, pos, negsuc}
use testofdumping.Dump.Types.{
  lat_dump, l2_main, Text, Settings, Env, Mbuf, codes, next, fault, exit, ready_suffix, null_name,
  overrun_array,
}
use testofdumping.Dump.Consumer.{consumer, blank}
use testofdumping.Options.{accepted, set_options, parse_args}
use testofdumping.Options.Accepted.{IsUsable, IsGood, settings_made, parse_args_accepts}
use testofdumping.Options.Boot.{Boot, boot}
use testofdumping.Options.Missing.{missing_name_faults}

-- A conversion that reads every text as 64.
abbrev sixty_four : Text → ℤ
sixty_four text = pos 64

abbrev defaults : Settings
defaults = record {
  file_name = none;
  max_packets = 0;
  buffer_size = 1048576;
  seconds_rotation = 0;
  max_rotations = negsuc 0;
  max_size = 0;
  snaplen = pos 65535;
  interface_name = [];
  filter_str = [];
  buflen = 0;
}

abbrev up : Boot
up = record {
  eal = pos 4;
  lcores = pos 2;
  pci = pos 0;
  pool_made = true;
  ring_made = true;
  ports = [];
  launched = true;
}

lat_dump-ne : lat_dump ≢ l2_main
lat_dump-ne e = cc

abbrev named : List (ℕ × Text)
named = (b'w', codes "cap") ∷ (b'B', codes "64") ∷ []

abbrev parsed : Settings
parsed = record defaults { file_name = some (codes "cap"); buffer_size = 64 }

parse_args_accepts_example :
    (parse_args sixty_four sixty_four lat_dump named defaults ≡ accepted parsed) ↔ (
      All (IsGood lat_dump) named
      × (settings_made (set_options sixty_four sixty_four lat_dump named defaults) ≡ parsed)
      × IsUsable parsed)
parse_args_accepts_example =
    parse_args_accepts sixty_four sixty_four lat_dump named defaults parsed lat_dump-ne

abbrev unnamed : List (ℕ × Text)
unnamed = (b'B', codes "64") ∷ []

unnamed_lem : All (λ o. o.0 ≢ b'w') unnamed
unnamed_lem = (λ e. absurd (omega (arith, e)), tt)

missing_name_faults_example :
    (t : Settings) × ((boot sixty_four sixty_four lat_dump up unnamed defaults ≡ next t)
      ⊎ (boot sixty_four sixty_four lat_dump up unnamed defaults ≡ fault overrun_array t))
    × ((env : Env) (now : ℕ) (ms : List (Env × Mbuf))
        → (consumer lat_dump t env now ms ≡ fault null_name blank)
          ⊎ ((ready_suffix lat_dump ≢ none)
              × (env.clock_ok ≡ false)
              × (consumer lat_dump t env now ms ≡ exit 1 blank)))
missing_name_faults_example =
    missing_name_faults sixty_four sixty_four lat_dump up unnamed defaults lat_dump-ne
      (record {
        eal = refl;
        lcores = refl;
        pci = refl;
        pool_made = refl;
        ring_made = refl;
        ports = tt;
        launched = refl;
      })
      unnamed_lem refl
