-- ===== src/Options.antt =====
-- The command line of the dumpers: `parse_args`, `isPowerOfTwo`, and `main` up to the consumer.
-- getopt, atoi and atol belong to the C library: the options arrive as getopt returns them, and
-- the two conversions are parameters. src_lat/09Feb2016ICIS_pcap/main.c parses its own options.
pub mod Power
pub mod Accepted
pub mod Boot
pub mod Missing
mod Tests
use testofdumping.Prelude.{
  ℕ, ◌-◌, List, [], ◌∷◌, Option, none, some, Bool, true, false, ◌&&◌, ◌||◌, not, ltb, ◌==◌,
  if◌then◌else◌, bit_and, length,
}
use testofdumping.Prelude.Int.{ℤ, to_u64, to_u32}
use testofdumping.Dump.Types.{
  Program, main_dump, main_icispcap, lat_dump, lat_src_dump, l2_main, Text, Settings,
}

-- `isPowerOfTwo`, of an `unsigned int`.
unfoldable pub is_power_of_two : ℕ → Bool
is_power_of_two x = not (x == 0) && (bit_and x (x - 1) == 0)

-- 0, -1, or an option's text that overran the array it was copied to. A refusal leaves the globals
-- as the options before it set them.
pub data Parsed : Type 0 where
  accepted refused : Settings → Parsed
  overrun : Settings → Parsed

-- IFSZ and FLTRSZ.
abbrev pub ifsz : ℕ
ifsz = 16

abbrev pub fltrsz : ℕ
fltrsz = 120

-- Whether the option string of the program names -i and -f, and -b.
unfoldable pub has_filter : Program → Bool
has_filter main_icispcap = false
has_filter _ = true

unfoldable pub has_buflen : Program → Bool
has_buflen lat_dump = true
has_buflen lat_src_dump = true
has_buflen _ = false

-- `file_name == NULL`, denied.
unfoldable pub has_name : Option Text → Bool
has_name none = false
has_name (some name) = true

-- The last check.
unfoldable pub check_settings : Settings → Parsed
check_settings s =
    if has_name s.file_name && is_power_of_two (to_u32 s.buffer_size) then accepted s else refused s

module _ (atoi atol : Text → ℤ) where
  -- The `switch` for one option and its argument.
  unfoldable pub set_option : Program → ℕ → Text → Settings → Parsed
  set_option p option optarg s =
      if option == b'w'
      then accepted (record s { file_name = some optarg })
      else if option == b'c'
      then accepted (record s { max_packets = to_u64 (atol optarg) })
      else if option == b'B'
      then accepted (record s { buffer_size = to_u64 (atoi optarg) })
      else if option == b'G'
      then accepted (record s { seconds_rotation = to_u64 (atoi optarg) })
      else if option == b'W'
      then accepted (record s { max_rotations = atoi optarg })
      else if option == b'C'
      then accepted (record s { max_size = to_u64 (atoi optarg) })
      else if option == b'S'
      then accepted (record s { snaplen = atoi optarg })
      else if (option == b'i') && has_filter p
      then if ltb (length optarg) ifsz
        then accepted (record s { interface_name = optarg })
        else overrun s
      else if (option == b'f') && has_filter p
      then if ltb (length optarg) fltrsz
        then accepted (record s { filter_str = optarg })
        else overrun s
      else if (option == b'b') && has_buflen p
      then accepted (record s { buflen = to_u64 (atoi optarg) })
      else refused s

  -- The `while` loop.
  unfoldable pub set_options : Program → List (ℕ × Text) → Settings → Parsed
  set_options p [] s = accepted s
  set_options p ((option, optarg) ∷ rest) s = elim (set_option p option optarg s) [
    | accepted s' ↦ set_options p rest s'
    | refused s' ↦ refused s'
    | overrun s' ↦ overrun s'
  ]

  unfoldable pub parse_args : Program → List (ℕ × Text) → Settings → Parsed
  parse_args p options s = elim (set_options p options s) [
    | accepted s' ↦ check_settings s'
    | refused s' ↦ refused s'
    | overrun s' ↦ overrun s'
  ]
