-- ===== src/L2.antt =====
-- The command line of src_lat/09Feb2016ICIS_pcap/main.c: icis_parse_args and its three parsers.
-- strtoul and strtol belong to the C library and are parameters: each gives the number that it
-- reads in a base, and whether it read the text to its end.
pub mod Portmask
pub mod Timer
pub mod Ports
pub mod Links
pub mod Stats
pub mod Main
mod Tests
use testofdumping.Prelude.{
  ℕ, ◌+◌, ◌-◌, ◌*◌, ◌%◌, ◌^◌, List, [], ◌∷◌, Bool, true, false, ◌||◌, not, ltb, leb, ◌==◌,
  if◌then◌else◌, length, Option, none, some,
}
use testofdumping.Prelude.Int.{ℤ, pos, negsuc, to_u64, ltb_ℤ}
use testofdumping.Dump.Types.{lat_dump, Text, Settings}
use testofdumping.Options.{Parsed, accepted, refused, overrun, set_option}

-- What the options set.
pub record IcisSettings : Type 0 where
  pub common : Settings
  pub icis_enabled_port_mask : ℕ
  pub icis_rx_queue_per_lcore : ℕ
  pub timer_period : ℤ

-- An option is accepted, refused, or its handling is undefined.
pub data IcisParsed : Type 0 where
  taken : IcisSettings → IcisParsed
  turned_down : IcisSettings → IcisParsed
  undefined : IcisSettings → IcisParsed

-- The conversion of a `long` to `int`.
unfoldable pub to_s32 : ℤ → ℤ
to_s32 z = let w = to_u64 z % 2 ^ 32 in if ltb w (2 ^ 31) then pos w else negsuc (2 ^ 32 - 1 - w)

-- An `int` times 1000 times TIMER_MILLISECOND. The first product is one of `int`, which overflows
-- below; the second is one of 64 bits.
unfoldable pub period_of : ℤ → Option ℤ
period_of (pos n) = if leb n 2147483 then some (pos (n * 2000000000)) else none
period_of (negsuc n) = if ltb n 2147483 then some (negsuc ((n + 1) * 2000000000 - 1)) else none

-- -1, as `uint32_t` keeps it.
abbrev pub all_ports : ℕ
all_ports = 2 ^ 32 - 1

-- The tests on `portmask[0]` and on `*end`.
unfoldable pub is_number : Text → Bool → Bool
is_number text to_end = if length text == 0 then false else to_end

-- The other options are those of the dumpers, without -i.
unfoldable pub set_common : Parsed → IcisSettings → IcisParsed
set_common (accepted c) s = taken (record s { common = c })
set_common (refused c) s = turned_down (record s { common = c })
set_common (overrun c) s = undefined (record s { common = c })

unfoldable pub set_portmask : ℕ → IcisSettings → IcisParsed
set_portmask mask s =
    let s' = record s { icis_enabled_port_mask = mask } in
    if mask == 0 then turned_down s' else taken s'

unfoldable pub set_nqueue : ℕ → IcisSettings → IcisParsed
set_nqueue n s =
    let s' = record s { icis_rx_queue_per_lcore = n } in if n == 0 then turned_down s' else taken s'

unfoldable pub set_timer : Option ℤ → IcisSettings → IcisParsed
set_timer none s = undefined s
set_timer (some period) s =
    let s' = record s { timer_period = period } in
    if ltb_ℤ period (pos 0) then turned_down s' else taken s'

module _ (strtoul : Text → ℕ → ℕ × Bool) (strtol : Text → ℕ → ℤ × Bool) (atoi atol : Text → ℤ) where
  unfoldable pub icis_parse_portmask : Text → ℕ
  icis_parse_portmask text =
      let (pm, to_end) = strtoul text 16 in
      if is_number text to_end then if pm == 0 then all_ports else pm % 2 ^ 32 else all_ports

  unfoldable pub icis_parse_nqueue : Text → ℕ
  icis_parse_nqueue text =
      let (n, to_end) = strtoul text 10 in
      if is_number text to_end then if leb 16 n then 0 else n else 0

  unfoldable pub icis_parse_timer_period : Text → ℤ
  icis_parse_timer_period text =
      let (z, to_end) = strtol text 10 in
      let n = to_s32 z in
      if is_number text to_end then if ltb_ℤ n (pos 86400) then n else negsuc 0 else negsuc 0

  -- The `switch`.
  unfoldable pub set_icis_option : ℕ → Text → IcisSettings → IcisParsed
  set_icis_option option optarg s =
      if option == b'p'
      then set_portmask (icis_parse_portmask optarg) s
      else if option == b'q'
      then set_nqueue (icis_parse_nqueue optarg) s
      else if option == b'T'
      then set_timer (period_of (icis_parse_timer_period optarg)) s
      else if option == b'i'
      then turned_down s
      else set_common (set_option atoi atol lat_dump option optarg s.common) s

  -- The `while` loop of icis_parse_args. No setting is checked behind it.
  unfoldable pub icis_parse_args : List (ℕ × Text) → IcisSettings → IcisParsed
  icis_parse_args [] s = taken s
  icis_parse_args ((option, optarg) ∷ rest) s = elim (set_icis_option option optarg s) [
    | taken s' ↦ icis_parse_args rest s'
    | turned_down s' ↦ turned_down s'
    | undefined s' ↦ undefined s'
  ]
