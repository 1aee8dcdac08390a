-- ===== src/Icispcap/Command.antt =====
-- main.cc: the options, and the two threads that main starts. getopt and atoi belong to the C
-- library: the options arrive as getopt returns them, and the conversion is a parameter.
pub mod Accepted
use testofdumping.Prelude.{
  ℕ, ◌%◌, ◌^◌, List, [], ◌∷◌, Option, none, some, Bool, true, false, ◌&&◌, not, ltb, ◌==◌,
  if◌then◌else◌, length,
}
use testofdumping.Prelude.Int.{ℤ, pos, to_u64}
use testofdumping.Dump.Types.{Text}
use testofdumping.Icispcap.Startup.{ReaderSettings}

-- IFSZ, FLTRSZ and SECINNANO.
abbrev pub ifsz : ℕ
ifsz = 16

abbrev pub fltrsz : ℕ
fltrsz = 120

abbrev pub secinnano : ℕ
secinnano = 1000000000

-- The members of the two objects that the options set.
pub record Members : Type 0 where
  pub reader : ReaderSettings
  pub m_filename : Text
  pub m_filerotate : Bool
  pub m_interval : ℕ

-- An option is taken, or a text overruns its array, or the filter, which is a format, asks for an
-- argument that is not there.
pub data Taken : Type 0 where
  taken overrun no_argument : Members → Taken

unfoldable pub with_front : ℕ → Option Text → Option Text
with_front x none = none
with_front x (some t) = some (x ∷ t)

-- `sprintf` of a text as its own format: behind a `%` only another stands for itself.
unfoldable pub format_from : Bool → Text → Option Text
format_from true [] = none
format_from false [] = some []
format_from pending (x ∷ xs) =
    let percent = x == b'%' in
    let rest = format_from (percent && not pending) xs in
    if percent
    then (if pending then with_front x rest else rest)
    else (if pending then none else with_front x rest)

unfoldable pub copy_filter : Option Text → Members → Taken
copy_filter none s = no_argument s
copy_filter (some text) s =
    if ltb (length text) fltrsz
    then taken (record s { reader = record (s.reader) { fliterstr = text } })
    else overrun s

module _ (atoi : Text → ℤ) where
  -- The `switch` for one option and its argument. A default argument of Setfilerotate is SECINNANO.
  unfoldable pub set_option : ℕ → Text → Members → Taken
  set_option opt optarg s =
      let long = ltb 1 (length optarg) in
      if opt == b'i'
      then if ltb (length optarg) ifsz
        then taken (record s { reader = record (s.reader) { m_interfacename = optarg } })
        else overrun s
      else if opt == b's'
      then taken (record s { reader = record (s.reader) { snaplen = atoi optarg } })
      else if opt == b'w'
      then taken (record s { m_filename = if long then optarg else s.m_filename })
      else if opt == b'f'
      then if long then copy_filter (format_from false optarg) s else taken s
      else if opt == b'R'
      then taken (record s {
        m_filerotate = true;
        m_interval = if long then to_u64 (atoi optarg) else secinnano;
      })
      else if opt == b'B'
      then if long
        then taken (record s {
          reader = record (s.reader) { m_bflag = true; m_buflen = to_u64 (atoi optarg) };
        })
        else taken s
      else taken s

  -- The `while` loop.
  unfoldable pub set_options : List (ℕ × Text) → Members → Taken
  set_options [] s = taken s
  set_options ((opt, optarg) ∷ rest) s = elim (set_option opt optarg s) [
    | taken s' ↦ set_options rest s'
    | overrun s' ↦ overrun s'
    | no_argument s' ↦ no_argument s'
  ]

-- What main does with the results of the two calls of pthread_create: its exit code where one fails.
unfoldable pub start_threads : Bool → Bool → Option ℕ
start_threads reader_fails writer_fails =
    if reader_fails then some 1 else if writer_fails then some 1 else none
