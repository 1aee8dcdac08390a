-- ===== src/Options/Accepted.antt =====
-- Which settings `parse_args` accepts.
use testofdumping.Prelude.{
  ℕ, ◌^◌, List, [], ◌∷◌, Option, none, some, true, ◌≡◌, ◌≢◌, ◌↔◌, ◌⊎◌, ◌<◌, All, length, arith, inl,
  inr, refl, subst, ◌∙◌, ap, Bool-cases,
}
use testofdumping.Prelude.Int.{ℤ, to_u32}
use testofdumping.Dump.Types.{
  Program, main_icispcap, lat_dump, lat_src_dump, l2_main, Text, Settings,
}
use testofdumping.Options.{
  Parsed, accepted, refused, overrun, set_option, set_options, has_filter, has_buflen,
  check_settings, parse_args, is_power_of_two, has_name,
}
use testofdumping.Options.Power.{is_power_of_two_iff}

-- A file name, and a buffer size whose low 32 bits are a power of two.
abbrev pub IsUsable : Settings → Type 0
IsUsable s =
    ((name : Text) × (s.file_name ≡ some name)) × ((k : ℕ) × (to_u32 s.buffer_size ≡ 2 ^ k))

has_name_iff : (o : Option Text) → (has_name o ≡ true) ↔ ((name : Text) × (o ≡ some name))
unfolding has_name
has_name_iff none = (λ e. cc, λ x. cc (x.1))
has_name_iff (some name) = (λ e. (name, refl), λ x. refl)

check_settings-accepted : (s t : Settings) → check_settings s ≡ accepted t → (s ≡ t) × IsUsable t
unfolding check_settings
check_settings-accepted s t e = elim (Bool-cases (has_name s.file_name)) [
  | inr no_name ↦ cc (rw no_name at e)
  | inl name ↦ elim (Bool-cases (is_power_of_two (to_u32 s.buffer_size))) [
    | inr odd ↦ cc (rw (name, odd) at e)
    | inl power ↦
        let same : s ≡ t = cc (rw (name, power) at e) in
        (
          same,
          subst IsUsable same ((has_name_iff s.file_name).0 name, (is_power_of_two_iff _).0 power),
        )
  ]
]

usable-accepted : (s : Settings) → IsUsable s → check_settings s ≡ accepted s
unfolding check_settings
usable-accepted s u =
    rw ((has_name_iff s.file_name).1 u.0, (is_power_of_two_iff (to_u32 s.buffer_size)).1 u.1)

-- An option of the program, with a text that fits where it is copied to.
abbrev pub IsGood : Program → ℕ × Text → Type 0
IsGood p (option, optarg) =
    (option ≡ b'w')
    ⊎ (option ≡ b'c')
    ⊎ (option ≡ b'B')
    ⊎ (option ≡ b'G')
    ⊎ (option ≡ b'W')
    ⊎ (option ≡ b'C')
    ⊎ (option ≡ b'S')
    ⊎ ((option ≡ b'i') × (p ≢ main_icispcap) × (length optarg < 16))
    ⊎ ((option ≡ b'f') × (p ≢ main_icispcap) × (length optarg < 120))
    ⊎ ((option ≡ b'b') × ((p ≡ lat_dump) ⊎ (p ≡ lat_src_dump)))

-- The settings that a run of the options has made.
abbrev pub settings_made : Parsed → Settings
settings_made (accepted s) = s
settings_made (refused s) = s
settings_made (overrun s) = s

module _ (atoi atol : Text → ℤ) where
  IsGood-set_option :
      (p : Program) (o : ℕ × Text) (s : Settings)
      → IsGood p o
      → set_option atoi atol p o.0 o.1 s
        ≡ accepted (settings_made (set_option atoi atol p o.0 o.1 s))
  unfolding set_option has_filter has_buflen
  IsGood-set_option p o s g = ground arith

  set_option-IsGood :
      (p : Program) (o : ℕ × Text) (s s' : Settings)
      → p ≢ l2_main
      → set_option atoi atol p o.0 o.1 s ≡ accepted s'
      → IsGood p o
  unfolding set_option has_filter has_buflen
  set_option-IsGood p o s s' parses e = ground arith

  IsGood-set_options :
      (p : Program) (options : List (ℕ × Text)) (s : Settings)
      → All (IsGood p) options
      → set_options atoi atol p options s
        ≡ accepted (settings_made (set_options atoi atol p options s))
  unfolding set_options
  IsGood-set_options p [] s g = refl
  IsGood-set_options p ((option, optarg) ∷ rest) s g =
      rw (set_options, IsGood-set_option p (option, optarg) s g.0)
        (IsGood-set_options p rest (settings_made (set_option atoi atol p option optarg s)) g.1)

  set_options-IsGood :
      (p : Program) (options : List (ℕ × Text)) (s t : Settings)
      → p ≢ l2_main
      → set_options atoi atol p options s ≡ accepted t
      → All (IsGood p) options
  unfolding set_options
  set_options-IsGood p [] s t parses e = tt
  set_options-IsGood p ((option, optarg) ∷ rest) s t parses e =
      go (set_option atoi atol p option optarg s) refl
        (λ s' h. set_options-IsGood p rest s' t parses h)
    where
      go :
          (r : Parsed)
          → set_option atoi atol p option optarg s ≡ r
          → ((s' : Settings) → set_options atoi atol p rest s' ≡ accepted t → All (IsGood p) rest)
          → All (IsGood p) ((option, optarg) ∷ rest)
      go (accepted s') q ih =
          let rest_accepted : set_options atoi atol p rest s' ≡ accepted t =
            rw (set_options, q) at e in
          (set_option-IsGood p (option, optarg) s s' parses q, ih s' rest_accepted)
      go (refused s') q ih = cc (rw (set_options, q) at e)
      go (overrun s') q ih = cc (rw (set_options, q) at e)

  -- In the four programs with this parser, for any conversions of numbers: `parse_args` returns 0
  -- with the settings t exactly when every option is one of -w, -c, -B, -G, -W, -C and -S, or,
  -- but for icispcap, -i with fewer than 16 characters or -f with fewer than 120, or, in the two
  -- programs under src_lat, -b; when t is what the loop over the options has made of the settings;
  -- and when t has a file name, and a buffer size whose low 32 bits are a power of two.
  pub parse_args_accepts :
      (p : Program) (options : List (ℕ × Text)) (s t : Settings)
      → p ≢ l2_main
      → (parse_args atoi atol p options s ≡ accepted t) ↔ (
          All (IsGood p) options
          × (settings_made (set_options atoi atol p options s) ≡ t)
          × IsUsable t)
  unfolding parse_args
  parse_args_accepts p options s t parses = (
    forth (set_options atoi atol p options s) refl,
    λ (good, e, u).
        rw (IsGood-set_options p options s good ∙ ap accepted e, parse_args) (usable-accepted t u),
  )
    where
      forth :
          (r : Parsed)
          → set_options atoi atol p options s ≡ r
          → parse_args atoi atol p options s ≡ accepted t
          → All (IsGood p) options
            × (settings_made (set_options atoi atol p options s) ≡ t)
            × IsUsable t
      forth (accepted s') e h =
          let (same, u) = check_settings-accepted s' t (rw (e, parse_args) at h) in
          (set_options-IsGood p options s s' parses e, ap settings_made e ∙ same, u)
      forth (refused s') e h = cc (rw (e, parse_args) at h)
      forth (overrun s') e h = cc (rw (e, parse_args) at h)
