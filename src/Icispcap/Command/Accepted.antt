-- ===== src/Icispcap/Command/Accepted.antt =====
-- What the options of main.cc lead to.
use testofdumping.Prelude.{
  ℕ, ◌<◌, List, [], ◌∷◌, Option, none, some, Bool, true, false, ◌&&◌, ◌||◌, ltb, leb, ◌==◌, length,
  ◌≡◌, refl, ap, sym, subst, ◌∙◌, ==_iff, inl, inr, arith, Bool-cases, Option-cases,
}
use testofdumping.Prelude.Int.{ℤ}
use testofdumping.Dump.Types.{Text}
use testofdumping.Icispcap.Command.{
  ifsz, fltrsz, Members, Taken, taken, overrun, no_argument, format_from, copy_filter, set_option,
  set_options,
}

-- Whether an option of the list satisfies a test.
abbrev pub any_option : (ℕ → Text → Bool) → List (ℕ × Text) → Bool
any_option test [] = false
any_option test ((opt, optarg) ∷ rest) = test opt optarg || any_option test rest

-- -R; -B with an argument of more than one character.
abbrev pub rotates : ℕ → Text → Bool
rotates opt optarg = opt == b'R'

abbrev pub sizes_buffer : ℕ → Text → Bool
sizes_buffer opt optarg = (opt == b'B') && ltb 1 (length optarg)

abbrev pub filter_of : Option Text → Bool
filter_of none = false
filter_of (some text) = leb fltrsz (length text)

abbrev pub filter_bad : Option Text → Bool
filter_bad none = true
filter_bad (some text) = false

-- An interface of 16 characters or more, or a filter that is printed to 120 or more.
abbrev pub too_long : ℕ → Text → Bool
too_long opt optarg =
    ((opt == b'i') && leb ifsz (length optarg))
    || ((opt == b'f') && (ltb 1 (length optarg) && filter_of (format_from false optarg)))

-- A filter with a `%` that asks for an argument.
abbrev pub has_percent : ℕ → Text → Bool
has_percent opt optarg =
    (opt == b'f') && (ltb 1 (length optarg) && filter_bad (format_from false optarg))

-- The texts fit their arrays.
abbrev pub Fits : Members → Type 0
Fits s = (length s.reader.m_interfacename < ifsz) × (length s.reader.fliterstr < fltrsz)

-- How the options end, from these members.
abbrev pub Ends : List (ℕ × Text) → Members → Taken → Type 0
Ends options s (taken t) =
    Fits t
    × (any_option too_long options ≡ false)
    × (any_option has_percent options ≡ false)
    × (t.m_filerotate ≡ s.m_filerotate || any_option rotates options)
    × (t.reader.m_bflag ≡ s.reader.m_bflag || any_option sizes_buffer options)
Ends options s (overrun t) = any_option too_long options ≡ true
Ends options s (no_argument t) = any_option has_percent options ≡ true

or_false : (b : Bool) → b ≡ b || false
or_false true = refl
or_false false = refl

or_true : (b : Bool) → true ≡ b || true
or_true true = refl
or_true false = refl

or_assoc : (a b c : Bool) → (a || b) || c ≡ a || (b || c)
or_assoc true b c = refl
or_assoc false b c = refl

module _ (atoi : Text → ℤ) where
  -- One option.
  abbrev One : ℕ → Text → Members → Taken → Type 0
  One opt optarg s (taken t) =
      Fits t
      × (too_long opt optarg ≡ false)
      × (has_percent opt optarg ≡ false)
      × (t.m_filerotate ≡ s.m_filerotate || rotates opt optarg)
      × (t.reader.m_bflag ≡ s.reader.m_bflag || sizes_buffer opt optarg)
  One opt optarg s (overrun t) = too_long opt optarg ≡ true
  One opt optarg s (no_argument t) = has_percent opt optarg ≡ true

  case_i :
      (optarg : Text) (s : Members) → Fits s → One b'i' optarg s (set_option atoi b'i' optarg s)
  unfolding set_option
  case_i optarg s fits = elim (Bool-cases (ltb (length optarg) ifsz)) [
    | inl short ↦
        let fine : leb ifsz (length optarg) ≡ false = ground (arith, short) in
        let lt : length optarg < ifsz = ground (arith, short) in
        rw short ((lt, fits.1), rw fine, refl, or_false s.m_filerotate, or_false s.reader.m_bflag)
    | inr long ↦
        let over : leb ifsz (length optarg) ≡ true = ground (arith, long) in rw long (rw over)
  ]

  case_f :
      (optarg : Text) (s : Members) → Fits s → One b'f' optarg s (set_option atoi b'f' optarg s)
  unfolding set_option copy_filter
  case_f optarg s fits = elim (Bool-cases (ltb 1 (length optarg))) [
    | inr single ↦
        rw single (fits, rw single, rw single, or_false s.m_filerotate, or_false s.reader.m_bflag)
    | inl several ↦ elim (Option-cases (format_from false optarg)) [
      | inl bad ↦ rw (several, bad) (rw (several, bad))
      | inr (text, good) ↦ elim (Bool-cases (ltb (length text) fltrsz)) [
        | inl short ↦
            let fine : leb fltrsz (length text) ≡ false = ground (arith, short) in
            let lt : length text < fltrsz = ground (arith, short) in
            rw (several, good, short)
              (
                (fits.0, lt),
                rw (several, good, fine),
                rw (several, good),
                or_false s.m_filerotate,
                or_false s.reader.m_bflag,
              )
        | inr long ↦
            let over : leb fltrsz (length text) ≡ true = ground (arith, long) in
            rw (several, good, long) (rw (several, good, over))
      ]
    ]
  ]

  case_b :
      (optarg : Text) (s : Members) → Fits s → One b'B' optarg s (set_option atoi b'B' optarg s)
  unfolding set_option
  case_b optarg s fits = elim (Bool-cases (ltb 1 (length optarg))) [
    | inl several ↦
        rw several
          (fits, refl, refl, or_false s.m_filerotate, rw several (or_true s.reader.m_bflag))
    | inr single ↦
        rw single (fits, refl, refl, or_false s.m_filerotate, rw single (or_false s.reader.m_bflag))
  ]

  set_option-One :
      (opt : ℕ) (optarg : Text) (s : Members)
      → Fits s
      → One opt optarg s (set_option atoi opt optarg s)
  unfolding set_option
  set_option-One opt optarg s fits = elim (Bool-cases (opt == b'i')) [
    | inl e ↦ at b'i' e (case_i optarg s fits)
    | inr not_i ↦ elim (Bool-cases (opt == b'f')) [
      | inl e ↦ at b'f' e (case_f optarg s fits)
      | inr not_f ↦ elim (Bool-cases (opt == b'B')) [
        | inl e ↦ at b'B' e (case_b optarg s fits)
        | inr not_b ↦ elim (Bool-cases (opt == b'R')) [
          | inl e ↦ at b'R' e (fits, refl, refl, or_true s.m_filerotate, or_false s.reader.m_bflag)
          | inr not_r ↦ elim (Bool-cases (opt == b's')) [
            | inl e ↦ at b's' e same
            | inr not_s ↦ elim (Bool-cases (opt == b'w')) [
              | inl e ↦ at b'w' e same
              | inr not_w ↦
                  rw (not_i, not_f, not_b, not_r, not_s, not_w)
                    (
                      fits,
                      rw (not_i, not_f),
                      rw not_f,
                      rw not_r (or_false s.m_filerotate),
                      rw not_b (or_false s.reader.m_bflag),
                    )
            ]
          ]
        ]
      ]
    ]
  ]
    where
      at :
          (c : ℕ)
          → (opt == c) ≡ true
          → One c optarg s (set_option atoi c optarg s)
          → One opt optarg s (set_option atoi opt optarg s)
      at c e h =
          subst (λ o. One o optarg s (set_option atoi o optarg s)) (sym ((==_iff opt c).0 e)) h

      same :
          Fits s
          × (false ≡ false)
          × (false ≡ false)
          × (s.m_filerotate ≡ s.m_filerotate || false)
          × (s.reader.m_bflag ≡ s.reader.m_bflag || false)
      same = (fits, refl, refl, or_false s.m_filerotate, or_false s.reader.m_bflag)

  -- However many options are given, from members whose texts fit: all are taken only where every
  -- interface has fewer than 16 characters and every filter is printed, without an argument, to
  -- fewer than 120; the texts then fit their arrays, the files rotate exactly where they did before
  -- or some -R is given, and the size of the buffer is set exactly where it was before or some -B
  -- has more than one character. An array is overrun, or an argument missing, only where an option
  -- is to blame.
  pub set_options-Ends :
      (options : List (ℕ × Text)) (s : Members)
      → Fits s
      → Ends options s (set_options atoi options s)
  unfolding set_options
  set_options-Ends [] s fits =
      (fits, refl, refl, or_false s.m_filerotate, or_false s.reader.m_bflag)
  set_options-Ends ((opt, optarg) ∷ rest) s fits =
      go (set_option atoi opt optarg s) (set_option-One opt optarg s fits)
        (λ s' fits'. set_options-Ends rest s' fits')
    where
      go :
          (o : Taken)
          → One opt optarg s o
          → ((s' : Members) → Fits s' → Ends rest s' (set_options atoi rest s'))
          → Ends ((opt, optarg) ∷ rest) s (elim o [
            | taken s' ↦ set_options atoi rest s'
            | overrun s' ↦ overrun s'
            | no_argument s' ↦ no_argument s'
          ])
      go (taken s') one ih = join s' (set_options atoi rest s') one (ih s' one.0)
        where
          join :
              (s' : Members) (o : Taken)
              → One opt optarg s (taken s')
              → Ends rest s' o
              → Ends ((opt, optarg) ∷ rest) s o
          join s' (taken t) (fits', short, fine, rot, buf) (fits_t, shorts, fines, rots, bufs) = (
            fits_t,
            rw short shorts,
            rw fine fines,
            rots ∙ ap (λ b. b || any_option rotates rest) rot ∙ or_assoc s.m_filerotate _ _,
            bufs ∙ ap (λ b. b || any_option sizes_buffer rest) buf ∙ or_assoc s.reader.m_bflag _ _,
          )
          join s' (overrun t) (fits', short, fine, rot, buf) e = rw short e
          join s' (no_argument t) (fits', short, fine, rot, buf) e = rw fine e
      go (overrun s') one ih = rw one
      go (no_argument s') one ih = rw one
