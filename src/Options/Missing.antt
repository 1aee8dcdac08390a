-- ===== src/Options/Missing.antt =====
-- Wrong arguments do not stop the program.
use testofdumping.Prelude.{
  ap, ◌∙◌, ℕ, List, none, true, false, ◌≡◌, ◌≢◌, refl, ◌⊎◌, inl, inr, arith, [], ◌∷◌, All,
}
use testofdumping.Prelude.Int.{ℤ, pos, ltb_ℤ, eq_ℤ}
use testofdumping.Dump.Types.{
  Program, main_dump, main_icispcap, lat_dump, lat_src_dump, l2_main, ◌>>=◌, Text, Settings, Env,
  Mbuf, ready_suffix, next, exit, fault, null_name, overrun_array,
}
use testofdumping.Dump.Consumer.{consumer, blank}
use testofdumping.Dump.Consumer.Start.{consumer-no_name}
use testofdumping.Options.{
  Parsed, accepted, refused, overrun, set_option, set_options, check_settings, parse_args, has_name,
}
use testofdumping.Options.Boot.{
  PortAnswers, IsPortUp, init_port, init_port_list, init_ports, Boot, IsUp, boot, check_lcores,
  ignore_result, parse_and_go_on, check_pci,
}

check_lcores-up : (p : Program) (b : Boot) (s : Settings) → IsUp b → check_lcores p b s ≡ next s
unfolding check_lcores
check_lcores-up p b s up = ground arith

check_pci-up : (p : Program) (b : Boot) (s : Settings) → IsUp b → check_pci p b s ≡ next s
unfolding check_pci
check_pci-up p b s up = ground arith

init_port-up : (a : PortAnswers) (s : Settings) → IsPortUp a → init_port a s ≡ next s
unfolding init_port
init_port-up a s up = simp (up.configure, up.rx_queue, up.rx_stats, up.tx_queue, up.started)

init_port_list-up :
    (ports : List PortAnswers) (s : Settings) → All IsPortUp ports → init_port_list ports s ≡ next s
unfolding init_port_list
init_port_list-up [] s up = refl
init_port_list-up (a ∷ rest) s up =
    ap (λ o. o >>= init_port_list rest) (init_port-up a s up.0) ∙ init_port_list-up rest s up.1

init_ports-up : (p : Program) (b : Boot) (s : Settings) → IsUp b → init_ports p b s ≡ next s
unfolding init_ports
init_ports-up main_dump b s up = init_port_list-up b.ports s up.ports
init_ports-up main_icispcap b s up = init_port_list-up b.ports s up.ports
init_ports-up lat_dump b s up = refl
init_ports-up lat_src_dump b s up = refl
init_ports-up l2_main b s up = refl

-- Two cores are not a negative number of them.
two_cores : (n : ℤ) → eq_ℤ n (pos 2) ≡ true → ltb_ℤ n (pos 0) ≡ false
two_cores n e = ground arith

module _ (atoi atol : Text → ℤ) (p : Program) where
  boot-refused :
      (b : Boot) (options : List (ℕ × Text)) (s t : Settings)
      → IsUp b
      → parse_args atoi atol p options s ≡ refused t
      → boot atoi atol p b options s ≡ next t
  unfolding boot parse_and_go_on ignore_result
  boot-refused b options s t up e = simp (
    up.eal,
    check_lcores-up p b s up,
    e,
    two_cores b.lcores up.lcores,
    check_pci-up p b t up,
    up.pool_made,
    up.ring_made,
    init_ports-up p b t up,
    up.launched,
  )

  boot-overrun :
      (b : Boot) (options : List (ℕ × Text)) (s t : Settings)
      → IsUp b
      → parse_args atoi atol p options s ≡ overrun t
      → boot atoi atol p b options s ≡ fault overrun_array t
  unfolding boot parse_and_go_on ignore_result
  boot-overrun b options s t up e = simp (up.eal, check_lcores-up p b s up, e)

  -- What a run of the options has made of the settings, in each case.
  abbrev settings_of : Parsed → Settings
  settings_of (accepted s) = s
  settings_of (refused s) = s
  settings_of (overrun s) = s

  set_option-no_name :
      (option : ℕ) (optarg : Text) (s : Settings)
      → option ≢ b'w'
      → s.file_name ≡ none
      → (settings_of (set_option atoi atol p option optarg s)).file_name ≡ none
  unfolding set_option
  set_option-no_name option optarg s ne e = ground arith

  set_options-no_name :
      (options : List (ℕ × Text)) (s : Settings)
      → All (λ o. o.0 ≢ b'w') options
      → s.file_name ≡ none
      → (settings_of (set_options atoi atol p options s)).file_name ≡ none
  unfolding set_options
  set_options-no_name [] s h e = e
  set_options-no_name ((option, optarg) ∷ rest) s h e =
      go (set_option atoi atol p option optarg s) (set_option-no_name option optarg s h.0 e)
        (λ s' e'. set_options-no_name rest s' h.1 e')
    where
      go :
          (r : Parsed)
          → (settings_of r).file_name ≡ none
          → ((s' : Settings)
              → s'.file_name ≡ none
              → (settings_of (set_options atoi atol p rest s')).file_name ≡ none)
          → (settings_of (elim r [
            | accepted s' ↦ set_options atoi atol p rest s'
            | refused s' ↦ refused s'
            | overrun s' ↦ overrun s'
          ])).file_name
            ≡ none
      go (accepted s') e' ih = ih s' e'
      go (refused s') e' ih = e'
      go (overrun s') e' ih = e'

  check_settings-no_name : (s : Settings) → s.file_name ≡ none → check_settings s ≡ refused s
  unfolding check_settings has_name
  check_settings-no_name s e = ground arith

  -- Without a name the parser refuses the settings, or an argument overran its array before.
  parse_args-no_name :
      (options : List (ℕ × Text)) (s : Settings)
      → All (λ o. o.0 ≢ b'w') options
      → s.file_name ≡ none
      → (t : Settings) × (t.file_name ≡ none)
        × ((parse_args atoi atol p options s ≡ refused t)
            ⊎ (parse_args atoi atol p options s ≡ overrun t))
  unfolding parse_args
  parse_args-no_name options s h e =
      go (set_options atoi atol p options s) refl (set_options-no_name options s h e)
    where
      go :
          (r : Parsed)
          → set_options atoi atol p options s ≡ r
          → (settings_of r).file_name ≡ none
          → (t : Settings) × (t.file_name ≡ none)
            × ((parse_args atoi atol p options s ≡ refused t)
                ⊎ (parse_args atoi atol p options s ≡ overrun t))
      go (accepted s') q e' = (s', e', inl (rw (q, parse_args) (check_settings-no_name s' e')))
      go (refused s') q e' = (s', e', inl (rw (q, parse_args)))
      go (overrun s') q e' = (s', e', inr (rw (q, parse_args)))

  -- `main` of the four programs with this parser does not look at what it returns. So where DPDK
  -- starts, on two cores, and no -w option is given (and no name is preset), then, unless another
  -- argument overruns its array, `main` goes on to the consumer, and that hands a null file name to
  -- the C library, whatever the other options, the files and the packets are; but for the two
  -- programs that rename their files, where the clock does not answer: these end with code 1.
  pub missing_name_faults :
      (b : Boot) (options : List (ℕ × Text)) (s : Settings)
      → p ≢ l2_main
      → IsUp b
      → All (λ o. o.0 ≢ b'w') options
      → s.file_name ≡ none
      → (t : Settings) × ((boot atoi atol p b options s ≡ next t)
          ⊎ (boot atoi atol p b options s ≡ fault overrun_array t))
        × ((env : Env) (now : ℕ) (ms : List (Env × Mbuf))
            → (consumer p t env now ms ≡ fault null_name blank)
              ⊎ ((ready_suffix p ≢ none)
                  × (env.clock_ok ≡ false)
                  × (consumer p t env now ms ≡ exit 1 blank)))
  missing_name_faults b options s parses up h e =
      let (t, no_name, r) = parse_args-no_name options s h e in
      (
        t,
        elim r [
          | inl ref ↦ inl (boot-refused b options s t up ref)
          | inr over ↦ inr (boot-overrun b options s t up over)
        ],
        λ env now ms. consumer-no_name p t env now ms no_name,
      )
