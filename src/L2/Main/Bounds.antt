-- ===== src/L2/Main/Bounds.antt =====
-- The ports of a core fit its `rx_port_list`, which has MAX_RX_QUEUE_PER_LCORE entries.
use testofdumping.Prelude.{
  ℕ, ◌<◌, List, [], ◌∷◌, Bool, Option, none, some, leb, ◌==◌, ◌≡◌, subst, inl, inr, arith, length,
  Bool-cases,
}
use testofdumping.Prelude.Int.{ℤ, pos, ltb_ℤ}
use testofdumping.Dump.Types.{Text, next}
use testofdumping.Options.{Parsed, accepted, refused, overrun}
use testofdumping.L2.{
  IcisSettings, IcisParsed, taken, turned_down, undefined, is_number, icis_parse_nqueue, set_nqueue,
  set_portmask, set_timer, set_common, set_icis_option, icis_parse_args,
}
use testofdumping.L2.Ports.{Lcores, port_enabled, assign_ports}
use testofdumping.L2.Ports.Cores.{assign_ports_all, assign_ports_enough}
use testofdumping.L2.Ports.Gather.{gather}
use testofdumping.L2.Main.{IcisBoot, main, nb_ports, ports_in_use}
use testofdumping.L2.Main.Launch.{main_launches}

-- MAX_RX_QUEUE_PER_LCORE.
abbrev pub max_rx_queue_per_lcore : ℕ
max_rx_queue_per_lcore = 16

-- The settings that are accepted leave room.
abbrev Fits : IcisParsed → Type 0
Fits (taken s) = s.icis_rx_queue_per_lcore < max_rx_queue_per_lcore
Fits (turned_down s) = Unit
Fits (undefined s) = Unit

set_nqueue-Fits : (n : ℕ) (s : IcisSettings) → n < max_rx_queue_per_lcore → Fits (set_nqueue n s)
unfolding set_nqueue
set_nqueue-Fits n s lt = elim (Bool-cases (n == 0)) [ inl e ↦ rw e tt | inr e ↦ rw e lt ]

set_portmask-Fits :
    (n : ℕ) (s : IcisSettings)
    → s.icis_rx_queue_per_lcore < max_rx_queue_per_lcore
    → Fits (set_portmask n s)
unfolding set_portmask
set_portmask-Fits n s lt = elim (Bool-cases (n == 0)) [ inl e ↦ rw e tt | inr e ↦ rw e lt ]

set_timer-Fits :
    (n : Option ℤ) (s : IcisSettings)
    → s.icis_rx_queue_per_lcore < max_rx_queue_per_lcore
    → Fits (set_timer n s)
unfolding set_timer
set_timer-Fits none s lt = tt
set_timer-Fits (some n) s lt = elim (Bool-cases (ltb_ℤ n (pos 0))) [
  | inl e ↦ rw e tt
  | inr e ↦ rw e lt
]

set_common-Fits :
    (p : Parsed) (s : IcisSettings)
    → s.icis_rx_queue_per_lcore < max_rx_queue_per_lcore
    → Fits (set_common p s)
unfolding set_common
set_common-Fits (accepted c) s lt = lt
set_common-Fits (refused c) s lt = tt
set_common-Fits (overrun c) s lt = tt

then-Fits :
    (p : IcisParsed) (f : IcisSettings → IcisParsed)
    → ((s : IcisSettings) → s.icis_rx_queue_per_lcore < max_rx_queue_per_lcore → Fits (f s))
    → Fits p
    → Fits (elim p [ taken s ↦ f s | turned_down s ↦ turned_down s | undefined s ↦ undefined s ])
then-Fits (taken s) f fits lt = fits s lt
then-Fits (turned_down s) f fits lt = tt
then-Fits (undefined s) f fits lt = tt

module _ (strtoul : Text → ℕ → ℕ × Bool) (strtol : Text → ℕ → ℤ × Bool) (atoi atol : Text → ℤ) where
  nqueue_bound :
      (text : Text) → icis_parse_nqueue strtoul strtol atoi atol text < max_rx_queue_per_lcore
  unfolding icis_parse_nqueue
  nqueue_bound text = elim (Bool-cases (is_number text (strtoul text 10).1)) [
    | inr e ↦ rw e (omega arith)
    | inl e ↦ elim (Bool-cases (leb 16 (strtoul text 10).0)) [
      | inl big ↦ rw (e, big) (omega arith)
      | inr small ↦ rw (e, small) (ground arith)
    ]
  ]

  set_icis_option-Fits :
      (option : ℕ) (text : Text) (s : IcisSettings)
      → s.icis_rx_queue_per_lcore < max_rx_queue_per_lcore
      → Fits (set_icis_option strtoul strtol atoi atol option text s)
  unfolding set_icis_option
  set_icis_option-Fits option text s lt = elim (Bool-cases (option == b'p')) [
    | inl p ↦ rw p (set_portmask-Fits _ s lt)
    | inr p ↦ elim (Bool-cases (option == b'q')) [
      | inl q ↦ rw (p, q) (set_nqueue-Fits _ s (nqueue_bound text))
      | inr q ↦ elim (Bool-cases (option == b'T')) [
        | inl t ↦ rw (p, q, t) (set_timer-Fits _ s lt)
        | inr t ↦ elim (Bool-cases (option == b'i')) [
          | inl i ↦ rw (p, q, t, i) tt
          | inr i ↦ rw (p, q, t, i) (set_common-Fits _ s lt)
        ]
      ]
    ]
  ]

  icis_parse_args-Fits :
      (options : List (ℕ × Text)) (s : IcisSettings)
      → s.icis_rx_queue_per_lcore < max_rx_queue_per_lcore
      → Fits (icis_parse_args strtoul strtol atoi atol options s)
  unfolding icis_parse_args
  icis_parse_args-Fits [] s lt = lt
  icis_parse_args-Fits ((option, text) ∷ rest) s lt =
      then-Fits (set_icis_option strtoul strtol atoi atol option text s)
        (icis_parse_args strtoul strtol atoi atol rest) (icis_parse_args-Fits rest)
        (set_icis_option-Fits option text s lt)

  -- Where main gets to its threads with the options of the command line, and the default of -q was
  -- below 16, the port lists of the cores hold exactly the enabled ports, and none has as many as
  -- the 16 that its array could hold.
  pub rx_port_list_fits :
      (b : IcisBoot) (options : List (ℕ × Text)) (s t : IcisSettings)
      → s.icis_rx_queue_per_lcore < max_rx_queue_per_lcore
      → main b (icis_parse_args strtoul strtol atoi atol options s) s ≡ next t
      → (l : Lcores) × (assign_ports b.machine t.icis_rx_queue_per_lcore
            (port_enabled t.icis_enabled_port_mask)
            (nb_ports b)
          ≡ next l)
        × (gather b.machine.max_lcore l.rx_port_list ≡ ports_in_use b t)
        × ((k : ℕ) → length (l.rx_port_list k) < max_rx_queue_per_lcore)
  unfolding ports_in_use
  rx_port_list_fits b options s t lt e =
      let (args, can) =
        (main_launches b (icis_parse_args strtoul strtol atoi atol options s) s t).0 e in
      let within : t.icis_rx_queue_per_lcore < max_rx_queue_per_lcore =
        subst Fits args (icis_parse_args-Fits options s lt) in
      elim (assign_ports_enough b.machine t.icis_rx_queue_per_lcore
        (port_enabled t.icis_enabled_port_mask) (nb_ports b)) [
          | inr (l, bad, over) ↦ absurd (omega (arith, over, can.has_room))
          | inl (l, ok, room) ↦
              let (lists, lengths, _) =
                assign_ports_all b.machine t.icis_rx_queue_per_lcore
                  (port_enabled t.icis_enabled_port_mask) (nb_ports b) l ok in
              (l, ok, lists, λ k. omega (arith, lengths k, within))
        ]
