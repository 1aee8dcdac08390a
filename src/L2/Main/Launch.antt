-- ===== src/L2/Main/Launch.antt =====
-- When the layer-2 program starts its threads.
use testofdumping.Prelude.{
  ℕ, ◌≤◌, ◌<◌, List, [], ◌∷◌, Bool, true, false, not, ◌≡◌, ◌≢◌, ◌↔◌, refl, ap, ◌∙◌, inl, inr, arith,
  length, All, ◌==◌, subst,
}
use testofdumping.Prelude.Int.{pos, ltb_ℤ}
use testofdumping.Dump.Types.{Outcome, next, exit, fault, ◌>>=◌}
use testofdumping.Options.Boot.{fatal_if}
use testofdumping.L2.{IcisSettings, IcisParsed, taken, turned_down, undefined}
use testofdumping.L2.Ports.{port_enabled}
use testofdumping.L2.Ports.Cores.{capacity, assign_ports_enough}
use testofdumping.L2.Main.{
  PortSetup, IcisBoot, parsed_args, nb_ports, ports_in_use, assigned, assign_all, setup_port,
  setup_ports, setup_all, any_available, main,
}

-- A port whose every call succeeds.
abbrev pub IsSetUp : PortSetup → Type 0
IsSetUp a =
    (ltb_ℤ a.configure (pos 0) ≡ false)
    × (ltb_ℤ a.rx_queue (pos 0) ≡ false)
    × (ltb_ℤ a.tx_queue (pos 0) ≡ false)
    × (ltb_ℤ a.started (pos 0) ≡ false)

-- All that has to hold for the threads to start with these settings.
pub record CanLaunch (b : IcisBoot) (s : IcisSettings) : Type 0 where
  pub eal : ltb_ℤ b.eal (pos 0) ≡ false
  pub pool_made : b.pool_made ≡ true
  pub ring_made : b.ring_made ≡ true
  pub has_device : b.dev_count ≢ 0
  pub has_room :
      length (ports_in_use b s) ≤ capacity b.machine s.icis_rx_queue_per_lcore b.machine.max_lcore
  pub set_up : All (λ portid. IsSetUp (b.port portid)) (ports_in_use b s)
  pub has_port : 0 < length (ports_in_use b s)

>>=-eq-next :
    {S : Type 0} (m : Outcome S) (f : S → Outcome S) {t : S}
    → (m >>= f) ≡ next t
    → (s : S) × (m ≡ next s) × (f s ≡ next t)
>>=-eq-next (next s) f e = (s, refl, e)
>>=-eq-next (exit code s) f e = cc
>>=-eq-next (fault why s) f e = cc

fatal_if-eq-next :
    {S : Type 0} (failed : Bool) (s t : S) → fatal_if failed s ≡ next t → (failed ≡ false) × (s ≡ t)
fatal_if-eq-next true s t e = cc
fatal_if-eq-next false s t e = (refl, cc)

parsed_args-eq-next :
    (parsed : IcisParsed) (t : IcisSettings) → parsed_args parsed ≡ next t → parsed ≡ taken t
unfolding parsed_args
parsed_args-eq-next (taken s) t e = cc
parsed_args-eq-next (turned_down s) t e = cc
parsed_args-eq-next (undefined s) t e = cc

setup_port-eq-next :
    (a : PortSetup) (s t : IcisSettings) → setup_port a s ≡ next t → IsSetUp a × (s ≡ t)
unfolding setup_port
setup_port-eq-next a s t e = ground (arith, e)

setup_port_lem : (a : PortSetup) (s : IcisSettings) → IsSetUp a → setup_port a s ≡ next s
unfolding setup_port
setup_port_lem a s up = simp (up.0, up.1, up.2, up.3)

setup_ports-eq-next :
    (port : ℕ → PortSetup) (ports : List ℕ) (s t : IcisSettings)
    → setup_ports port ports s ≡ next t
    → All (λ portid. IsSetUp (port portid)) ports × (s ≡ t)
unfolding setup_ports
setup_ports-eq-next port [] s t e = (tt, cc)
setup_ports-eq-next port (portid ∷ rest) s t e =
    let (s', one, more) = >>=-eq-next (setup_port (port portid) s) (setup_ports port rest) e in
    let (up, same) = setup_port-eq-next (port portid) s s' one in
    let (ups, same') = setup_ports-eq-next port rest s' t more in ((up, ups), same ∙ same')

setup_ports_lem :
    (port : ℕ → PortSetup) (ports : List ℕ) (s : IcisSettings)
    → All (λ portid. IsSetUp (port portid)) ports
    → setup_ports port ports s ≡ next s
unfolding setup_ports
setup_ports_lem port [] s up = refl
setup_ports_lem port (portid ∷ rest) s up =
    ap (λ o. o >>= setup_ports port rest) (setup_port_lem (port portid) s up.0)
    ∙ setup_ports_lem port rest s up.1

module _ (b : IcisBoot) where
  assign_all-eq-next :
      (s t : IcisSettings)
      → assign_all b s ≡ next t
      → (length (ports_in_use b s)
          ≤ capacity b.machine s.icis_rx_queue_per_lcore b.machine.max_lcore)
        × (s ≡ t)
  unfolding assign_all assigned ports_in_use
  assign_all-eq-next s t e =
      elim (assign_ports_enough b.machine s.icis_rx_queue_per_lcore
        (port_enabled s.icis_enabled_port_mask) (nb_ports b)) [
          | inl (l, ok, room) ↦ (room, cc (rw ok at e))
          | inr (l, bad, over) ↦ cc (rw bad at e)
        ]

  assign_all_lem :
      (s : IcisSettings)
      → length (ports_in_use b s) ≤ capacity b.machine s.icis_rx_queue_per_lcore b.machine.max_lcore
      → assign_all b s ≡ next s
  unfolding assign_all assigned ports_in_use
  assign_all_lem s room =
      elim (assign_ports_enough b.machine s.icis_rx_queue_per_lcore
        (port_enabled s.icis_enabled_port_mask) (nb_ports b)) [
          | inl (l, ok, _) ↦ rw ok
          | inr (l, bad, over) ↦ absurd (omega (arith, room, over))
        ]

  -- The program gets to its threads exactly where DPDK starts, the options were accepted, the pool
  -- and the ring are there, there is a device, the enabled cores have room for the enabled ports,
  -- each of these is set up without an error, and at least one port is enabled; and it then runs
  -- with the settings that the options made.
  pub main_launches :
      (parsed : IcisParsed) (s t : IcisSettings)
      → (main b parsed s ≡ next t) ↔ ((parsed ≡ taken t) × CanLaunch b t)
  unfolding main setup_all any_available parsed_args
  main_launches parsed s t = (forth, back)
    where
      forth : main b parsed s ≡ next t → (parsed ≡ taken t) × CanLaunch b t
      forth e7 =
          let (s6, e6, any) = >>=-eq-next _ (any_available b) e7 in
          let (s5, e5, set_up) = >>=-eq-next _ (setup_all b) e6 in
          let (s4, e4, room) = >>=-eq-next _ (assign_all b) e5 in
          let (s3, e3, device) = >>=-eq-next _ (fatal_if (b.dev_count == 0)) e4 in
          let (s2, e2, ring) = >>=-eq-next _ (fatal_if (not b.ring_made)) e3 in
          let (s1, e1, pool) = >>=-eq-next _ (fatal_if (not b.pool_made)) e2 in
          let (s0, e0, args) = >>=-eq-next _ (λ _. parsed_args parsed) e1 in
          let (some_port, q7) = fatal_if-eq-next _ s6 t any in
          let (ups, q6) = setup_ports-eq-next b.port (ports_in_use b s5) s5 s6 set_up in
          let (fits, q5) = assign_all-eq-next s4 s5 room in
          let (has, q4) = fatal_if-eq-next _ s3 s4 device in
          let (made, q3) = fatal_if-eq-next _ s2 s3 ring in
          let (pooled, q2) = fatal_if-eq-next _ s1 s2 pool in
          let to_t : s4 ≡ t = q5 ∙ q6 ∙ q7 in
          (
            parsed_args-eq-next parsed s1 args ∙ ap taken (q2 ∙ q3 ∙ q4 ∙ to_t),
            record {
              eal = (fatal_if-eq-next _ s s0 e0).0;
              pool_made = ground (arith, pooled);
              ring_made = ground (arith, made);
              has_device = ground (arith, has);
              has_room =
                  subst
                    (λ u.
                      length (ports_in_use b u)
                      ≤ capacity b.machine u.icis_rx_queue_per_lcore b.machine.max_lcore)
                    to_t fits;
              set_up =
                  subst (λ u. All (λ portid. IsSetUp (b.port portid)) (ports_in_use b u)) (q6 ∙ q7)
                    ups;
              has_port = subst (λ u. 0 < length (ports_in_use b u)) q7 (ground (arith, some_port));
            },
          )

      back : (parsed ≡ taken t) × CanLaunch b t → main b parsed s ≡ next t
      back (args, can) =
          let device : (b.dev_count == 0) ≡ false = ground (arith, can.has_device) in
          let some_port : (length (ports_in_use b t) == 0) ≡ false = ground (arith, can.has_port) in
          simp (
            can.eal,
            args,
            can.pool_made,
            can.ring_made,
            device,
            assign_all_lem t can.has_room,
            setup_ports_lem b.port (ports_in_use b t) t can.set_up,
            some_port,
          )
