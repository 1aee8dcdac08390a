-- ===== src/L2/Ports/Cores.antt =====
-- The assignment of ports to cores: every enabled port goes to one core, in order, and the
-- program gives up only where the cores do not suffice.
use testofdumping.Prelude.{
  ℕ, zero, suc, ◌+◌, ◌-◌, ◌≤◌, ◌<◌, List, [], ◌∷◌, ◌++◌, Bool, true, ◌≡◌, refl, ap, ◌∙◌, ◌⊎◌, inl,
  inr, arith, Bool-cases, Option, subst, some, none, length, length-append, append_assoc,
  append-nil, if◌then◌else◌,
}
use native.Mathlib.Decide.{dec_lt}
use testofdumping.Dump.Types.{Outcome, next, exit, fault, ◌>>=◌}
use testofdumping.L2.Ports.{
  set_at, Lcores, Machine, find_lcore, give_port, assign_port, assign_loop, unassigned,
  assign_ports, enabled_ports,
}
use testofdumping.L2.Ports.Gather.{gather, gather_give}
use testofdumping.L2.Ports.Search.{find_lcore-some, find_lcore-none, free_lcore, full_lcore}

module _ (m : Machine) (per_lcore : ℕ) where
  -- The room that the first n cores offer.
  abbrev pub capacity : ℕ → ℕ
  capacity zero = 0
  capacity (suc n) = capacity n + (if m.lcore_enabled n then per_lcore else 0)

  -- The ports given so far lie with the cores in order; no core has too many, a core that is not
  -- enabled has none, and an enabled one that was passed is full.
  record IsAssigned (given : List ℕ) (s : Lcores) : Type 0 where
    lists : gather m.max_lcore s.rx_port_list ≡ given
    later : (k : ℕ) → s.rx_lcore_id < k → s.rx_port_list k ≡ []
    within : (k : ℕ) → length (s.rx_port_list k) ≤ per_lcore
    on : (k : ℕ) → 0 < length (s.rx_port_list k) → m.lcore_enabled k ≡ true
    full :
        (k : ℕ)
        → k < s.rx_lcore_id
        → m.lcore_enabled k ≡ true
        → length (s.rx_port_list k) ≡ per_lcore

  given-IsAssigned :
      (portid found : ℕ) (given : List ℕ) (s : Lcores)
      → IsAssigned given s
      → find_lcore m per_lcore s (m.max_lcore - s.rx_lcore_id) s.rx_lcore_id ≡ some found
      → IsAssigned (given ++ portid ∷ []) (record {
        rx_lcore_id = found;
        rx_port_list = set_at s.rx_port_list found (s.rx_port_list found ++ portid ∷ []);
      })
  given-IsAssigned portid found given s v e =
      let (low, high, free, passed) =
        find_lcore-some m per_lcore s (m.max_lcore - s.rx_lcore_id) s.rx_lcore_id found e in
      let (enabled, room) = free_lcore m per_lcore s found free in
      let longer : length (s.rx_port_list found ++ portid ∷ [])
          ≡ length (s.rx_port_list found) + 1 =
        length-append (s.rx_port_list found) (portid ∷ []) in
      record {
        lists =
            gather_give m.max_lcore found s.rx_port_list portid (omega (arith, high))
              (λ k lt. v.later k (omega (arith, lt, low)))
            ∙ ap (λ l. l ++ portid ∷ []) v.lists;
        later = λ k lt. ground (arith, lt, low, v.later k);
        within = λ k. ground (arith, v.within k, v.within found, longer, room);
        on = λ k some_port. ground (arith, v.on k, some_port, enabled);
        full = λ k lt on. elim (dec_lt k s.rx_lcore_id) [
          | yes before ↦ ground (arith, v.full k before on, lt, on)
          | no after ↦
              ground
                (arith, full_lcore m per_lcore s k (passed k (omega (arith, after)) lt) on, lt, on)
        ];
      }

  unassigned-IsAssigned : IsAssigned [] unassigned
  unassigned-IsAssigned = record {
    lists = nothing m.max_lcore;
    later = λ k lt. refl;
    within = λ k. omega arith;
    on = λ k some_port. absurd (omega (arith, some_port));
    full = λ k lt on. absurd (omega (arith, lt));
  }
    where
      nothing : (n : ℕ) → gather n (λ id. []) ≡ []
      nothing zero = refl
      nothing (suc n) = append-nil (gather n (λ id. [])) ∙ nothing n

  -- At most what the cores have room for; and just that where all are full.
  length-gather-le-capacity :
      (f : ℕ → List ℕ)
      → ((k : ℕ) → length (f k) ≤ per_lcore)
      → ((k : ℕ) → 0 < length (f k) → m.lcore_enabled k ≡ true)
      → (n : ℕ) → length (gather n f) ≤ capacity n
  length-gather-le-capacity f within on zero = omega arith
  length-gather-le-capacity f within on (suc n) =
      let ih = length-gather-le-capacity f within on n in
      let sum = length-append (gather n f) (f n) in
      elim (Bool-cases (m.lcore_enabled n)) [
        | inl yes_on ↦ rw yes_on (omega (arith, ih, sum, within n))
        | inr off ↦ elim (dec_lt 0 (length (f n))) [
          | yes some_port ↦ cc (on n some_port, off)
          | no none_there ↦ rw off (omega (arith, ih, sum, none_there))
        ]
      ]

  length-gather-full :
      (f : ℕ → List ℕ) (n : ℕ)
      → ((k : ℕ) → k < n → m.lcore_enabled k ≡ true → length (f k) ≡ per_lcore)
      → capacity n ≤ length (gather n f)
  length-gather-full f zero full = omega arith
  length-gather-full f (suc n) full =
      let ih = length-gather-full f n (λ k lt on. full k (omega (arith, lt)) on) in
      let sum = length-append (gather n f) (f n) in
      elim (Bool-cases (m.lcore_enabled n)) [
        | inl on ↦ rw on (omega (arith, ih, sum, full n (omega arith) on))
        | inr off ↦ rw off (omega (arith, ih, sum))
      ]

  no_room :
      (portid : ℕ) (ports given : List ℕ) (s : Lcores)
      → IsAssigned given s
      → find_lcore m per_lcore s (m.max_lcore - s.rx_lcore_id) s.rx_lcore_id ≡ none
      → capacity m.max_lcore < length (given ++ portid ∷ ports)
  no_room portid ports given s v e = omega (
    arith,
    length-append given (portid ∷ ports),
    ap length v.lists,
    length-gather-full s.rx_port_list m.max_lcore (λ k lt on. elim (dec_lt k s.rx_lcore_id) [
      | yes before ↦ v.full k before on
      | no after ↦
          full_lcore m per_lcore s k
            (find_lcore-none m per_lcore s (m.max_lcore - s.rx_lcore_id) s.rx_lcore_id e k
              (omega (arith, after)) (omega (arith, after, lt)))
            on
    ]),
  )

  -- What a run of the loop ends with.
  abbrev EndsWith : List ℕ → Outcome Lcores → Type 0
  EndsWith ports (next s) = IsAssigned ports s
  EndsWith ports (exit code s) = (code ≡ 1) × (capacity m.max_lcore < length ports)
  EndsWith ports (fault why s) = ⊥

  assign_loop-EndsWith :
      (ports given : List ℕ) (s : Lcores)
      → IsAssigned given s
      → EndsWith (given ++ ports) (assign_loop m per_lcore ports s)
  unfolding assign_loop assign_port give_port
  assign_loop-EndsWith [] given s v = rw (append-nil given) v
  assign_loop-EndsWith (portid ∷ ports) given s v =
      go (find_lcore m per_lcore s (m.max_lcore - s.rx_lcore_id) s.rx_lcore_id) refl
        (λ s' v'. assign_loop-EndsWith ports (given ++ portid ∷ []) s' v')
    where
      go :
          (o : Option ℕ)
          → find_lcore m per_lcore s (m.max_lcore - s.rx_lcore_id) s.rx_lcore_id ≡ o
          → ((s' : Lcores)
              → IsAssigned (given ++ portid ∷ []) s'
              → EndsWith ((given ++ portid ∷ []) ++ ports) (assign_loop m per_lcore ports s'))
          → EndsWith
              (given ++ portid ∷ ports)
              (give_port portid o s >>= assign_loop m per_lcore ports)
      go none e ih = (refl, no_room portid ports given s v e)
      go (some found) e ih =
          subst
            (λ l. EndsWith l (give_port portid (some found) s >>= assign_loop m per_lcore ports))
            (append_assoc given (portid ∷ []) ports)
            (ih _ (given-IsAssigned portid found given s v e))

  assign_ports-EndsWith :
      (enabled : ℕ → Bool) (nb_ports : ℕ)
      → EndsWith (enabled_ports enabled nb_ports 0) (assign_ports m per_lcore enabled nb_ports)
  unfolding assign_ports
  assign_ports-EndsWith enabled nb_ports =
      assign_loop-EndsWith (enabled_ports enabled nb_ports 0) [] unassigned unassigned-IsAssigned

  -- Where the assignment goes on, the port lists of the cores, one core after the other, are exactly
  -- the enabled ports in order, each in one list, which may be that of the master core; no core has
  -- more ports than -q allows, and a core that has any is enabled.
  pub assign_ports_all :
      (enabled : ℕ → Bool) (nb_ports : ℕ) (s : Lcores)
      → assign_ports m per_lcore enabled nb_ports ≡ next s
      → (gather m.max_lcore s.rx_port_list ≡ enabled_ports enabled nb_ports 0)
        × ((k : ℕ) → length (s.rx_port_list k) ≤ per_lcore)
        × ((k : ℕ) → (s.rx_port_list k ≡ []) ⊎ (m.lcore_enabled k ≡ true))
  assign_ports_all enabled nb_ports s e =
      let v : IsAssigned (enabled_ports enabled nb_ports 0) s =
        subst (EndsWith (enabled_ports enabled nb_ports 0)) e
          (assign_ports-EndsWith enabled nb_ports) in
      (v.lists, v.within, λ k. idle_or_on (s.rx_port_list k) (v.on k))
    where
      idle_or_on :
          (ports : List ℕ) {on : Bool} → (0 < length ports → on ≡ true) → (ports ≡ []) ⊎ (on ≡ true)
      idle_or_on [] h = inl refl
      idle_or_on (p ∷ ps) h = inr (h (omega arith))

  -- The assignment goes on exactly where the enabled cores have room for the enabled ports, at so
  -- many ports each as -q allows; else the process ends with code 1.
  pub assign_ports_enough :
      (enabled : ℕ → Bool) (nb_ports : ℕ)
      → ((s : Lcores) × (assign_ports m per_lcore enabled nb_ports ≡ next s)
          × (length (enabled_ports enabled nb_ports 0) ≤ capacity m.max_lcore))
        ⊎ ((s : Lcores) × (assign_ports m per_lcore enabled nb_ports ≡ exit 1 s)
            × (capacity m.max_lcore < length (enabled_ports enabled nb_ports 0)))
  assign_ports_enough enabled nb_ports =
      go (assign_ports m per_lcore enabled nb_ports) (assign_ports-EndsWith enabled nb_ports)
    where
      go :
          (o : Outcome Lcores)
          → EndsWith (enabled_ports enabled nb_ports 0) o
          → ((s : Lcores) × (o ≡ next s)
              × (length (enabled_ports enabled nb_ports 0) ≤ capacity m.max_lcore))
            ⊎ ((s : Lcores) × (o ≡ exit 1 s)
                × (capacity m.max_lcore < length (enabled_ports enabled nb_ports 0)))
      go (next s) v = inl (
        s,
        refl,
        omega (
          arith,
          ap length v.lists,
          length-gather-le-capacity s.rx_port_list v.within v.on m.max_lcore,
        ),
      )
      go (exit code s) (one, over) = inr (s, ap (λ c. exit c s) one, over)
      go (fault why s) v = absurd v
