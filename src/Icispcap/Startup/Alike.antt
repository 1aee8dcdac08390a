-- ===== src/Icispcap/Startup/Alike.antt =====
-- How the start of PacketReader compares with that of the dumpers.
use testofdumping.Prelude.{
  ℕ, List, [], ◌∷◌, ◌++◌, Bool, true, false, ◌≡◌, ◌≢◌, refl, ap, sym, ◌∙◌, append_assoc, append-nil,
  Bool-cases, inl, inr, if◌then◌else◌,
}
use testofdumping.Prelude.Int.{ℤ, pos, ltb_ℤ}
use testofdumping.Dump.Types.{
  Program, l2_main, Settings, Outcome, next, exit, fault, no_handle, ◌>>=◌,
}
use testofdumping.Dump.Startup
use testofdumping.Dump.Startup.{
  PcapCall, pcap_create, pcap_activate, pcap_lookupnet, gethostname, pcap_compile, pcap_setfilter,
  Answers, checked,
}
use testofdumping.Icispcap.Startup.{
  ReaderSettings, configure_calls, create, configure, pcap_start_up,
}

-- Both go on, or end with the same code, after the same calls behind the given ones; or both are
-- undefined for the same reason, after the same calls.
abbrev pub EndAlike :
    List PcapCall → List PcapCall → Outcome (List PcapCall) → Outcome (List PcapCall) → Type 0
EndAlike xs ys (next c) (next d) = (t : List PcapCall) × (c ≡ xs ++ t) × (d ≡ ys ++ t)
EndAlike xs ys (exit i c) (exit j d) =
    (i ≡ j) × ((t : List PcapCall) × (c ≡ xs ++ t) × (d ≡ ys ++ t))
EndAlike xs ys (fault x c) (fault y d) = (x ≡ y) × (c ≡ d)
EndAlike xs ys (next c) (exit j d) = ⊥
EndAlike xs ys (next c) (fault y d) = ⊥
EndAlike xs ys (exit i c) (next d) = ⊥
EndAlike xs ys (exit i c) (fault y d) = ⊥
EndAlike xs ys (fault x c) (next d) = ⊥
EndAlike xs ys (fault x c) (exit j d) = ⊥

more :
    (zs t : List PcapCall) (call : PcapCall) {c : List PcapCall}
    → c ≡ zs ++ t
    → c ++ call ∷ [] ≡ zs ++ (t ++ call ∷ [])
more zs t call e = ap (λ l. l ++ call ∷ []) e ∙ append_assoc zs t (call ∷ [])

module _ (xs ys : List PcapCall) where
  -- One more call, with the same result.
  checked-EndAlike :
      (call call' : PcapCall) (result : ℤ) (code : ℕ) (o u : Outcome (List PcapCall))
      → call ≡ call'
      → EndAlike xs ys o u
      → EndAlike xs ys (o >>= checked call result code) (u >>= checked call' result code)
  unfolding checked
  checked-EndAlike call call' result code (next c) (next d) k (t, e, f) =
      elim (Bool-cases (ltb_ℤ result (pos 0))) [
        | inl failed ↦ rw failed (
          refl,
          (
            t ++ call ∷ [],
            more xs t call e,
            (more ys t call' f ∙ ap (λ x. ys ++ (t ++ x ∷ [])) (sym k)),
          ),
        )
        | inr fine ↦ rw fine (
          t ++ call ∷ [],
          more xs t call e,
          (more ys t call' f ∙ ap (λ x. ys ++ (t ++ x ∷ [])) (sym k)),
        )
      ]
  checked-EndAlike call call' result code (exit i c) (exit j d) k h = h
  checked-EndAlike call call' result code (fault x c) (fault y d) k h = h
  checked-EndAlike call call' result code (next c) (exit j d) k h = absurd h
  checked-EndAlike call call' result code (next c) (fault y d) k h = absurd h
  checked-EndAlike call call' result code (exit i c) (next d) k h = absurd h
  checked-EndAlike call call' result code (exit i c) (fault y d) k h = absurd h
  checked-EndAlike call call' result code (fault x c) (next d) k h = absurd h
  checked-EndAlike call call' result code (fault x c) (exit j d) k h = absurd h

-- For the same interface, the same filter and the same answers, PacketReader and each of the four
-- dumpers open the interface alike: they go on, or end with the same exit code, after the same
-- calls behind the settings, or both use a handle that is not there. Only the settings before the
-- activation differ, such as the promiscuous mode and the time limit.
pub pcap_start_up-EndAlike :
    (s : ReaderSettings) (p : Program) (set : Settings) (a : Answers)
    → p ≢ l2_main
    → s.m_interfacename ≡ set.interface_name
    → s.fliterstr ≡ set.filter_str
    → EndAlike
        (pcap_create s.m_interfacename ∷ configure_calls s)
        (pcap_create set.interface_name ∷ Startup.configure_calls p set)
        (pcap_start_up s a)
        (Startup.pcap_start_up p set a)
unfolding pcap_start_up Startup.pcap_start_up create Startup.create configure Startup.configure
pcap_start_up-EndAlike s p set a dumper same_name same_filter =
    checked-EndAlike xs ys pcap_setfilter pcap_setfilter a.setfilter 6 _ _ refl (
      checked-EndAlike xs ys (pcap_compile s.fliterstr) (pcap_compile set.filter_str) a.compile 5 _
        _ (ap pcap_compile same_filter)
        (checked-EndAlike xs ys gethostname gethostname a.hostname 4 _ _ refl (
          checked-EndAlike xs ys (pcap_lookupnet s.m_interfacename)
            (pcap_lookupnet set.interface_name) a.lookupnet 3 _ _ (ap pcap_lookupnet same_name)
            (checked-EndAlike xs ys pcap_activate pcap_activate a.activate 0 _ _ refl
              (opened a.created)))))
  where
    xs : List PcapCall
    xs = pcap_create s.m_interfacename ∷ configure_calls s

    ys : List PcapCall
    ys = pcap_create set.interface_name ∷ Startup.configure_calls p set

    opened :
        (b : Bool)
        → EndAlike xs ys
            ((if b
                then next (pcap_create s.m_interfacename ∷ [])
                else fault no_handle (pcap_create s.m_interfacename ∷ []))
              >>= configure s)
            ((if b
                then next (pcap_create set.interface_name ∷ [])
                else fault no_handle (pcap_create set.interface_name ∷ []))
              >>= Startup.configure p set)
    opened true = ([], sym (append-nil xs), sym (append-nil ys))
    opened false = (refl, ap (λ name. pcap_create name ∷ []) same_name)
