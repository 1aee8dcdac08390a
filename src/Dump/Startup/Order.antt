-- ===== src/Dump/Startup/Order.antt =====
-- In which order an interface is opened, and how the opening fails.
use testofdumping.Prelude.{
  ℕ, List, [], ◌∷◌, ◌++◌, true, false, ◌≡◌, ◌≢◌, ◌⊎◌, inl, inr, Bool-cases, if◌then◌else◌,
  append-nil, append_assoc, take,
}
use testofdumping.Prelude.Int.{pos, ltb_ℤ}
use testofdumping.Dump.Types.{Program, l2_main, Settings, next, exit, fault, no_handle}
use testofdumping.Dump.Startup.{
  PcapCall, pcap_create, pcap_activate, pcap_lookupnet, gethostname, pcap_compile, pcap_setfilter,
  Answers, configure_calls, create, configure, checked, pcap_start_up,
}

-- The code with which a start ends, from the first call that failed.
abbrev pub failure_code : Answers → ℕ
failure_code a =
    if ltb_ℤ a.activate (pos 0)
    then 0
    else if ltb_ℤ a.lookupnet (pos 0)
    then 3
    else if ltb_ℤ a.hostname (pos 0)
    then 4
    else if ltb_ℤ a.compile (pos 0)
    then 5
    else 6

-- How many calls it makes behind the activation.
abbrev pub failure_calls : Answers → ℕ
failure_calls a =
    if ltb_ℤ a.activate (pos 0)
    then 0
    else if ltb_ℤ a.lookupnet (pos 0)
    then 1
    else if ltb_ℤ a.hostname (pos 0)
    then 2
    else if ltb_ℤ a.compile (pos 0)
    then 3
    else 4

-- The calls up to the activation: the interface's name, and every setting before it.
abbrev pub activation : Program → Settings → List PcapCall
activation p set =
    (pcap_create set.interface_name ∷ []) ++ configure_calls p set ++ pcap_activate ∷ []

-- All that a start looks at.
abbrev pub AllAnswered : Answers → Type 0
AllAnswered a =
    (ltb_ℤ a.activate (pos 0) ≡ false)
    × (ltb_ℤ a.lookupnet (pos 0) ≡ false)
    × (ltb_ℤ a.hostname (pos 0) ≡ false)
    × (ltb_ℤ a.compile (pos 0) ≡ false)
    × (ltb_ℤ a.setfilter (pos 0) ≡ false)

-- The calls after the activation: the filter is that of the user, installed last.
abbrev pub final_calls : Settings → List PcapCall
final_calls set =
    pcap_lookupnet set.interface_name
    ∷ gethostname
    ∷ pcap_compile set.filter_str
    ∷ pcap_setfilter
    ∷ []

-- In the four dumpers that have `PcapStartUp`, opening the interface has one of three ends. Where
-- no checked call is negative it goes on, after all settings, the activation, the network's
-- address, the host's name, and then the filter that the user gave, compiled and installed last.
-- Otherwise the process ends with the code of the first call that failed, having made all settings
-- before the activation, and after it the calls up to the failing one; when it is the activation
-- that failed, that code is 0. Without a handle, the process goes on to set the handle that is not
-- there, which is undefined.
pub pcap_start_up_ends :
    (p : Program) (set : Settings) (a : Answers)
    → p ≢ l2_main
    → ((a.created ≡ true)
        × AllAnswered a
        × (pcap_start_up p set a ≡ next (activation p set ++ final_calls set)))
      ⊎ ((a.created ≡ true)
          × (pcap_start_up p set a
              ≡ exit
                  (failure_code a)
                  (activation p set ++ take (failure_calls a) (final_calls set))))
      ⊎ ((a.created ≡ false)
          × (pcap_start_up p set a ≡ fault no_handle (pcap_create set.interface_name ∷ [])))
unfolding pcap_start_up create configure checked
pcap_start_up_ends p set a opens = elim (Bool-cases a.created) [
  | inr missing ↦ inr (inr (missing, simp missing))
  | inl made ↦ elim (Bool-cases (ltb_ℤ a.activate (pos 0))) [
    | inl b1 ↦ inr (inl (made, simp (made, b1, append-nil)))
    | inr g1 ↦ elim (Bool-cases (ltb_ℤ a.lookupnet (pos 0))) [
      | inl b2 ↦ inr (inl (made, simp (made, g1, b2, append_assoc)))
      | inr g2 ↦ elim (Bool-cases (ltb_ℤ a.hostname (pos 0))) [
        | inl b3 ↦ inr (inl (made, simp (made, g1, g2, b3, append_assoc)))
        | inr g3 ↦ elim (Bool-cases (ltb_ℤ a.compile (pos 0))) [
          | inl b4 ↦ inr (inl (made, simp (made, g1, g2, g3, b4, append_assoc)))
          | inr g4 ↦ elim (Bool-cases (ltb_ℤ a.setfilter (pos 0))) [
            | inl b5 ↦ inr (inl (made, simp (made, g1, g2, g3, g4, b5, append_assoc)))
            | inr g5 ↦
                inl (made, (g1, g2, g3, g4, g5), simp (made, g1, g2, g3, g4, g5, append_assoc))
          ]
        ]
      ]
    ]
  ]
]
