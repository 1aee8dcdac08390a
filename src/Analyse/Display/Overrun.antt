-- ===== src/Analyse/Display/Overrun.antt =====
-- Texts that fit into `buff`, and times that fit into an `int`.
use testofdumping.Prelude.{
  ℕ, ◌+◌, ◌≤◌, ◌<◌, ◌^◌, Option, none, some, List, [], ◌∷◌, Bool, true, false, ◌||◌, ltb, leb, ◌≡◌,
  refl, ap, ◌∙◌, length, arith, Bool-cases, Option-cases, inl, inr, All,
}
use testofdumping.Analyse.Display.{
  sizeof_buff, timeint, TraceStats, set_stats, Traced, DisplayStats, board_of, fill_buff,
  count_packet, add_pkt, data_len_of, ether_type_of, parse_with, parse_pkt,
}
use testofdumping.Analyse.Display.Events.{
  Event, parsed, file_end, end_file, handle_event, handle_events,
}
use testofdumping.Analyse.Display.Window.{Window, turn, see, window}
use testofdumping.Analyse.Display.Sticks.{add_to_node-same, turn_interval-same, placed}

overrun_of-count_packet :
    (falls_off : Bool) (len : ℕ) (b : DisplayStats)
    → (board_of (count_packet falls_off len b)).overrun ≡ b.overrun
unfolding count_packet
overrun_of-count_packet true len b = refl
overrun_of-count_packet false len b = refl

overrun_of-placed :
    (t : Traced) (ethertype : ℕ) (b : DisplayStats)
    → (placed t ethertype b).overrun ≡ b.overrun || leb sizeof_buff (length t.source)
unfolding fill_buff
overrun_of-placed t ethertype b =
    (add_to_node-same t.source _ t.direction _).1
    ∙ ap (λ x. x || leb sizeof_buff (length t.source))
        ((turn_interval-same t.seconds (record b { dis_lock = true })).1)

-- Only a long text makes an overrun.
overrun_of-parse_pkt :
    (t : Traced) (b : DisplayStats)
    → length t.source + 1 ≤ sizeof_buff
    → (board_of (parse_pkt t b)).overrun ≡ b.overrun
unfolding parse_pkt parse_with add_pkt
overrun_of-parse_pkt t b h = elim (Option-cases (ether_type_of t.layer3 t.transport)) [
  | inl e ↦ rw e
  | inr (ethertype, e) ↦ elim (Bool-cases (ltb t.seconds b.cur_int_starttime)) [
    | inl early ↦ rw (e, early)
    | inr timely ↦ elim (Bool-cases b.dis_lock) [
      | inl held ↦ rw (e, timely, held)
      | inr free ↦
          let now =
            overrun_of-count_packet t.falls_off (data_len_of t.wire_length) (placed t ethertype b)
            ∙ overrun_of-placed t ethertype b in
          rw (e, timely, free) (now ∙ ground (arith, h))
    ]
  ]
]

-- The text of the source address fits into `buff`, and an `int` holds the end of a minute that the
-- packet opens.
abbrev pub Fits : Event → Type 0
Fits (parsed t) = (length t.source < sizeof_buff) × (t.seconds + timeint < 2 ^ 31)
Fits (file_end stat) = Unit

overrun_of-end_file : (stat : TraceStats) (b : DisplayStats) → (end_file stat b).overrun ≡ b.overrun
unfolding end_file set_stats
overrun_of-end_file stat b = elim (Bool-cases b.stats_available) [
  | inl set ↦ rw set refl
  | inr unset ↦ rw unset refl
]

pub overrun_of-handle_events :
    (es : List Event) (b : DisplayStats) → All Fits es → (handle_events es b).overrun ≡ b.overrun
unfolding handle_events handle_event
overrun_of-handle_events [] b fit = refl
overrun_of-handle_events (parsed t ∷ es) b fit =
    overrun_of-handle_events es _ fit.1 ∙ overrun_of-parse_pkt t b (omega (arith, fit.0.0))
overrun_of-handle_events (file_end stat ∷ es) b fit =
    overrun_of-handle_events es _ fit.1 ∙ overrun_of-end_file stat b

turn-end :
    (time : ℕ) (w : Window) → time + timeint < 2 ^ 31 → w.end < 2 ^ 31 → (turn time w).end < 2 ^ 31
turn-end time w fit lt = ground (arith, fit, lt)

see-end :
    (ethertype : Option ℕ) (t : Traced) (w : Window)
    → t.seconds + timeint < 2 ^ 31
    → w.end < 2 ^ 31
    → (see ethertype t w).end < 2 ^ 31
see-end none t w fit lt = lt
see-end (some ethertype) t w fit lt = elim (Bool-cases (ltb t.seconds w.start)) [
  | inl early ↦ rw early lt
  | inr timely ↦ rw timely (turn-end t.seconds w fit lt)
]

pub window-end :
    (es : List Event) (w : Window) → All Fits es → w.end < 2 ^ 31 → (window es w).end < 2 ^ 31
window-end [] w fit lt = lt
window-end (parsed t ∷ es) w fit lt =
    window-end es _ fit.1 (see-end (ether_type_of t.layer3 t.transport) t w fit.0.1 lt)
window-end (file_end stat ∷ es) w fit lt = window-end es _ fit.1 lt
