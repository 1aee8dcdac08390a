-- ===== src/Analyse/Display/Tests.antt =====
-- Packets of two minutes, from two sources.
use testofdumping.Prelude.{ℕ, List, [], ◌∷◌, some, Bool, true, false, ◌≡◌, refl, arith, text_eq}
use testofdumping.Prelude.Int.{pos}
use testofdumping.Dump.Types.{Text, codes}
use testofdumping.Analyse.Display.{
  ProtocolTcp, Traced, DisplayStats, rejected, deadlocked, new_board, find, parse_pkt, read_packets,
  board_of, ether_type_of, has_transport, parse_with, add_pkt, turn_interval, fill_buff,
  count_packet, add_to_node, get_proto_base, make_entry, new_protocol, add_tcp, change, printstats,
  clear_stats, cleardash_b, set_stats, data_len_of, TraceStats, average_of,
}
use testofdumping.Analyse.Display.Events.{
  Event, parsed, file_end, end_file, handle_event, handle_events,
}
use testofdumping.Analyse.Display.Nodes.{summary}
use testofdumping.Analyse.Display.Sticks.{IsTimely, missing_result_sticks}

abbrev near : Text
near = codes "0:1:2"

abbrev far : Text
far = codes "0:1:3"

abbrev traced : Text → ℕ → Bool → Traced
traced source seconds off = record {
  wire_length = pos 60;
  source = source;
  layer3 = some (0x0800, 40);
  transport = some 6;
  seconds = seconds;
  direction = 1;
  falls_off = off;
}

abbrev packets : List Traced
packets =
    traced near 100 false
    ∷ traced far 130 false
    ∷ traced near 161 false
    ∷ traced near 110 false
    ∷ []

abbrev counts : ℕ → TraceStats
counts n = record {
  accepted = n;
  filtered = 0;
  received = n;
  dropped = 0;
  captured = n;
  errors = 0;
}

-- Two files end in the first minute.
abbrev events : List Event
events =
    parsed (traced near 100 false)
    ∷ file_end (counts 5)
    ∷ parsed (traced far 130 false)
    ∷ file_end (counts 7)
    ∷ parsed (traced near 161 false)
    ∷ []

abbrev start : DisplayStats
start = new_board (counts 0)

-- Of the two files, the first counts.
first_file_printed :
    (handle_events events start).printed
    ≡ record { stats = counts 5; packets = 2; bytes = 120; average = 7 } ∷ []
unfolding find handle_events handle_event end_file set_stats parse_pkt parse_with add_pkt
    ether_type_of has_transport turn_interval fill_buff count_packet add_to_node get_proto_base
    make_entry new_protocol add_tcp change printstats clear_stats cleardash_b data_len_of text_eq
    average_of
first_file_printed = refl

abbrev near_entry : ProtocolTcp
near_entry = summary 161 221 (record { ether_type = 0x0800; data_len = 60; downlink = false } ∷ [])

timely : (off : Bool) (source : Text) → IsTimely (traced source 100 off) start
unfolding ether_type_of has_transport
timely off source = record { is_tcp = (0x0800, refl); in_time = omega arith }

-- The display whose lock was left held.
abbrev stuck : DisplayStats
stuck = board_of (parse_pkt (traced near 100 true) start)

second-IsTimely : IsTimely (traced far 120 false) stuck
unfolding ether_type_of has_transport parse_pkt parse_with add_pkt turn_interval fill_buff
    count_packet add_to_node get_proto_base make_entry find
second-IsTimely = record { is_tcp = (0x0800, refl); in_time = omega arith }

missing_result_sticks_example :
    (parse_pkt (traced near 100 true) start ≡ rejected stuck)
    × (stuck.dis_lock ≡ true)
    × (read_packets packets stuck ≡ stuck)
    × (parse_pkt (traced far 120 false) (read_packets packets stuck) ≡ deadlocked stuck)
missing_result_sticks_example =
    missing_result_sticks (traced near 100 true) start packets (traced far 120 false)
      (timely true near) refl refl second-IsTimely
