-- ===== src/Analyse/Display/Events.antt =====
-- What the threads do to the display, in the order in which it happens: they parse packets, and at
-- the end of a file they hand over the counts of libtrace, unless some file already has.
use testofdumping.Prelude.{List, [], ◌∷◌, if◌then◌else◌}
use testofdumping.Analyse.Display.{Traced, TraceStats, DisplayStats, set_stats, board_of, parse_pkt}

pub data Event : Type 0 where
  parsed : Traced → Event
  file_end : TraceStats → Event

unfoldable pub end_file : TraceStats → DisplayStats → DisplayStats
end_file stat b = if b.stats_available then b else set_stats stat b

unfoldable pub handle_event : Event → DisplayStats → DisplayStats
handle_event (parsed t) b = board_of (parse_pkt t b)
handle_event (file_end stat) b = end_file stat b

unfoldable pub handle_events : List Event → DisplayStats → DisplayStats
handle_events [] b = b
handle_events (e ∷ es) b = handle_events es (handle_event e b)
