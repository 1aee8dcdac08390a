-- ===== src/Analyse/Display/Window.antt =====
-- What the display shows, against the packets of the current minute.
use testofdumping.Prelude.{
  ℕ, ◌+◌, ◌%◌, ◌^◌, List, [], ◌∷◌, ◌++◌, Option, none, some, Bool, true, false, ltb, ◌==◌,
  if◌then◌else◌, ◌≡◌, ◌⊎◌, length, text_eq, map,
}
use testofdumping.Dump.Types.{Text}
use testofdumping.Analyse.Display.{
  Traced, TcpPacket, TraceStats, zero_stats, add_stats, Printed, DisplayStats, find, average_of,
  data_len_of, ether_type_of,
}
use testofdumping.Analyse.Display.Events.{Event, parsed, file_end}
use testofdumping.Analyse.Display.Nodes.{sum_of, entry}

-- A packet that counts, with its source address.
abbrev pub Counted : Type 0
Counted = Text × TcpPacket

-- What is known of a minute: the counts of libtrace that it began with, those of the first file
-- that ended in it, and its packets.
pub record Interval : Type 0 where
  pub base : TraceStats
  pub first_file : Option TraceStats
  pub taken : List Counted

-- The minute that a packet opened, so far, and the minutes before.
pub record Window : Type 0 where
  pub start : ℕ
  pub end : ℕ
  pub current : Interval
  pub closed : List Interval

abbrev pub empty : TraceStats → Interval
empty base = record { base = base; first_file = none; taken = [] }

abbrev pub no_window : TraceStats → Window
no_window found = record { start = 0; end = 0; current = empty found; closed = [] }

-- A packet after the end opens a new minute.
abbrev pub turn : ℕ → Window → Window
turn time w =
    if w.end == 0
    then record w { start = time; end = time + 60 }
    else if ltb w.end time
    then record {
      start = time;
      end = time + 60;
      current = empty zero_stats;
      closed = w.closed ++ w.current ∷ [];
    }
    else w

-- A packet before the start is left out.
abbrev pub put : ℕ → Counted → Window → Window
put time x w =
    if ltb time w.start
    then w
    else let now = turn time w in
      record now { current = record (now.current) { taken = now.current.taken ++ x ∷ [] } }

abbrev pub packet_of : Traced → ℕ → TcpPacket
packet_of t ethertype = record {
  ether_type = ethertype;
  data_len = data_len_of t.wire_length;
  downlink = t.direction == 0;
}

abbrev pub see : Option ℕ → Traced → Window → Window
see none t w = w
see (some ethertype) t w = put t.seconds (t.source, packet_of t ethertype) w

-- A file ends: its counts matter where it is the first in the minute.
abbrev pub or_first : Option TraceStats → TraceStats → TraceStats
or_first none stat = stat
or_first (some first) stat = first

abbrev pub close_trace : TraceStats → Window → Window
close_trace stat w = record w {
  current = record (w.current) { first_file = some (or_first w.current.first_file stat) };
}

abbrev pub window : List Event → Window → Window
window [] w = w
window (parsed t ∷ rest) w = window rest (see (ether_type_of t.layer3 t.transport) t w)
window (file_end stat ∷ rest) w = window rest (close_trace stat w)

-- The packets of a source address.
abbrev pub of_node : Text → List Counted → List TcpPacket
of_node node [] = []
of_node node ((name, k) ∷ rest) =
    let others = of_node node rest in if text_eq name node then k ∷ others else others

abbrev pub all_bytes : List Counted → ℕ
all_bytes = sum_of (λ x. x.1.data_len)

abbrev pub is_some : Option TraceStats → Bool
is_some none = false
is_some (some stat) = true

abbrev pub with_file : TraceStats → Option TraceStats → TraceStats
with_file base none = base
with_file base (some stat) = add_stats base stat

abbrev pub stats_of : Interval → TraceStats
stats_of m = with_file m.base m.first_file

-- What is printed of a minute that is over.
abbrev pub printed_of : Interval → Printed
printed_of m =
    let n = length m.taken % 2 ^ 64 in
    let len = all_bytes m.taken % 2 ^ 64 in
    record { stats = stats_of m; packets = n; bytes = len; average = average_of n len }

-- The display shows the window: its packets in the totals; the counts of libtrace; for each node, in
-- its entry, which is there where the node has sent any; and in what was printed of the minutes
-- before. The window lasts a minute, where one has begun.
pub record Shows (w : Window) (b : DisplayStats) : Type 0 where
  pub start : b.cur_int_starttime ≡ w.start
  pub end : b.cur_int_endtime ≡ w.end
  pub packets : b.totalpkts ≡ length w.current.taken % 2 ^ 64
  pub all : b.totaldatalen ≡ all_bytes w.current.taken % 2 ^ 64
  pub stats : b.pcap_stats ≡ stats_of w.current
  pub available : b.stats_available ≡ is_some w.current.first_file
  pub nodes :
      (node : Text)
      → find node b.dashboard
        ≡ entry b.cur_int_starttime b.cur_int_endtime (of_node node w.current.taken)
  pub printed : b.printed ≡ map printed_of w.closed
  pub timed : ((w.end ≡ 0) × (w.current.taken ≡ [])) ⊎ (w.end ≡ w.start + 60)
