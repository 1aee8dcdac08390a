-- ===== src/Analyse/Reading.antt =====
-- ANALYSEPCAP/main.cpp: readPcapFile, the thread of one file, with the objects of libtrace that it
-- creates and destroys. libtrace is an input: what its calls answer.
pub mod Handles
pub mod Accounted
mod Tests
use testofdumping.Prelude.{
  ℕ, zero, suc, ◌+◌, ◌%◌, ◌^◌, List, [], ◌∷◌, ◌++◌, Option, none, some, Bool, true, false, ◌&&◌,
  if◌then◌else◌,
}
use testofdumping.Prelude.Int.{ℤ, negsuc, eq_ℤ}
use testofdumping.Dump.Types.{Text, codes}
use testofdumping.Analyse.Display.{Traced, TraceStats}
use testofdumping.Analyse.Display.Events.{Event, parsed, file_end}

-- DIRPATH.
abbrev pub dirpath : Text
dirpath = codes "/apps/opt/LIBTRACE/test/"

-- A pointer to an object of libtrace: NULL, one that can be used, one that was destroyed.
pub data Handle : Type 0 where
  null live destroyed : Handle

-- What the calls answer: whether trace_create_packet gives a packet; whether trace_is_err reports
-- an error behind trace_create; the result of trace_start; the packets that trace_read_packet reads
-- before it gives 0 or less; the counts; whether trace_is_err reports an error behind the loop; and
-- whether rename works.
pub record Answers : Type 0 where
  pub packet_made : Bool
  pub create_err : Bool
  pub start : ℤ
  pub reads : List Traced
  pub stats : TraceStats
  pub read_err : Bool
  pub renamed : Bool

-- `trace` and `packet`; `count`, as it is logged; what the thread did to the display; the name of the file.
pub record Reading : Type 0 where
  pub trace : Handle
  pub packet : Handle
  pub count : ℕ
  pub events : List Event
  pub name : Text

-- The thread goes on, or passes libtrace what is no object.
pub data Progress : Type 0 where
  going misused : Reading → Progress

infixl 20 ◌>>=◌
abbrev pub ◌>>=◌ : Progress → (Reading → Progress) → Progress
going r >>= f = f r
misused r >>= f = misused r

unfoldable pub is_live : Handle → Bool
is_live null = false
is_live live = true
is_live destroyed = false

-- A call that takes the trace, and one that also takes the packet.
unfoldable pub with_trace : (Reading → Progress) → Reading → Progress
with_trace call r = if is_live r.trace then call r else misused r

unfoldable pub with_both : (Reading → Progress) → Reading → Progress
with_both call r = if is_live r.trace && is_live r.packet then call r else misused r

unfoldable pub destroy_trace : Handle → Reading → Progress
destroy_trace null r = going r
destroy_trace live r = going (record r { trace = destroyed })
destroy_trace destroyed r = misused r

unfoldable pub destroy_packet : Handle → Reading → Progress
destroy_packet null r = going r
destroy_packet live r = going (record r { packet = destroyed })
destroy_packet destroyed r = misused r

unfoldable pub libtrace_cleanup : Reading → Progress
libtrace_cleanup r = destroy_trace r.trace r >>= destroy_packet r.packet

unfoldable pub cleanup_if : Bool → Reading → Progress
cleanup_if failed r = if failed then libtrace_cleanup r else going r

unfoldable pub create_packet : Bool → Reading → Progress
create_packet made r = if made then going (record r { packet = live }) else libtrace_cleanup r

unfoldable pub create_trace : Bool → Reading → Progress
create_trace err r = cleanup_if err (record r { trace = live })

unfoldable pub start_trace : ℤ → Reading → Progress
start_trace result = with_trace (cleanup_if (eq_ℤ result (negsuc 0)))

-- `per_packet`, and the count.
unfoldable pub per_packet : Traced → Reading → Progress
per_packet t r =
    going (record r { events = r.events ++ parsed t ∷ []; count = (r.count + 1) % 2 ^ 64 })

-- The loop, with the packets left. The call that ends it takes both objects, too.
unfoldable pub read_loop : List Traced → Reading → Progress
read_loop [] r = with_both going r
read_loop (t ∷ ts) r = with_both (per_packet t) r >>= read_loop ts

-- The counts of the trace go to the display.
unfoldable pub give_stats : TraceStats → Reading → Progress
give_stats stats = with_trace (λ r. going (record r { events = r.events ++ file_end stats ∷ [] }))

unfoldable pub complete : Bool → Reading → Progress
complete renamed r = going (if renamed then record r { name = r.name ++ codes ".completed" } else r)

abbrev pub unread : Text → Reading
unread file_name = record {
  trace = null;
  packet = null;
  count = 0;
  events = [];
  name = dirpath ++ file_name;
}

-- `readPcapFile`.
unfoldable pub read_pcap_file : Answers → Text → Progress
read_pcap_file a file_name =
    create_packet a.packet_made (unread file_name)
    >>= create_trace a.create_err
    >>= start_trace a.start
    >>= read_loop a.reads
    >>= give_stats a.stats
    >>= with_trace (cleanup_if a.read_err)
    >>= complete a.renamed
