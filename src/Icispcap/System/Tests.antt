-- ===== src/Icispcap/System/Tests.antt =====
-- A packet that is read, and the stop that follows, or that comes first.
use testofdumping.Prelude.{ℕ, List, [], ◌∷◌, ◌++◌, none, some, true, false, ◌≡◌, refl, arith, map}
use testofdumping.Prelude.Int.{pos}
use testofdumping.Dump.Types.{PcapHdr, codes, state}
use testofdumping.Icispcap.Reader.{capture, reader_step, write_pkt_to_buf}
use testofdumping.Icispcap.Writer.{Writer, Round, writer_step, dequeue, cleanup}
use testofdumping.Icispcap.Chunk.{bodies, out, Ready}
use testofdumping.Icispcap.Readback.{Packet, read_back}
use testofdumping.Icispcap.System.{
  Setup, System, IsGiven, Step, read_begin, read_packet, stop_reader, stop_writer, write_end, Reach,
  here, later, at_start,
}
use testofdumping.Icispcap.System.Invariant.{kept, Holds}
use testofdumping.Icispcap.System.Placed.{reach_read_back}
use testofdumping.Icispcap.System.Stopped.{took, late_packet_lost}
use testofdumping.Icispcap.System.Finish.{writer_finishes}

abbrev setup : Setup
setup = record {
  snaplen = 65535;
  link = record {
    clock_ok = true;
    linktype = pos 1;
    stats_ok = true;
    opened = true;
    renamed = true;
  };
  fwrite = λ n. n;
}

abbrev open_writer : Writer
open_writer = record {
  chunk = [];
  no_of_pkts = 0;
  filename = codes "cap";
  filerotate = true;
  interval = 60;
  pretime = 100;
  header = record {
    magic = 0;
    version_major = 0;
    version_minor = 0;
    thiszone = 0;
    sigfigs = 0;
    snaplen = 0;
    linktype = 0;
  };
  current = some (record { name = codes "cap100.pcap"; head = []; body = [] });
  closed = [];
}

open_writer-Ready : Ready open_writer
open_writer-Ready = record {
  open_file = (record { name = codes "cap100.pcap"; head = []; body = [] }, refl);
  room = omega arith;
}

abbrev later_round : ℕ → Round
later_round n = record {
  got = none;
  thread_stop = false;
  current_time = 200;
  reopen_time = 200;
  fwrite = λ n. n;
  opened = true;
  errno = 0;
}

-- A packet of three bytes.
abbrev head : PcapHdr
head = record { tv_sec = 1030; tv_usec = 5; caplen = 3; len = 9 }

abbrev content : List ℕ
content = 7 ∷ 8 ∷ 9 ∷ []

head-IsGiven : IsGiven setup head content
head-IsGiven = record { short = omega arith; full = refl; word = omega arith }

abbrev reading : System
reading = record (at_start open_writer) { reading = true }

-- The packet is read, and both threads are told to stop.
abbrev read_then_stopped : System
read_then_stopped = record (took setup head content reading) {
  reader_stop = true;
  writer_stop = true;
}

there : Reach setup (at_start open_writer) read_then_stopped
unfolding reader_step write_pkt_to_buf
there =
    later
      (later
        (later (later here (read_begin refl refl refl))
          (read_packet head content true _ refl head-IsGiven refl))
        stop_reader)
      (stop_writer refl)

reach_read_back_example :
    (filed : List Packet) × (waiting : List Packet) × (read_then_stopped.given ≡ filed ++ waiting)
    × (read_back (out read_then_stopped.writer) ≡ some (map kept filed))
    × Holds waiting read_then_stopped.buffer
reach_read_back_example =
    reach_read_back setup (omega arith) (λ n. refl) open_writer open_writer-Ready refl there

writer_finishes_example :
    (t : System) × Reach setup read_then_stopped t
    × (t.writer_ended ≡ true)
    × (t.buffer ≡ [])
    × (read_back (bodies t.writer.closed) ≡ some (map kept read_then_stopped.given))
writer_finishes_example =
    writer_finishes setup (omega arith) (λ n. refl) later_round (λ n. refl) open_writer
      open_writer-Ready refl there refl refl

-- The writer has ended while the reader waits for a packet.
abbrev too_late : System
too_late = record reading {
  reader_stop = true;
  writer_stop = true;
  writer_ended = true;
  writer = state (writer_step 65535 (record (later_round 0) { thread_stop = true }) open_writer);
}

too_late-Reach : Reach setup (at_start open_writer) too_late
unfolding writer_step dequeue cleanup
too_late-Reach =
    later (later (later (later here (read_begin refl refl refl)) stop_reader) (stop_writer refl))
      (write_end (later_round 0) _ refl refl refl refl)

late_packet_lost_example :
    Step setup too_late (took setup head content too_late)
    × ((more : List _) × ((took setup head content too_late).buffer
          ≡ too_late.buffer ++ capture head content ∷ more))
    × ((took setup head content too_late).writer ≡ too_late.writer)
late_packet_lost_example =
    late_packet_lost setup too_late (took setup head content too_late) head content (omega arith)
      refl refl head-IsGiven here
