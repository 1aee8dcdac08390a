-- ===== src/Analyse/Reading/Tests.antt =====
-- A file that is read, and one that does not open.
use testofdumping.Prelude.{List, [], ◌∷◌, some, true, false, ◌≡◌, ◌↔◌, refl}
use testofdumping.Prelude.Int.{pos, negsuc, eq_ℤ}
use testofdumping.Dump.Types.{codes}
use testofdumping.Analyse.Display.{Traced, zero_stats}
use testofdumping.Analyse.Display.Events.{Event, parsed, file_end}
use testofdumping.Analyse.Reading.Accounted.{Run}
use testofdumping.Analyse.Reading.{
  Answers, Reading, going, misused, read_pcap_file, create_packet, create_trace, start_trace,
  with_trace, cleanup_if, libtrace_cleanup, destroy_trace, destroy_packet, is_live,
}
use testofdumping.Analyse.Reading.Handles.{read_all, read_pcap_file_iff}

abbrev one_packet : Traced
one_packet = record {
  wire_length = pos 60;
  source = codes "0:1:2";
  layer3 = some (0x0800, 40);
  transport = some 6;
  seconds = 100;
  direction = 1;
  falls_off = false;
}

abbrev opened : Answers
opened = record {
  packet_made = true;
  create_err = false;
  start = pos 0;
  reads = one_packet ∷ [];
  stats = zero_stats;
  read_err = false;
  renamed = true;
}

read_pcap_file_iff_example :
    (read_pcap_file opened (codes "cap7") ≡ going (read_all opened (codes "cap7"))) ↔ (
      (opened.packet_made ≡ true)
      × (opened.create_err ≡ false)
      × (eq_ℤ opened.start (negsuc 0) ≡ false)
      × (read_all opened (codes "cap7") ≡ read_all opened (codes "cap7")))
read_pcap_file_iff_example =
    read_pcap_file_iff opened (codes "cap7") (read_all opened (codes "cap7"))

abbrev run_of : (reads : List Traced) → Run
run_of reads = record {
  answers = record opened { reads = reads };
  file_name = codes "cap7";
  reading = read_all (record opened { reads = reads }) (codes "cap7");
  ended =
      (read_pcap_file_iff (record opened { reads = reads }) (codes "cap7")
          (read_all (record opened { reads = reads }) (codes "cap7"))).1
        (refl, refl, refl, refl);
}

-- Two threads, of which the second ends first, with a packet that is too early.
abbrev runs : List Run
runs =
    run_of (record one_packet { seconds = 130 } ∷ one_packet ∷ [])
    ∷ run_of (record one_packet { seconds = 170 } ∷ [])
    ∷ []

abbrev events : List Event
events =
    parsed (record one_packet { seconds = 130 })
    ∷ parsed (record one_packet { seconds = 170 })
    ∷ file_end zero_stats
    ∷ parsed one_packet
    ∷ file_end zero_stats
    ∷ []

-- Behind an error of trace_create, trace_start gets a trace that was destroyed.
unopened-misused :
    (r : Reading) × (read_pcap_file (record opened { create_err = true }) (codes "cap7")
      ≡ misused r)
unfolding read_pcap_file create_packet create_trace start_trace with_trace cleanup_if
    libtrace_cleanup destroy_trace destroy_packet is_live
unopened-misused = (_, refl)
