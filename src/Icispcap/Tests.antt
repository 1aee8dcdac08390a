-- ===== src/Icispcap/Tests.antt =====
-- Runs of the writer at concrete inputs, in which the conditions of the theorems hold.
use testofdumping.Prelude.{
  ℕ, List, [], ◌∷◌, Option, none, some, true, false, ◌≡◌, ◌≤◌, ◌⊎◌, refl, arith, length, take,
}
use testofdumping.Dump.Types.{lat_dump, Settings, Text, PcapHdr, codes, state}
use testofdumping.Icispcap.Reader.{capture}
use testofdumping.Icispcap.Writer.{Writer, Round, writer_run}
use testofdumping.Icispcap.Chunk.{out, IsCaptured}
use testofdumping.Icispcap.Handover.{capture-IsCaptured}
use testofdumping.Prelude.Int.{ℤ, pos, negsuc}
use testofdumping.Icispcap.Command.{Members, set_options}
use testofdumping.Icispcap.Command.Accepted.{Ends, set_options-Ends}
use testofdumping.Dump.Startup
use testofdumping.Dump.Startup.{Answers, pcap_create}
use testofdumping.Icispcap.Startup.{configure_calls, pcap_start_up}
use testofdumping.Icispcap.Startup.Alike.{EndAlike, pcap_start_up-EndAlike}
use testofdumping.Icispcap.Readback.{Packet, deliver_all, packets, read_back, writer_run-read_back}
use testofdumping.Dump.Consumer.Files.{GoesOn}
use testofdumping.Icispcap.Runs.{WritesRounds, writer_run_writes}

abbrev idle_writer : Writer
idle_writer = record {
  chunk = [];
  no_of_pkts = 0;
  filename = codes "cap";
  filerotate = true;
  interval = 60;
  pretime = 0;
  header = record {
    magic = 0;
    version_major = 0;
    version_minor = 0;
    thiszone = 0;
    sigfigs = 0;
    snaplen = 0;
    linktype = 0;
  };
  current = none;
  closed = [];
}

abbrev quiet : Round
quiet = record {
  got = none;
  thread_stop = false;
  current_time = 100;
  reopen_time = 100;
  fwrite = λ n. n;
  opened = true;
  errno = 0;
}

abbrev last_round : Round
last_round = record quiet { thread_stop = true }

-- A packet of three bytes.
abbrev head : PcapHdr
head = record { tv_sec = 1030; tv_usec = 5; caplen = 3; len = 9 }

abbrev content : List ℕ
content = 7 ∷ 8 ∷ 9 ∷ []

whole : IsCaptured (capture head content)
whole = (capture-IsCaptured head content (omega arith) refl).0

abbrev rounds : List Round
rounds = record quiet { got = some (capture head content) } ∷ last_round ∷ []

writer_run_writes_example :
    WritesRounds rounds idle_writer (writer_run 65535 quiet rounds idle_writer)
writer_run_writes_example =
    writer_run_writes 65535 quiet rounds idle_writer refl
      ((whole, λ n. refl), ((tt, λ n. refl), tt))

abbrev fed : List (Option Packet × Round)
fed =
    (some (head, content), quiet)
    ∷ (none, quiet)
    ∷ (some (head, content), quiet)
    ∷ (none, last_round)
    ∷ []

writer_run-read_back_example :
    let o = writer_run 65535 quiet (deliver_all fed) idle_writer in
    (n : ℕ) × (n ≤ length fed)
    × (read_back (out (state o)) ≡ some (packets (take n fed)))
    × ((n ≡ length fed) ⊎ (¬ GoesOn o))
writer_run-read_back_example = writer_run-read_back 65535 quiet fed idle_writer refl refl (
  (omega arith, refl, omega arith, λ n. refl),
  ((λ n. refl), ((omega arith, refl, omega arith, λ n. refl), ((λ n. refl), tt))),
)

abbrev members : Members
members = record {
  reader = record {
    m_interfacename = codes "eth0";
    fliterstr = codes "tcp";
    snaplen = pos 65535;
    m_bflag = false;
    m_buflen = 819200;
  };
  m_filename = codes "cap";
  m_filerotate = false;
  m_interval = 0;
}

abbrev always_60 : Text → ℤ
always_60 text = pos 60

abbrev given : List (ℕ × Text)
given = (b'i', codes "eth1") ∷ (b'R', codes "60") ∷ (b'f', codes "port 80") ∷ []

set_options-Ends_example : Ends given members (set_options always_60 given members)
set_options-Ends_example = set_options-Ends always_60 given members (omega arith, omega arith)

abbrev dumper : Settings
dumper = record {
  file_name = none;
  max_packets = 0;
  buffer_size = 8192;
  seconds_rotation = 0;
  max_rotations = pos 0;
  max_size = 0;
  snaplen = pos 96;
  interface_name = codes "eth0";
  filter_str = codes "tcp";
  buflen = 2097152;
}

-- The host's name is not to be had.
abbrev no_host : Answers
no_host = record {
  created = true;
  activate = pos 0;
  lookupnet = pos 0;
  hostname = negsuc 0;
  compile = pos 0;
  setfilter = pos 0;
}

pcap_start_up-EndAlike_example :
    EndAlike
      (pcap_create (codes "eth0") ∷ configure_calls members.reader)
      (pcap_create (codes "eth0") ∷ Startup.configure_calls lat_dump dumper)
      (pcap_start_up members.reader no_host)
      (Startup.pcap_start_up lat_dump dumper no_host)
pcap_start_up-EndAlike_example =
    pcap_start_up-EndAlike members.reader lat_dump dumper no_host (λ e. cc) refl refl
