-- ===== src/Programs/LatSrcDump.antt =====
-- src_lat/src/main_dump.c: its handlers, its two threads and its command line, as they are in this program.
use testofdumping.Prelude.{ℕ, List, Option, Bool}
use testofdumping.Prelude.Int.{ℤ}
use testofdumping.Dump.Types.{lat_src_dump, Text, Mbuf, Settings, Env, Outcome}
use testofdumping.Dump.Consumer
use testofdumping.Dump.Consumer.{Consumer, consumer}
use testofdumping.Dump.Producer.{Producer, Read, producer_step}
use testofdumping.Dump.Startup
use testofdumping.Dump.Startup.{PcapCall, Answers}
use testofdumping.Options
use testofdumping.Options.{Parsed}
use testofdumping.Options.Boot.{Boot, boot}

unfoldable pub print_stats : Env → Option ℕ
print_stats = Consumer.print_stats lat_src_dump

unfoldable pub alarm_routine : Env → Consumer → Outcome Consumer
alarm_routine = Consumer.alarm_routine lat_src_dump

unfoldable pub sig_handler : Env → ℕ → Consumer → Outcome Consumer
sig_handler = Consumer.sig_handler lat_src_dump

-- The loop of the thread that writes, with what precedes it.
unfoldable pub packet_consumer : Settings → Env → ℕ → List (Env × Mbuf) → Outcome Consumer
packet_consumer = consumer lat_src_dump

-- One iteration of the thread that reads.
unfoldable pub packet_producer : ℕ → Bool → Read → Producer → Outcome (Producer × Option Mbuf)
packet_producer = producer_step lat_src_dump

unfoldable pub parse_args : (atoi atol : Text → ℤ) → List (ℕ × Text) → Settings → Parsed
parse_args atoi atol = Options.parse_args atoi atol lat_src_dump

-- Up to the thread that writes.
unfoldable pub main : (atoi atol : Text → ℤ) → Boot → List (ℕ × Text) → Settings → Outcome Settings
main atoi atol = boot atoi atol lat_src_dump

unfoldable pub pcap_start_up : Settings → Answers → Outcome (List PcapCall)
pcap_start_up = Startup.pcap_start_up lat_src_dump

unfoldable pub is_power_of_two : ℕ → Bool
is_power_of_two = Options.is_power_of_two
