-- ===== src/Programs/MainIcispcap.antt =====
-- src/main_icispcap.c: its handlers, its two threads and its command line, as they are in this program.
use testofdumping.Prelude.{ℕ, List, Option, Bool}
use testofdumping.Prelude.Int.{ℤ}
use testofdumping.Dump.Types.{main_icispcap, Text, Mbuf, Settings, Env, Outcome}
use testofdumping.Dump.Consumer
use testofdumping.Dump.Consumer.{Consumer, consumer}
use testofdumping.Dump.Producer.{Producer, Read, producer_step}
use testofdumping.Dump.Startup
use testofdumping.Dump.Startup.{PcapCall, Answers}
use testofdumping.Options
use testofdumping.Options.{Parsed}
use testofdumping.Options.Boot
use testofdumping.Options.Boot.{Boot, PortAnswers, boot}

unfoldable pub print_stats : Env → Option ℕ
print_stats = Consumer.print_stats main_icispcap

unfoldable pub alarm_routine : Env → Consumer → Outcome Consumer
alarm_routine = Consumer.alarm_routine main_icispcap

unfoldable pub sig_handler : Env → ℕ → Consumer → Outcome Consumer
sig_handler = Consumer.sig_handler main_icispcap

-- The loop of the thread that writes, with what precedes it.
unfoldable pub main_loop_consumer : Settings → Env → ℕ → List (Env × Mbuf) → Outcome Consumer
main_loop_consumer = consumer main_icispcap

-- One iteration of the thread that reads.
unfoldable pub main_loop_producer : ℕ → Bool → Read → Producer → Outcome (Producer × Option Mbuf)
main_loop_producer = producer_step main_icispcap

unfoldable pub parse_args : (atoi atol : Text → ℤ) → List (ℕ × Text) → Settings → Parsed
parse_args atoi atol = Options.parse_args atoi atol main_icispcap

-- Up to the thread that writes.
unfoldable pub main : (atoi atol : Text → ℤ) → Boot → List (ℕ × Text) → Settings → Outcome Settings
main atoi atol = boot atoi atol main_icispcap

unfoldable pub pcap_start_up : Settings → Answers → Outcome (List PcapCall)
pcap_start_up = Startup.pcap_start_up main_icispcap

unfoldable pub is_power_of_two : ℕ → Bool
is_power_of_two = Options.is_power_of_two

-- As it is called for each port.
unfoldable pub init_port : PortAnswers → Settings → Outcome Settings
init_port = Boot.init_port
