-- ===== src/Programs/L2Main.antt =====
-- src_lat/09Feb2016ICIS_pcap/main.c: the handlers and the thread that writes. Its packets come from
-- the ports, not from pcap_next_ex.
use testofdumping.Prelude.{ℕ, List}
use testofdumping.Dump.Types.{l2_main, Mbuf, Settings, Env, Outcome}
use testofdumping.Dump.Consumer
use testofdumping.Dump.Consumer.{Consumer, consumer}

unfoldable pub sig_handler : Env → ℕ → Consumer → Outcome Consumer
sig_handler = Consumer.sig_handler l2_main

unfoldable pub alarm_routine : Env → Consumer → Outcome Consumer
alarm_routine = Consumer.alarm_routine l2_main

-- The loop of the thread that writes, with what precedes it.
unfoldable pub packet_consumer : Settings → Env → ℕ → List (Env × Mbuf) → Outcome Consumer
packet_consumer = consumer l2_main
