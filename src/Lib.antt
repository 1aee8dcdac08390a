-- ===== src/Lib.antt =====
-- A packet recorder, in two generations.
--
-- src/main_dump.c and its relatives src/main_icispcap.c, src_lat/main_dump.c,
-- src_lat/src/main_dump.c and src_lat/09Feb2016ICIS_pcap/main.c are DPDK programs of two threads:
-- one reads packets into buffers of a pool and queues the buffers on a ring, the other takes them
-- off, writes them to capture files that rotate, and ends the process at a limit or on SIGINT. The
-- two programs in src_lat that rename their files name them by the second, so that a file can take
-- the place of another, which `replace` marks: `written` is all that was ever written to files, and
-- `held` what the files that were not replaced hold.
-- main.cc, PacketReader.cc and PacketWriter.cc are an older program: a reading thread copies packets
-- into a queue, a writing thread collects them in a chunk of memory and flushes that to rotating
-- files.
-- ANALYSEPCAP looks for finished capture files and counts what is in them.
-- src/allocatemem.cc is a program of its own that tries out operators new and delete.
--
-- Where the code is:
--   Dump.Types     the data, and in `Program` the points where the five dumpers differ
--   Dump.Consumer  main_loop_consumer and packet_consumer (`consumer`, `consumer_step`, `rotate`,
--                  `write`, `check_limits`), print_stats, alarm_routine, sig_handler
--   Dump.Producer  main_loop_producer and packet_producer, one call of pcap_next_ex a step
--   Dump.System    the two on their ring: `Step` is an iteration of either thread, `Reach` any
--                  interleaving of them, with the pool of buffers; Held is about the files
--   Dump.Startup   PcapStartUp, as the list of calls that it makes
--   Options        parse_args and isPowerOfTwo
--   Options.Boot   main up to the loops, with init_port
--   Programs       the other four dumpers as instances of the model
--   L2             icis_parse_args of src_lat/09Feb2016ICIS_pcap/main.c
--   L2.Ports       its pairing of ports and their assignment to cores, from main
--   L2.Links       its check_all_ports_link_status
--   L2.Stats       its packet_producer and print_stats
--   L2.Main        its main up to the threads
--   Icispcap       PacketReader.cc (Reader, Startup) and PacketWriter.cc (Writer); the options of
--                  main.cc (Command), and its two threads on their queue with the handler that
--                  stops them (System)
--   Analyse.Display  displayStats and protocolTCP of ANALYSEPCAP: ParsePkt, addPkt, bandWidthCalc;
--                  Events is what the threads do to it, in order
--   Analyse.Reading  readPcapFile, with the objects of libtrace that it creates and destroys
--   Analyse.Threads  the loop of ANALYSEPCAP's main, with its array of threads
--   Analyse        isPcapfileReady and the directory scan of ANALYSEPCAP/main.cpp
--   AllocateMem    src/allocatemem.cc: the operators that keep freed blocks, and their program
--   Prelude        lists, integers, binary digits and decimal numerals that these share
-- The modules below a component are proofs about it; those named Tests hold runs at concrete
-- inputs.
--
-- How the code is read: a thread's globals are a record, and an operation returns an `Outcome`: the
-- state to go on with, the exit code with which the process ends, or the reason why it is undefined
-- behaviour. What libpcap, DPDK, the C library, the clock and the queue answer is an input (`Read`,
-- `Env`, `Answers`, `Boot`, `IcisBoot`, `Round`, `Call`, `Pass`, `Traced`). Loops that never return
-- run over the list of what arrives. Counters wrap at their width, which is written out. The
-- conversion of numbers to decimal runs on fuel, one unit more than the number, and the numerals are
-- proved to differ.
--
-- What is not modelled: the text that is printed; readerwriterqueue.h and atomicops.h (a library),
-- rte_eth_pcap.c (a copy of DPDK's driver); SetThreadAttributes of PacketReader and PacketWriter
-- (system calls only); addSession and displaymetrics of ANALYSEPCAP (the one never called, the other
-- only printing) and its option for the name of the log. An iteration of a thread is one step, that
-- of the older program's reader two; the threads of ANALYSEPCAP change the display one event after
-- another, the check of the interval before the lock with what follows it. sig_handler is that of
-- the time after PcapStartUp; a signal before it is not modelled. The buffers for file names (1000
-- bytes) are taken to be large enough, and rename and fopen to work on a file system that nothing
-- else writes to. What the display does once `buff` is overrun, or a time does not fit into an int,
-- is undefined in the code: its statements on what is shown assume that neither happens.
pub mod Prelude
pub mod Dump
pub mod Options
pub mod Programs
pub mod L2
pub mod Icispcap
pub mod Analyse
pub mod AllocateMem
