-- ===== src/Programs/Tests.antt =====
-- The two programs over a rotation.
use testofdumping.Prelude.{ℕ, List, [], ◌∷◌, some, true}
use testofdumping.Prelude.Int.{pos, negsuc}
use testofdumping.Dump.Types.{Settings, Env, Mbuf, codes}
use testofdumping.Programs.LatDump
use testofdumping.Programs.LatSrcDump
use testofdumping.Programs.Twins.{AreTwins}
use testofdumping.Programs.TwinRuns.{consumers-AreTwins}

abbrev every_minute : Settings
every_minute = record {
  file_name = some (codes "cap");
  max_packets = 3;
  buffer_size = 8192;
  seconds_rotation = 60;
  max_rotations = negsuc 0;
  max_size = 0;
  snaplen = pos 65535;
  interface_name = [];
  filter_str = [];
  buflen = 2097152;
}

abbrev works : Env
works = record { clock_ok = true; linktype = pos 1; stats_ok = true; opened = true; renamed = true }

abbrev mbuf : ℕ → Mbuf
mbuf sec = record { tx_offload = sec; udata64 = 5; data_len = 1; pkt_len = 1; payload = 7 ∷ [] }

abbrev stream : List (Env × Mbuf)
stream = (works, mbuf 1030) ∷ (works, mbuf 1100) ∷ (works, mbuf 1101) ∷ []

consumers-AreTwins_example :
    AreTwins
      (LatDump.packet_consumer every_minute works 1000 stream)
      (LatSrcDump.packet_consumer every_minute works 1000 stream)
consumers-AreTwins_example = consumers-AreTwins every_minute works 1000 stream
