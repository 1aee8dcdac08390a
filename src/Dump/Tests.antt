-- ===== src/Dump/Tests.antt =====
-- Runs of the dumpers at concrete inputs, in which the conditions of the theorems hold.
use testofdumping.Prelude.{
  ℕ, ◌+◌, ◌%◌, ◌^◌, ◌≤◌, ◌<◌, List, [], ◌∷◌, ◌++◌, none, some, true, false, ◌≡◌, ◌≢◌, refl, ◌⊎◌,
  arith, length, take, ltb, map,
}
use testofdumping.Prelude.Int.{pos, negsuc}
use testofdumping.Dump.Types.{
  main_dump, main_icispcap, lat_dump, l2_main, PcapHdr, Mbuf, Settings, Env, codes, no_buffer,
  overrun_array, state, next, fault, exit, no_handle, ready_suffix,
}
use testofdumping.Dump.Consumer.{Consumer, blank, consumer, entry_of}
use testofdumping.Dump.Consumer.Files.{written, held, AllThere, GoesOn}
use testofdumping.Dump.Consumer.Written.{wanted}
use testofdumping.Dump.Consumer.Runs.{RunLimited}
use testofdumping.Dump.Consumer.Rotation.{Rotated}
use testofdumping.Dump.Consumer.Numbering.{numbered, Distinct}
use testofdumping.Dump.Consumer.Names.{names}
use testofdumping.Dump.Consumer.Whole.{
  consumer_writes_prefix, consumer_within_limits, consumer_stops_at_limit, consumer_rotates,
  consumer-names-Distinct,
}
use testofdumping.Dump.Producer.{
  Producer, packet, producer_step, too_big, pool_data_room, headroom, fill, note_header, handle,
  buf_size,
}
use testofdumping.Dump.Producer.Bounds.{too_big-pool_data_room, producer_step-pool_data_room}
use testofdumping.Dump.Producer.Fidelity.{faithful, captured_entry}
use testofdumping.Dump.Startup.{pcap_create, Answers, pcap_start_up}
use testofdumping.Dump.Startup.Order.{
  AllAnswered, activation, final_calls, failure_code, failure_calls, pcap_start_up_ends,
}
use testofdumping.Dump.System.{Setup, System, Reach, start, later, read_queued}
use testofdumping.Dump.System.Drains.{Writes, ring_drains}
use testofdumping.Dump.System.Buffers.{Placed, backlog_faults}
use testofdumping.Dump.System.Held.{Reach-Held, nothing_lost}

-- A system that answers.
abbrev answers : Env
answers = record {
  clock_ok = true;
  linktype = pos 1;
  stats_ok = true;
  opened = true;
  renamed = true;
}

abbrev settings : Settings
settings = record {
  file_name = some (codes "cap");
  max_packets = 2;
  buffer_size = 1048576;
  seconds_rotation = 60;
  max_rotations = negsuc 0;
  max_size = 0;
  snaplen = pos 65535;
  interface_name = [];
  filter_str = [];
  buflen = 0;
}

abbrev buffer_at : ℕ → Mbuf
buffer_at sec = record {
  tx_offload = sec;
  udata64 = 5;
  data_len = 3;
  pkt_len = 9;
  payload = 7 ∷ 8 ∷ 9 ∷ [];
}

-- Two packets a hundred seconds apart, and one that comes too late.
abbrev packets : List (Env × Mbuf)
packets = (answers, buffer_at 1030) ∷ (answers, buffer_at 1130) ∷ (answers, buffer_at 1131) ∷ []

consumer_writes_prefix_example :
    (n : ℕ) × (n ≤ length packets)
    × (written (state (consumer main_dump settings answers 1000 packets))
        ≡ take n (wanted main_dump packets))
    × ((n ≡ length packets) ⊎ (¬ GoesOn (consumer main_dump settings answers 1000 packets)))
    × ((held (state (consumer main_dump settings answers 1000 packets))
          ≡ take n (wanted main_dump packets))
        ⊎ (ready_suffix main_dump ≢ none))
consumer_writes_prefix_example =
    consumer_writes_prefix main_dump settings answers 1000 packets (codes "cap") refl refl refl

consumer_within_limits_example :
    RunLimited settings (consumer main_dump settings answers 1000 packets)
consumer_within_limits_example =
    consumer_within_limits main_dump settings answers 1000 packets (codes "cap") refl refl refl
      (record { packets = omega arith; size = omega arith })
      (omega arith, (omega arith, (omega arith, tt)))

consumer_stops_at_limit_example : ¬ GoesOn (consumer main_dump settings answers 1000 packets)
consumer_stops_at_limit_example =
    consumer_stops_at_limit main_dump settings answers 1000 packets (codes "cap") refl refl refl
      (record { packets = omega arith; size = omega arith })
      (omega arith, (omega arith, (omega arith, tt))) (omega arith) (omega arith)

consumer_rotates_example :
    (Rotated settings (state (consumer l2_main settings answers 1000 packets))
      ⊎ (¬ GoesOn (consumer l2_main settings answers 1000 packets)))
    × (AllThere (state (consumer l2_main settings answers 1000 packets))
        ⊎ (ready_suffix l2_main ≢ none))
consumer_rotates_example =
    consumer_rotates l2_main settings answers 1000 packets (codes "cap") refl refl refl
      (omega arith)

consumer-names-Distinct_example :
    let c' = state (consumer main_icispcap settings answers 1000 packets) in
    ((n : ℕ) × (names c' ≡ numbered (codes "cap") n)) × Distinct (names c')
unfolding ready_suffix
consumer-names-Distinct_example =
    consumer-names-Distinct main_icispcap settings answers 1000 packets (codes "cap") refl refl refl
      refl

-- An open file with nothing in it.
abbrev ready : Consumer
ready = record blank {
  last_rotation = 1000;
  is_open = true;
  current = record { name = codes "cap"; replaced = false; since = 1000; entries = [] };
}

abbrev header : PcapHdr
header = record { tv_sec = 1030; tv_usec = 5; caplen = 3; len = 9 }

too_big-pool_data_room_example :
    (too_big (pool_data_room 65535) header ≡ ltb 65535 header.caplen)
    × (((65535 < 65408) × (pool_data_room 65535 ≡ headroom + 65535))
        ⊎ ((65408 ≤ 65535) × (pool_data_room 65535 < headroom)))
too_big-pool_data_room_example = too_big-pool_data_room 65535 header (omega arith)

abbrev idle : Producer
idle = record { hdr = none; nb_captured_packets = 0 }

abbrev content : List ℕ
content = 7 ∷ 8 ∷ 9 ∷ []

abbrev noted : Producer
noted = record { hdr = some header; nb_captured_packets = 0 }

producer_step-pool_data_room_example :
    let outcome =
      producer_step main_dump (pool_data_room 65535) true (packet header content) idle in
    ((65535 < 65408)
      × (outcome
          ≡ next (
            record noted { nb_captured_packets = (0 + 1) % 2 ^ 64 },
            some (fill main_dump header content),
          )))
    ⊎ ((65408 ≤ 65535) × (outcome ≡ fault overrun_array (noted, none)))
producer_step-pool_data_room_example =
    producer_step-pool_data_room main_dump 65535 header content idle (omega arith) (omega arith)
      (omega arith)

reads :
    producer_step main_dump 2176 true (packet header content) idle
    ≡ next (
      record { hdr = some header; nb_captured_packets = 1 },
      some (fill main_dump header content),
    )
unfolding producer_step note_header too_big buf_size handle
reads = refl

captured_entry_example :
    entry_of main_dump (fill main_dump header content) ≡ faithful main_dump header content
captured_entry_example =
    captured_entry main_dump 2176 header content idle
      (record { hdr = some header; nb_captured_packets = 1 }) (fill main_dump header content) refl
      reads

abbrev setup : Setup
setup = record {
  program = main_dump;
  settings = settings;
  base = codes "cap";
  room = 2176;
  pool = 1;
  ring_cap = 1;
}

-- One packet is on the ring, and the pool is empty.
abbrev full : System
full = record {
  prod = record { hdr = some header; nb_captured_packets = 1 };
  ring = fill main_dump header content ∷ [];
  free = 0;
  cons = ready;
  queued = fill main_dump header content ∷ [];
  lost = [];
}

full-Reach : Reach setup ready full
full-Reach = later start (
    read_queued (packet header content) (record { hdr = some header; nb_captured_packets = 1 })
      (fill main_dump header content) reads (omega arith) (omega arith))

main_dump-plain : ready_suffix main_dump ≡ none
unfolding ready_suffix
main_dump-plain = refl

ready-names : names ready ≡ numbered (codes "cap") 0
ready-names = refl

ready-AllThere : AllThere ready
ready-AllThere = (refl, tt)

Reach-Held_example :
    Placed setup full
    × AllThere full.cons
    × (held full.cons ++ map (entry_of main_dump) full.ring ≡ map (entry_of main_dump) full.queued)
Reach-Held_example = Reach-Held main_dump-plain refl ready-names ready-AllThere refl full-Reach

nothing_lost_example :
    (full.lost ≡ [])
    × (full.prod.nb_captured_packets ≡ (length (held full.cons) + length full.ring) % 2 ^ 64)
nothing_lost_example =
    nothing_lost main_dump-plain (omega arith) refl ready-names ready-AllThere refl full-Reach

-- The same with options that set no limit.
abbrev unlimited : Setup
unlimited = record setup { settings = record settings { max_packets = 0 } }

unlimited-Reach : Reach unlimited ready full
unlimited-Reach = later start (
    read_queued (packet header content) (record { hdr = some header; nb_captured_packets = 1 })
      (fill main_dump header content) reads (omega arith) (omega arith))

ring_drains_example :
    (t : System) × Writes unlimited full t
    × (t.ring ≡ [])
    × (held t.cons ≡ map (entry_of main_dump) full.queued)
    × (t.free + length full.lost ≡ 1)
ring_drains_example =
    ring_drains (λ n. answers) (λ n. refl)
      (record { packets = refl; size = refl; rotations = refl }) main_dump-plain refl ready-names
      ready-AllThere refl unlimited-Reach

header_fits : too_big 2176 header ≡ false
unfolding too_big buf_size
header_fits = refl

no_buffer_left : false ≡ true → 0 < 0
no_buffer_left e = cc

backlog_faults_example :
    (q : Producer) × (producer_step main_dump 2176 false (packet header content) full.prod
      ≡ fault no_buffer (q, none))
backlog_faults_example =
    backlog_faults header content false refl refl full-Reach refl header_fits no_buffer_left

-- An interface whose filter does not compile.
abbrev bad_filter : Answers
bad_filter = record {
  created = true;
  activate = pos 0;
  lookupnet = pos 0;
  hostname = pos 0;
  compile = negsuc 0;
  setfilter = pos 0;
}

lat_dump-ne : lat_dump ≢ l2_main
lat_dump-ne e = cc

pcap_start_up_ends_example :
    ((bad_filter.created ≡ true)
      × AllAnswered bad_filter
      × (pcap_start_up lat_dump settings bad_filter
          ≡ next (activation lat_dump settings ++ final_calls settings)))
    ⊎ ((bad_filter.created ≡ true)
        × (pcap_start_up lat_dump settings bad_filter
            ≡ exit (failure_code bad_filter) (
                activation lat_dump settings
                ++ take (failure_calls bad_filter) (final_calls settings))))
    ⊎ ((bad_filter.created ≡ false)
        × (pcap_start_up lat_dump settings bad_filter
            ≡ fault no_handle (pcap_create settings.interface_name ∷ [])))
pcap_start_up_ends_example = pcap_start_up_ends lat_dump settings bad_filter lat_dump-ne
