-- ===== src/Analyse/Display.antt =====
-- ANALYSEPCAP/displayStats.cpp, tcpProto.cpp and readPcapFile of main.cpp: the packets of the
-- capture files, counted for each source address over intervals of a minute. libtrace is an input:
-- what it says of a packet. Times have no width here: where a statement depends on that, it assumes
-- that an `int` holds them with a minute more.
pub mod Nodes
pub mod Events
pub mod Window
pub mod Shown
pub mod Sticks
pub mod Overrun
pub mod Minute
mod Tests
use testofdumping.Prelude.{
  ℕ, ◌+◌, ◌-◌, ◌*◌, ◌/◌, ◌%◌, ◌^◌, List, [], ◌∷◌, ◌++◌, Option, none, some, Bool, true, false, ◌||◌,
  ltb, leb, ◌==◌, if◌then◌else◌, length, text_eq,
}
use testofdumping.Prelude.Int.{ℤ, pos, negsuc}
use testofdumping.Dump.Types.{Text}

-- TIMEINT, and the size of `buff`.
abbrev pub timeint : ℕ
timeint = 60

abbrev pub sizeof_buff : ℕ
sizeof_buff = 10

-- TRACE_ETHERTYPE_IP, TRACE_ETHERTYPE_IPV6 and TRACE_IPPROTO_TCP.
abbrev pub ethertype_ip : ℕ
ethertype_ip = 0x0800

abbrev pub ethertype_ip6 : ℕ
ethertype_ip6 = 0x86dd

abbrev pub ipproto_tcp : ℕ
ipproto_tcp = 6

-- What libtrace says of a packet, with the time as a number that the code keeps in an `int`, and
-- for a packet whose Ethernet addresses are there. protocolTCP::addPkt has no return statement; `falls_off` is
-- whether the caller finds -1 where the result would be.
pub record Traced : Type 0 where
  pub wire_length : ℤ
  pub source : Text  -- trace_ether_ntoa of the source address
  pub layer3 : Option (ℕ × ℕ)  -- the ethertype, and the bytes that are left
  pub transport : Option ℕ  -- the protocol, where there is a payload
  pub seconds : ℕ
  pub direction : ℕ
  pub falls_off : Bool

-- `m_tcpPacket`, as far as it is read.
pub record TcpPacket : Type 0 where
  pub ether_type : ℕ
  pub data_len : ℕ
  pub downlink : Bool

-- `protocolTCP`. The counters of type `int` are kept as 32-bit words.
pub record ProtocolTcp : Type 0 where
  pub m_starttime : ℕ
  pub m_endtime : ℕ
  pub m_totalpkts : ℕ
  pub m_totaldata : ℕ
  pub m_totaluplink : ℕ
  pub m_totaldownlink : ℕ
  pub m_totalipv4 : ℕ
  pub m_totalip6 : ℕ
  pub m_pkt : List TcpPacket

-- `libtrace_stat_t`, as far as it is kept.
pub record TraceStats : Type 0 where
  pub accepted : ℕ
  pub filtered : ℕ
  pub received : ℕ
  pub dropped : ℕ
  pub captured : ℕ
  pub errors : ℕ

abbrev pub zero_stats : TraceStats
zero_stats = record {
  accepted = 0;
  filtered = 0;
  received = 0;
  dropped = 0;
  captured = 0;
  errors = 0;
}

abbrev pub add_stats : TraceStats → TraceStats → TraceStats
add_stats s stat = record {
  accepted = (s.accepted + stat.accepted) % 2 ^ 64;
  filtered = (s.filtered + stat.filtered) % 2 ^ 64;
  received = (s.received + stat.received) % 2 ^ 64;
  dropped = (s.dropped + stat.dropped) % 2 ^ 64;
  captured = (s.captured + stat.captured) % 2 ^ 64;
  errors = (s.errors + stat.errors) % 2 ^ 64;
}

-- What `printstats` prints, without the nodes.
pub record Printed : Type 0 where
  pub stats : TraceStats
  pub packets : ℕ
  pub bytes : ℕ
  pub average : ℕ

-- `displayStats`, with what it has printed. The map has one protocol for each node, TCP. `dis_lock`
-- is whether the mutex is held; `overrun`, whether a text did not fit into `buff`: what the code does
-- from then on is undefined, and the model goes on with the flag set.
pub record DisplayStats : Type 0 where
  pub cur_int_starttime : ℕ
  pub cur_int_endtime : ℕ
  pub totalpkts : ℕ
  pub totaldatalen : ℕ
  pub pcap_stats : TraceStats
  pub stats_available : Bool
  pub dashboard : List (Text × ProtocolTcp)
  pub dis_lock : Bool
  pub overrun : Bool
  pub printed : List Printed

-- ParsePkt returns 0 or -1, or it waits for a lock that nobody will release.
pub data Parsing : Type 0 where
  counted rejected deadlocked : DisplayStats → Parsing

abbrev pub board_of : Parsing → DisplayStats
board_of (counted b) = b
board_of (rejected b) = b
board_of (deadlocked b) = b

-- The constructor of `displayStats`, which leaves `pcapStats` as it finds it, and a free mutex.
abbrev pub new_board : TraceStats → DisplayStats
new_board found = record {
  cur_int_starttime = 0;
  cur_int_endtime = 0;
  totalpkts = 0;
  totaldatalen = 0;
  pcap_stats = found;
  stats_available = false;
  dashboard = [];
  dis_lock = false;
  overrun = false;
  printed = [];
}

-- The constructor of `protocolTCP`.
unfoldable pub new_protocol : ℕ → ℕ → ProtocolTcp
new_protocol start end = record {
  m_starttime = start;
  m_endtime = end;
  m_totalpkts = 0;
  m_totaldata = 0;
  m_totaluplink = 0;
  m_totaldownlink = 0;
  m_totalipv4 = 0;
  m_totalip6 = 0;
  m_pkt = [];
}

-- `protocolTCP::addPkt`.
unfoldable pub add_tcp : ℕ → TcpPacket → ProtocolTcp → ProtocolTcp
add_tcp direction k p =
    let len = k.data_len in
    let down = direction == 0 in
    record p {
      m_totalpkts = (p.m_totalpkts + 1) % 2 ^ 64;
      m_totaldata = (p.m_totaldata + len) % 2 ^ 64;
      m_totaluplink = if down then p.m_totaluplink else (p.m_totaluplink + len) % 2 ^ 64;
      m_totaldownlink = if down then (p.m_totaldownlink + len) % 2 ^ 64 else p.m_totaldownlink;
      m_totalipv4 =
          if k.ether_type == ethertype_ip then (p.m_totalipv4 + 1) % 2 ^ 32 else p.m_totalipv4;
      m_totalip6 =
          if k.ether_type == ethertype_ip
          then p.m_totalip6
          else if k.ether_type == ethertype_ip6
          then (p.m_totalip6 + 1) % 2 ^ 32
          else p.m_totalip6;
      m_pkt = p.m_pkt ++ record k { downlink = down } ∷ [];
    }

-- `protocolTCP::bandWidthCalc`, as a 32-bit word; a division by 0 is none.
unfoldable pub band_width_calc : ProtocolTcp → Option ℕ
band_width_calc p =
    if p.m_endtime == p.m_starttime
    then none
    else some (
        ((p.m_totaldata * 8) % 2 ^ 64 / ((2 ^ 64 + p.m_endtime - p.m_starttime) % 2 ^ 64)) % 2 ^ 32)

-- `dashboard.find`.
unfoldable pub find : Text → List (Text × ProtocolTcp) → Option ProtocolTcp
find node [] = none
find node ((name, p) ∷ rest) =
    let later = find node rest in if text_eq name node then some p else later

unfoldable pub make_entry : Text → Option ProtocolTcp → DisplayStats → DisplayStats
make_entry node (some p) b = b
make_entry node none b = record b {
  dashboard = b.dashboard ++ (node, new_protocol b.cur_int_starttime b.cur_int_endtime) ∷ [];
}

-- `getProtoBase`: after it the node has an entry.
unfoldable pub get_proto_base : Text → DisplayStats → DisplayStats
get_proto_base node b = make_entry node (find node b.dashboard) b

-- A change of the entry through the pointer that `getProtoBase` returns.
unfoldable pub change :
    Text → (ProtocolTcp → ProtocolTcp) → List (Text × ProtocolTcp) → List (Text × ProtocolTcp)
change node f [] = []
change node f ((name, p) ∷ rest) =
    let later = change node f rest in
    if text_eq name node then (name, f p) ∷ rest else (name, p) ∷ later

-- The average that `printstats` prints.
unfoldable pub average_of : ℕ → ℕ → ℕ
average_of packets bytes = if packets == 0 then 0 else bytes / packets / 8

unfoldable pub printstats : DisplayStats → DisplayStats
printstats b = record b {
  printed =
      b.printed
      ++ record {
        stats = b.pcap_stats;
        packets = b.totalpkts;
        bytes = b.totaldatalen;
        average = average_of b.totalpkts b.totaldatalen;
      }
        ∷ [];
}

unfoldable pub cleardash_b : ℕ → ℕ → DisplayStats → DisplayStats
cleardash_b newtsrtime newendtime b = record b {
  dashboard = [];
  cur_int_starttime = newtsrtime;
  cur_int_endtime = newendtime;
  totalpkts = 0;
  totaldatalen = 0;
}

unfoldable pub set_stats : TraceStats → DisplayStats → DisplayStats
set_stats stat b = record b { pcap_stats = add_stats b.pcap_stats stat; stats_available = true }

unfoldable pub clear_stats : DisplayStats → DisplayStats
clear_stats b = record b { pcap_stats = zero_stats; stats_available = false }

-- `addPkt` on the interval, where an `int` holds the time and a minute more.
unfoldable pub turn_interval : ℕ → DisplayStats → DisplayStats
turn_interval time b =
    if b.cur_int_endtime == 0
    then record b { cur_int_starttime = time; cur_int_endtime = time + timeint }
    else if ltb b.cur_int_endtime time
    then clear_stats (cleardash_b time (time + timeint) (printstats b))
    else b

-- `addPkt` on `buff`: a text of 10 characters or more, or the byte 0 behind it, lies outside.
unfoldable pub fill_buff : Text → DisplayStats → DisplayStats
fill_buff text b = record b { overrun = b.overrun || leb sizeof_buff (length text) }

-- `addPkt` from the totals on.
unfoldable pub count_packet : Bool → ℕ → DisplayStats → Parsing
count_packet falls_off len b =
    if falls_off
    then rejected b
    else counted (record b {
      totaldatalen = (b.totaldatalen + len) % 2 ^ 64;
      totalpkts = (b.totalpkts + 1) % 2 ^ 64;
      dis_lock = false;
    })

-- `addPkt` on the entry of the node.
unfoldable pub add_to_node : Text → ℕ → TcpPacket → DisplayStats → DisplayStats
add_to_node node direction k b =
    let found = get_proto_base node b in
    record found { dashboard = change node (add_tcp direction k) found.dashboard }

-- `addPkt`. The code compares the start of the interval before it takes the lock; here that and what
-- follows are one event.
unfoldable pub add_pkt : Traced → TcpPacket → DisplayStats → Parsing
add_pkt t k b =
    if ltb t.seconds b.cur_int_starttime
    then rejected b
    else if b.dis_lock
    then deadlocked b
    else count_packet t.falls_off k.data_len (
        add_to_node t.source t.direction k
          (fill_buff t.source (turn_interval t.seconds (record b { dis_lock = true }))))

-- `dataLen`.
unfoldable pub data_len_of : ℤ → ℕ
data_len_of (pos n) = n
data_len_of (negsuc n) = 0

-- Whether ParsePkt goes on: an IP packet, either version, that is not empty and carries TCP.
unfoldable pub has_transport : Option ℕ → Bool
has_transport none = false
has_transport (some proto) = proto == ipproto_tcp

unfoldable pub ether_type_of : Option (ℕ × ℕ) → Option ℕ → Option ℕ
ether_type_of none transport = none
ether_type_of (some (ethertype, rem)) transport =
    if rem == 0
    then none
    else if (ethertype == ethertype_ip) || (ethertype == ethertype_ip6)
    then (if has_transport transport then some ethertype else none)
    else none

unfoldable pub parse_with : Option ℕ → Traced → DisplayStats → Parsing
parse_with none t b = rejected b
parse_with (some ethertype) t b =
    add_pkt t
      (record { ether_type = ethertype; data_len = data_len_of t.wire_length; downlink = false }) b

-- `ParsePkt`.
unfoldable pub parse_pkt : Traced → DisplayStats → Parsing
parse_pkt t b = parse_with (ether_type_of t.layer3 t.transport) t b

-- The loops of `readPcapFile` in all threads: the packets in the order in which they are parsed.
unfoldable pub read_packets : List Traced → DisplayStats → DisplayStats
read_packets [] b = b
read_packets (t ∷ rest) b = read_packets rest (board_of (parse_pkt t b))
