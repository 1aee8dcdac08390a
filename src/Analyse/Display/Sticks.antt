-- ===== src/Analyse/Display/Sticks.antt =====
-- Where the missing result of protocolTCP::addPkt is taken for -1, and where a text does not fit.
use testofdumping.Prelude.{
  ℕ, ◌≤◌, List, [], ◌∷◌, Option, none, some, true, false, ltb, ◌==◌, ◌≡◌, refl, ap, sym, ◌∙◌, arith,
  Bool-cases, Option-cases, inl, inr,
}
use testofdumping.Dump.Types.{Text}
use testofdumping.Analyse.Display.{
  Traced, TcpPacket, DisplayStats, rejected, deadlocked, board_of, find, make_entry, get_proto_base,
  turn_interval, clear_stats, cleardash_b, printstats, fill_buff, count_packet, add_to_node,
  add_pkt, data_len_of, ether_type_of, parse_with, parse_pkt, read_packets,
}

-- The packet is TCP over IP, and not older than the interval.
pub record IsTimely (t : Traced) (b : DisplayStats) : Type 0 where
  pub is_tcp : (ethertype : ℕ) × (ether_type_of t.layer3 t.transport ≡ some ethertype)
  pub in_time : b.cur_int_starttime ≤ t.seconds

-- Under a lock that is held, a packet changes nothing, and one that is timely waits.
locked_still : (t : Traced) (b : DisplayStats) → b.dis_lock ≡ true → board_of (parse_pkt t b) ≡ b
unfolding parse_pkt parse_with add_pkt
locked_still t b held = elim (Option-cases (ether_type_of t.layer3 t.transport)) [
  | inl e ↦ rw e
  | inr (ethertype, e) ↦ elim (Bool-cases (ltb t.seconds b.cur_int_starttime)) [
    | inl early ↦ rw (e, early)
    | inr timely ↦ rw (e, timely, held)
  ]
]

locked_waits :
    (t : Traced) (b : DisplayStats)
    → b.dis_lock ≡ true
    → IsTimely t b
    → parse_pkt t b ≡ deadlocked b
unfolding parse_pkt parse_with add_pkt
locked_waits t b held i =
    let timely : ltb t.seconds b.cur_int_starttime ≡ false =
      let h = i.in_time in ground (arith, h) in
    rw (i.is_tcp.1, timely, held)

all_still : (ts : List Traced) (b : DisplayStats) → b.dis_lock ≡ true → read_packets ts b ≡ b
unfolding read_packets
all_still [] b held = refl
all_still (t ∷ ts) b held =
    let e = locked_still t b held in ap (read_packets ts) e ∙ all_still ts b held

-- Neither the entries nor the interval touch the lock or forget an overrun.
module _ (node : Text) (b : DisplayStats) where
  make_entry-same :
      (o : Option _)
      → ((make_entry node o b).dis_lock ≡ b.dis_lock)
        × ((make_entry node o b).overrun ≡ b.overrun)
        × ((make_entry node o b).totalpkts ≡ b.totalpkts)
  unfolding make_entry
  make_entry-same none = (refl, refl, refl)
  make_entry-same (some p) = (refl, refl, refl)

  pub add_to_node-same :
      (direction : ℕ) (k : TcpPacket)
      → let after = add_to_node node direction k b in
        (after.dis_lock ≡ b.dis_lock)
        × (after.overrun ≡ b.overrun)
        × (after.totalpkts ≡ b.totalpkts)
  unfolding add_to_node get_proto_base
  add_to_node-same direction k = make_entry-same (find node b.dashboard)

pub turn_interval-same :
    (time : ℕ) (b : DisplayStats)
    → ((turn_interval time b).dis_lock ≡ b.dis_lock) × ((turn_interval time b).overrun ≡ b.overrun)
unfolding turn_interval clear_stats cleardash_b printstats
turn_interval-same time b = elim (Bool-cases (b.cur_int_endtime == 0)) [
  | inl e ↦ rw e (refl, refl)
  | inr e ↦ elim (Bool-cases (ltb b.cur_int_endtime time)) [
    | inl over ↦ rw (e, over) (refl, refl)
    | inr on ↦ rw (e, on) (refl, refl)
  ]
]

-- The packet is put into the entry of its node with the lock held, before the totals.
abbrev pub placed : Traced → ℕ → DisplayStats → DisplayStats
placed t ethertype b =
    add_to_node t.source t.direction
      (record { ether_type = ethertype; data_len = data_len_of t.wire_length; downlink = false })
      (fill_buff t.source (turn_interval t.seconds (record b { dis_lock = true })))

placed-IsLocked :
    (t : Traced) (ethertype : ℕ) (b : DisplayStats) → (placed t ethertype b).dis_lock ≡ true
unfolding fill_buff
placed-IsLocked t ethertype b =
    (add_to_node-same t.source _ t.direction _).0
    ∙ (turn_interval-same t.seconds (record b { dis_lock = true })).0

pub parse_pkt-timely :
    (t : Traced) (b : DisplayStats) (i : IsTimely t b)
    → b.dis_lock ≡ false
    → parse_pkt t b ≡ count_packet t.falls_off (data_len_of t.wire_length) (placed t i.is_tcp.0 b)
unfolding parse_pkt parse_with add_pkt
parse_pkt-timely t b i free =
    let timely : ltb t.seconds b.cur_int_starttime ≡ false =
      let h = i.in_time in ground (arith, h) in
    rw (i.is_tcp.1, timely, free)

-- Where a timely packet finds the lock free, and the missing result of protocolTCP::addPkt is taken
-- for -1, ParsePkt returns -1 with the lock still held: whatever is parsed later, the display
-- stays as it is, and every later packet that is timely then waits forever.
pub missing_result_sticks :
    (t : Traced) (b : DisplayStats) (ts : List Traced) (u : Traced)
    → IsTimely t b
    → b.dis_lock ≡ false
    → t.falls_off ≡ true
    → IsTimely u (board_of (parse_pkt t b))
    → let stuck = board_of (parse_pkt t b) in
      (parse_pkt t b ≡ rejected stuck)
      × (stuck.dis_lock ≡ true)
      × (read_packets ts stuck ≡ stuck)
      × (parse_pkt u (read_packets ts stuck) ≡ deadlocked stuck)
unfolding count_packet
missing_result_sticks t b ts u i free off timely =
    let stuck : parse_pkt t b ≡ rejected (placed t i.is_tcp.0 b) =
      parse_pkt-timely t b i free ∙ rw off in
    let at : board_of (parse_pkt t b) ≡ placed t i.is_tcp.0 b = ap board_of stuck in
    let held : (board_of (parse_pkt t b)).dis_lock ≡ true =
      ap (λ x. x.dis_lock) at ∙ placed-IsLocked t i.is_tcp.0 b in
    let still = all_still ts _ held in
    (
      stuck ∙ ap rejected (sym at),
      held,
      still,
      ap (parse_pkt u) still ∙ locked_waits u _ held timely,
    )
