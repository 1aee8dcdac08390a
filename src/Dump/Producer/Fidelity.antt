-- ===== src/Dump/Producer/Fidelity.antt =====
-- From the wire to the file: what the two threads make of a captured packet.
use testofdumping.Prelude.{
  ℕ, ◌+◌, ◌%◌, ◌^◌, ◌<◌, List, Bool, true, false, ◌≡◌, refl, inl, inr, some, none, arith, length,
  take-length, Bool-cases, take,
}
use native.Mathlib.Nat.{mod-eq_of_lt}
use testofdumping.Dump.Types.{Program, main_icispcap, PcapHdr, Mbuf, Entry, next}
use testofdumping.Dump.Consumer.{entry_of}
use testofdumping.Dump.Producer.{
  Producer, Read, packet, timeout, read_error, no_more, producer_step, handle, note_header, too_big,
  buf_size, fill,
}

-- The length field that ends up in the file.
abbrev pub kept_len : Program → PcapHdr → ℕ
kept_len main_icispcap h = h.caplen
kept_len _ h = h.len % 2 ^ 16

abbrev pub faithful : Program → PcapHdr → List ℕ → Entry
faithful p h bytes = record { hdr = record h { len = kept_len p h }; bytes = bytes }

take_twice : (n : ℕ) (bytes : List ℕ) → length bytes ≡ n → take n (take n bytes) ≡ bytes
take_twice n bytes full = rw (take-length n bytes full) (take-length n bytes full)

entry_of-fill :
    (p : Program) (h : PcapHdr) (bytes : List ℕ)
    → length bytes ≡ h.caplen
    → h.caplen < 2 ^ 16
    → entry_of p (fill p h bytes) ≡ faithful p h bytes
unfolding entry_of fill
entry_of-fill main_icispcap h bytes full lt = rw (mod-eq_of_lt lt, take_twice h.caplen bytes full)
entry_of-fill p h bytes full lt = rw (mod-eq_of_lt lt, take_twice h.caplen bytes full)

admitted_small : (room : ℕ) (h : PcapHdr) → too_big room h ≡ false → h.caplen < 2 ^ 16
unfolding too_big buf_size
admitted_small room h e = ground arith

-- What a call that queues a buffer has done.
pub queued :
    (p : Program) (room : ℕ) (got : Bool) (r : Read) (s s' : Producer) (m : Mbuf)
    → producer_step p room got r s ≡ next (s', some m)
    → (h : PcapHdr) × (bytes : List ℕ) × (r ≡ packet h bytes)
      × (m ≡ fill p h bytes)
      × (too_big room h ≡ false)
      × (got ≡ true)
      × (s'.nb_captured_packets ≡ (s.nb_captured_packets + 1) % 2 ^ 64)
unfolding producer_step note_header handle
queued p room true (packet h bytes) s s' m e =
    (h, bytes, refl, ground arith, ground arith, refl, ground arith)
queued p room false (packet h bytes) s s' m e = absurd (ground arith)
queued p room got timeout s s' m e = absurd (ground arith)
queued p room got read_error s s' m e = absurd (ground arith)
queued p room got no_more s s' m e = absurd (ground arith)

-- A call that queues none counts none.
pub unqueued :
    (p : Program) (room : ℕ) (got : Bool) (r : Read) (s s' : Producer)
    → producer_step p room got r s ≡ next (s', none)
    → s'.nb_captured_packets ≡ s.nb_captured_packets
unfolding producer_step note_header handle
unqueued p room true (packet h bytes) s s' e = ground arith
unqueued p room false (packet h bytes) s s' e = ground arith
unqueued p room got timeout s s' e = ground arith
unqueued p room got read_error s s' e = ground arith
unqueued p room got no_more s s' e = ground arith

-- Where pcap_next_ex gives as many bytes as it says, the buffer that the producer queues, which the
-- copy then has not overrun, is turned into an entry with the packet's time, its captured length and
-- all its bytes, in every program; its original length is kept only modulo 2^16, and
-- src/main_icispcap.c puts the captured length in its place.
pub captured_entry :
    (p : Program) (room : ℕ) (h : PcapHdr) (bytes : List ℕ) (s s' : Producer) (m : Mbuf)
    → length bytes ≡ h.caplen
    → producer_step p room true (packet h bytes) s ≡ next (s', some m)
    → entry_of p m ≡ faithful p h bytes
unfolding producer_step note_header handle
captured_entry p room h bytes s s' m full e = elim (Bool-cases (too_big room h)) [
  | inl big ↦ cc
  | inr fits ↦
      let filled : m ≡ fill p h bytes = ground arith in
      rw filled (entry_of-fill p h bytes full (admitted_small room h fits))
]
