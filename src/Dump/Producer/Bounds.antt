-- ===== src/Dump/Producer/Bounds.antt =====
-- Whether the copy of a packet fits into its buffer.
use testofdumping.Prelude.{
  ℕ, ◌+◌, ◌-◌, ◌%◌, ◌∙◌, List, true, false, some, none, refl, ◌^◌, ◌≤◌, ◌<◌, ◌≡◌, ◌⊎◌, inl, inr,
  arith, ltb,
}
use native.Mathlib.Decide.{dec_lt}
use testofdumping.Dump.Types.{Program, PcapHdr, next, fault, overrun_array}
use testofdumping.Dump.Producer.{
  Producer, packet, fill, producer_step, handle, note_header, too_big, buf_size, pool_data_room,
  headroom,
}

-- For a pool created for a snapshot length of 16 bits, the test skips exactly the packets that are
-- longer than the snapshot length. Up to 65407 the buffers have room for that length behind their
-- headroom. From 65408 on, where the default of 65535 lies, the data room has wrapped to less than
-- the headroom.
pub too_big-pool_data_room :
    (snaplen : ℕ) (h : PcapHdr)
    → snaplen < 2 ^ 16
    → (too_big (pool_data_room snaplen) h ≡ ltb snaplen h.caplen)
      × (((snaplen < 65408) × (pool_data_room snaplen ≡ headroom + snaplen))
          ⊎ ((65408 ≤ snaplen) × (pool_data_room snaplen < headroom)))
unfolding too_big pool_data_room buf_size
too_big-pool_data_room snaplen h small = elim (dec_lt snaplen 65408) [
  | yes lt ↦ (ground arith, inl (lt, omega arith))
  | no ge ↦ (ground arith, inr (omega arith, omega arith))
]

-- For a pool created for a snapshot length of 16 bits, where a buffer is got for a packet that is
-- not empty and not longer than the snapshot length: up to 65407 the packet is queued and counted,
-- modulo 2^64; from 65408 on, where the default of 65535 lies, the copy of every such packet
-- overruns its buffer.
pub producer_step-pool_data_room :
    (p : Program) (snaplen : ℕ) (h : PcapHdr) (bytes : List ℕ) (s : Producer)
    → snaplen < 2 ^ 16
    → 0 < h.caplen
    → h.caplen ≤ snaplen
    → let s' = record s { hdr = some h } in
      let outcome = producer_step p (pool_data_room snaplen) true (packet h bytes) s in
      ((snaplen < 65408)
        × (outcome
            ≡ next (
              record s' { nb_captured_packets = (s.nb_captured_packets + 1) % 2 ^ 64 },
              some (fill p h bytes),
            )))
      ⊎ ((65408 ≤ snaplen) × (outcome ≡ fault overrun_array (s', none)))
unfolding producer_step note_header handle
producer_step-pool_data_room p snaplen h bytes s small some_bytes short =
    let (test, room) = too_big-pool_data_room snaplen h small in
    let kept : too_big (pool_data_room snaplen) h ≡ false = test ∙ ground arith in
    elim room [
      | inl (lt, exact) ↦
          let enough : ltb (pool_data_room snaplen - headroom) h.caplen ≡ false = ground arith in
          inl (lt, rw (kept, enough) refl)
      | inr (ge, wrapped) ↦
          let over : ltb (pool_data_room snaplen - headroom) h.caplen ≡ true = ground arith in
          inr (ge, rw (kept, over) refl)
    ]
