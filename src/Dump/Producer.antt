-- ===== src/Dump/Producer.antt =====
-- The body of the loop of `main_loop_producer` and `packet_producer`: one call of `pcap_next_ex`.
pub mod Bounds
pub mod Fidelity
use testofdumping.Prelude.{
  ℕ, ◌+◌, ◌-◌, ◌%◌, ◌^◌, List, Option, none, some, Bool, true, false, ltb, if◌then◌else◌, take,
}
use testofdumping.Dump.Types.{
  Program, main_icispcap, PcapHdr, Mbuf, Outcome, next, exit, fault, unset_header, no_buffer,
  overrun_array,
}

-- What `pcap_next_ex` does: it returns 1 and sets the two pointers, or it returns 0 (no packet in
-- time), -1 (an error) or -2 and leaves them as they were.
pub data Read : Type 0 where
  packet : PcapHdr → List ℕ → Read
  timeout read_error no_more : Read

-- The header that `PcapHdr` points to, and `nb_captured_packets`.
pub record Producer : Type 0 where
  pub hdr : Option PcapHdr
  pub nb_captured_packets : ℕ

abbrev pub headroom : ℕ
headroom = 128

-- The data room that the pool's buffers get: `rte_pktmbuf_pool_create` takes it as a `uint16_t`.
unfoldable pub pool_data_room : ℕ → ℕ
pool_data_room snaplen = (snaplen + headroom) % 2 ^ 16

-- `(uint16_t)(rte_pktmbuf_data_room_size(pktmbuf_pool) - RTE_PKTMBUF_HEADROOM)`.
unfoldable pub buf_size : ℕ → ℕ
buf_size room = (room + 2 ^ 16 - headroom) % 2 ^ 16

-- The test that skips a packet, on the header pointed to.
unfoldable pub too_big : ℕ → PcapHdr → Bool
too_big room h = ltb (buf_size room) h.caplen

-- The buffer that is queued. One program leaves `pkt_len` as the allocation set it, which is 0.
unfoldable pub fill : Program → PcapHdr → List ℕ → Mbuf
fill p h bytes = record {
  tx_offload = h.tv_sec;
  udata64 = h.tv_usec;
  data_len = h.caplen % 2 ^ 16;
  pkt_len = elim p [ main_icispcap ↦ 0 | _ ↦ h.len % 2 ^ 16 ];
  payload = take h.caplen bytes;
}

-- What follows a header that passed the test: queue the packet, stop at an error, or read again.
-- `got` says whether the pool had a buffer. The bytes go behind its headroom, in a data room of `room`
-- bytes, which is not compared with their number.
unfoldable pub handle : Program → ℕ → Bool → Read → Producer → Outcome (Producer × Option Mbuf)
handle p room true (packet h bytes) s =
    if ltb (room - headroom) h.caplen
    then fault overrun_array (s, none)
    else next (
      record s { nb_captured_packets = (s.nb_captured_packets + 1) % 2 ^ 64 },
      some (fill p h bytes),
    )
handle p room false (packet h bytes) s = fault no_buffer (s, none)
handle main_icispcap room got read_error s = next (s, none)
handle _ room got read_error s = exit 1 (s, none)
handle p room got _ s = next (s, none)

-- The pointer after the call.
unfoldable pub note_header : Read → Producer → Producer
note_header (packet h bytes) s = record s { hdr = some h }
note_header _ s = s

unfoldable pub producer_step :
    Program → ℕ → Bool → Read → Producer → Outcome (Producer × Option Mbuf)
producer_step p room got r s =
    let s' = note_header r s in
    elim (s'.hdr) [
      | none ↦ fault unset_header (s', none)
      | some h ↦ if too_big room h then next (s', none) else handle p room got r s'
    ]
