-- ===== src/Icispcap/System/Stopped.antt =====
-- What comes after the writer has ended is lost.
use testofdumping.Prelude.{
  ℕ, ◌≤◌, List, [], ◌∷◌, ◌++◌, true, false, ◌≡◌, refl, ap, sym, ◌∙◌, leb, append_assoc, append-nil,
  arith,
}
use testofdumping.Dump.Types.{PcapHdr, next, state}
use testofdumping.Icispcap.Reader.{
  practical_len, Captured, capture, packet, reader_step, write_pkt_to_buf,
}
use testofdumping.Icispcap.Writer.{Writer}
use testofdumping.Icispcap.System.{
  Setup, System, IsGiven, Step, read_begin, read_packet, read_timeout, read_end, write_packet,
  write_idle, write_end, stop_reader, stop_writer, Reach, here, later,
}

-- Nothing leaves the queue of a writer that has ended, and its files stay as they are.
record IsOver (buffer : List Captured) (w : Writer) (t : System) : Type 0 where
  ended : t.writer_ended ≡ true
  same : t.writer ≡ w
  kept_waiting : (more : List Captured) × (t.buffer ≡ buffer ++ more)

Step-IsOver :
    {k : Setup} {buffer : List Captured} {w : Writer} {t u : System}
    → Step k t u
    → IsOver buffer w t
    → IsOver buffer w u
Step-IsOver (read_begin on quiet go) v = record {
  ended = v.ended;
  same = v.same;
  kept_waiting = v.kept_waiting;
}
Step-IsOver {k} {buffer} (read_packet h bytes true r on g e) v = record {
  ended = v.ended;
  same = v.same;
  kept_waiting =
      let (more, e) = v.kept_waiting in
      (
        more ++ capture h bytes ∷ [],
        ap (λ b. b ++ capture h bytes ∷ []) e ∙ append_assoc buffer more _,
      );
}
Step-IsOver (read_packet h bytes false r on g e) v = record {
  ended = v.ended;
  same = v.same;
  kept_waiting = v.kept_waiting;
}
Step-IsOver (read_timeout r on e) v = record {
  ended = v.ended;
  same = v.same;
  kept_waiting = v.kept_waiting;
}
Step-IsOver (read_end call r on quiet stop e) v = record {
  ended = v.ended;
  same = v.same;
  kept_waiting = v.kept_waiting;
}
Step-IsOver (write_packet r c rest w on e step) v = let off = v.ended in absurd (cc)
Step-IsOver (write_idle r w on e step) v = let off = v.ended in absurd (cc)
Step-IsOver (write_end r w on e stop step) v = let off = v.ended in absurd (cc)
Step-IsOver stop_reader v = record { ended = v.ended; same = v.same; kept_waiting = v.kept_waiting }
Step-IsOver (stop_writer stop) v = record {
  ended = v.ended;
  same = v.same;
  kept_waiting = v.kept_waiting;
}

Reach-IsOver :
    {k : Setup} {buffer : List Captured} {w : Writer} {t u : System}
    → Reach k t u
    → IsOver buffer w t
    → IsOver buffer w u
Reach-IsOver here v = v
Reach-IsOver (later r step) v = Step-IsOver step (Reach-IsOver r v)

-- The state after the queue has taken a packet.
abbrev pub took : Setup → PcapHdr → List ℕ → System → System
took k h bytes s = record s {
  reader = state (reader_step k.link false (packet h bytes true) s.reader);
  reading = false;
  buffer = s.buffer ++ capture h bytes ∷ [];
  given = s.given ++ (h, bytes) ∷ [];
}

-- Where the reader still waits in pcap_next_ex when the writer has ended, and the snapshot length is
-- at most what an entry of the queue holds: a packet that then comes can be put on the queue, and is
-- lost: whatever happens later, it stays on the queue, and the files stay as they are.
pub late_packet_lost :
    (k : Setup) (s t : System) (h : PcapHdr) (bytes : List ℕ)
    → k.snaplen ≤ practical_len
    → s.writer_ended ≡ true
    → s.reading ≡ true
    → IsGiven k h bytes
    → Reach k (took k h bytes s) t
    → Step k s (took k h bytes s)
      × ((more : List Captured) × (t.buffer ≡ s.buffer ++ capture h bytes ∷ more))
      × (t.writer ≡ s.writer)
unfolding reader_step write_pkt_to_buf
late_packet_lost k s t h bytes fits off on g r =
    let short : leb h.caplen practical_len ≡ true = let le = g.short in ground (arith, le, fits) in
    let goes : reader_step k.link false (packet h bytes true) s.reader
        ≡ next (state (reader_step k.link false (packet h bytes true) s.reader)) =
      rw short in
    let over = Reach-IsOver r (record {
      ended = off;
      same = refl;
      kept_waiting = ([], sym (append-nil (s.buffer ++ capture h bytes ∷ [])));
    }) in
    let (more, e) = over.kept_waiting in
    (
      read_packet h bytes true _ on g goes,
      (more, e ∙ append_assoc s.buffer (capture h bytes ∷ []) more),
      over.same,
    )
