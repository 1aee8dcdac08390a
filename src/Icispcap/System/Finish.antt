-- ===== src/Icispcap/System/Finish.antt =====
-- Once it is told to stop, the writer can always finish.
use testofdumping.Prelude.{
  ℕ, suc, ◌+◌, ◌-◌, ◌%◌, ◌^◌, ◌≤◌, List, [], ◌∷◌, ◌++◌, true, false, ◌≡◌, refl, ap, ◌∙◌, subst,
  some, none, length, take, ltb, ◌&&◌, map, length-append, length-take, arith, Bool-cases, inl, inr,
}
use testofdumping.Dump.Types.{next, state, ◌>>=◌}
use testofdumping.Icispcap.Reader.{practical_len, Captured}
use testofdumping.Icispcap.Writer.{
  Writer, Round, chunksize, sizeof_captured, header_bytes, writer_step, dequeue, take_packet,
  flush_if_full, flush_to_file, rotate_file, create_new_file,
}
use testofdumping.Icispcap.Chunk.{
  out, bodies, Ready, IsCaptured, append_chunk_lem, length-header_bytes,
}
use testofdumping.Icispcap.Readback.{read_back}
use testofdumping.Icispcap.Runs.{writer_drains}
use testofdumping.Icispcap.System.{
  Setup, System, Step, write_packet, write_end, Reach, here, later, at_start,
}
use testofdumping.Icispcap.System.Invariant.{
  kept, Holds, Holds-cons, HasInvariant, Step-Invariant, Reach-Invariant,
}
use testofdumping.Icispcap.System.Placed.{start-Invariant, ended_complete}

-- A round in which fopen works goes on.
rotate_file-next :
    (snaplen : ℕ) (r : Round) (w : Writer)
    → r.opened ≡ true
    → (w' : Writer) × (rotate_file snaplen r w ≡ next w')
unfolding rotate_file create_new_file
rotate_file-next snaplen r w opens =
    elim (Bool-cases
      (w.filerotate && ltb w.interval ((r.current_time + 2 ^ 64 - w.pretime) % 2 ^ 64))) [
        | inl due ↦ (state (create_new_file snaplen r w), rw (due, opens))
        | inr early ↦ (w, rw early)
      ]

flush_if_full-next : (r : Round) (w : Writer) → (w' : Writer) × (flush_if_full r w ≡ next w')
unfolding flush_if_full
flush_if_full-next r w = elim (Bool-cases (ltb chunksize (length w.chunk + sizeof_captured))) [
  | inl full ↦ (flush_to_file r w, rw full)
  | inr room ↦ (w, rw room)
]

take_packet-next :
    (r : Round) (c : Captured) (w : Writer)
    → IsCaptured c
    → Ready w
    → (w' : Writer) × (take_packet r c w ≡ next w')
unfolding take_packet
take_packet-next r c w i v =
    let header = header_bytes c.sf_hdr in
    let payload = take c.sf_hdr.caplen c.pktdata in
    let w1 : Writer = record w { no_of_pkts = (w.no_of_pkts + 1) % 2 ^ 32 } in
    let w2 : Writer = record w1 { chunk = w.chunk ++ header } in
    let room = v.room in
    let size = length-header_bytes c in
    let short = length-take c.sf_hdr.caplen c.pktdata in
    let grown = length-append w.chunk header in
    let le = i.0 in
    let (w', e) = flush_if_full-next r (record w2 { chunk = w2.chunk ++ payload }) in
    (
      w',
      rw
          (
            append_chunk_lem header w1 (omega (arith, room, size)),
            append_chunk_lem payload w2 (omega (arith, room, size, short, grown, le)),
          )
          e,
    )

writer_step-next :
    (snaplen : ℕ) (r : Round) (c : Captured) (w : Writer)
    → r.got ≡ some c
    → r.opened ≡ true
    → IsCaptured c
    → Ready w
    → (w' : Writer) × (writer_step snaplen r w ≡ next w')
unfolding writer_step dequeue
writer_step-next snaplen r c w got opens i v =
    let (w1, e1) = take_packet-next r c w i v in
    let (w2, e2) = rotate_file-next snaplen r w1 opens in
    (
      w2,
      ap (λ o. dequeue r o w >>= rotate_file snaplen r) got
          ∙ ap (λ o. o >>= rotate_file snaplen r) e1
          ∙ e2,
    )

Reach-after : {k : Setup} {s t u : System} → Step k s t → Reach k t u → Reach k s u
Reach-after step here = later here step
Reach-after step (later r last) = later (Reach-after step r) last

Reach-trans : {k : Setup} {s t u : System} → Reach k s t → Reach k t u → Reach k s u
Reach-trans r here = r
Reach-trans r (later q step) = later (Reach-trans r q) step

module _ (k : Setup) (snaplen_fits : k.snaplen ≤ practical_len) (takes : (n : ℕ) → k.fwrite n ≡ n)
    (rounds : ℕ → Round) (opens : (n : ℕ) → (rounds n).opened ≡ true) where
  abbrev Finishes : System → Type 0
  Finishes s =
      (t : System) × Reach k s t × (t.writer_ended ≡ true) × (t.buffer ≡ []) × (t.given ≡ s.given)

  finishes :
      (buffer : List Captured) (n : ℕ) (s : System)
      → s.buffer ≡ buffer
      → HasInvariant s
      → s.writer_ended ≡ false
      → s.writer_stop ≡ true
      → Finishes s
  finishes [] n s e (filed, waiting, i) on stop =
      let (w, ended, _, _, _) =
        writer_drains k.snaplen
          (record (rounds n) { got = none; thread_stop = s.writer_stop; fwrite = k.fwrite })
          s.writer (i.ready on) takes refl stop in
      (_, later here (write_end (rounds n) w on e stop ended), refl, e, refl)
  finishes (c ∷ rest) n s e (filed, waiting, i) on stop =
      let (p, qs, split, from, h) = Holds-cons waiting c rest (subst (Holds waiting) e i.holds) in
      let (w, goes) =
        writer_step-next k.snaplen
          (record (rounds n) { got = some c; thread_stop = s.writer_stop; fwrite = k.fwrite }) c
          s.writer refl (opens n) from.0 (i.ready on) in
      let step : Step k s (record s { buffer = rest; writer = w }) =
        write_packet (rounds n) c rest w on e goes in
      let (t, r, ended, empty, same) =
        finishes rest (suc n) (record s { buffer = rest; writer = w }) refl
          (Step-Invariant k snaplen_fits takes step (filed, waiting, i)) on stop in
      (t, Reach-after step r, ended, empty, same)

  -- Where the snapshot length is at most what an entry of the queue holds, the disk takes all that
  -- it is given, and fopen works: from every state that the two threads reach, from a writer whose
  -- first file is open and which has written nothing, with the writer told to stop and not ended,
  -- steps of the threads lead to the end of the writer, with the queue empty and all that the queue
  -- took before in closed files, where a reader of the capture format finds it.
  pub writer_finishes :
      {s : System} (w : Writer)
      → Ready w
      → out w ≡ []
      → Reach k (at_start w) s
      → s.writer_stop ≡ true
      → s.writer_ended ≡ false
      → (t : System) × Reach k s t
        × (t.writer_ended ≡ true)
        × (t.buffer ≡ [])
        × (read_back (bodies t.writer.closed) ≡ some (map kept s.given))
  writer_finishes {s} w v nothing r stop on =
      let (t, more, ended, empty, same) =
        finishes s.buffer 0 s refl
          (Reach-Invariant k snaplen_fits takes r
            (start-Invariant k snaplen_fits takes w v nothing))
          on stop in
      (
        t,
        more,
        ended,
        empty,
        ended_complete k snaplen_fits takes w v nothing (Reach-trans r more) ended empty
            ∙ ap (λ ps. some (map kept ps)) same,
      )
