-- ===== src/Icispcap/System/Invariant.antt =====
-- What holds at every moment of any interleaving of the two threads.
use testofdumping.Prelude.{
  ℕ, ◌≤◌, List, [], ◌∷◌, ◌++◌, Bool, true, false, ◌≡◌, refl, ap, ap₂, sym, ◌∙◌, subst, some, none,
  map, map-append, append-nil, append_assoc, All, All-append, arith,
}
use testofdumping.Dump.Types.{PcapHdr, next, exit}
use testofdumping.Icispcap.Reader.{practical_len, Captured, capture, Reader}
use testofdumping.Icispcap.Writer.{Writer, Round, header_bytes, writer_step}
use testofdumping.Icispcap.Chunk.{out, Ready, IsCaptured, Wrote, record_bytes, writer_step-Wrote}
use testofdumping.Icispcap.Handover.{narrowed, capture-IsCaptured}
use testofdumping.Icispcap.Readback.{Packet, written, IsRecord}
use testofdumping.Icispcap.Runs.{writer_drains}
use testofdumping.Icispcap.System.{
  Setup, System, IsGiven, Step, read_begin, read_packet, read_timeout, read_end, write_packet,
  write_idle, write_end, stop_reader, stop_writer, Reach, here, later,
}

-- A packet as the file keeps it.
abbrev pub kept : Packet → Packet
kept (h, bytes) = (narrowed h, bytes)

-- A captured packet that comes from libpcap, and the packet that it comes from.
abbrev pub IsOf : Packet → Captured → Type 0
IsOf (h, bytes) c = IsCaptured c × (record_bytes c ≡ header_bytes (narrowed h) ++ bytes)

-- The queue holds these packets, in order.
abbrev pub Holds : List Packet → List Captured → Type 0
Holds [] [] = Unit
Holds [] (c ∷ cs) = ⊥
Holds (p ∷ ps) [] = ⊥
Holds (p ∷ ps) (c ∷ cs) = IsOf p c × Holds ps cs

Holds-snoc :
    (ps : List Packet) (cs : List Captured) (p : Packet) (c : Captured)
    → Holds ps cs
    → IsOf p c
    → Holds (ps ++ p ∷ []) (cs ++ c ∷ [])
Holds-snoc [] [] p c h i = (i, tt)
Holds-snoc [] (d ∷ cs) p c h i = absurd h
Holds-snoc (q ∷ ps) [] p c h i = absurd h
Holds-snoc (q ∷ ps) (d ∷ cs) p c h i = (h.0, Holds-snoc ps cs p c h.1 i)

pub Holds-cons :
    (ps : List Packet) (c : Captured) (cs : List Captured)
    → Holds ps (c ∷ cs)
    → (p : Packet) × (qs : List Packet) × (ps ≡ p ∷ qs) × IsOf p c × Holds qs cs
Holds-cons [] c cs h = absurd h
Holds-cons (p ∷ ps) c cs h = (p, ps, refl, h.0, h.1)

written-snoc :
    (ps : List Packet) (p : Packet)
    → written (ps ++ p ∷ []) ≡ written ps ++ (header_bytes p.0 ++ p.1)
written-snoc [] (h, bytes) = append-nil (header_bytes h ++ bytes)
written-snoc ((h', bytes') ∷ ps) p =
    ap (λ b. (header_bytes h' ++ bytes') ++ b) (written-snoc ps p)
    ∙ sym (append_assoc (header_bytes h' ++ bytes') (written ps) (header_bytes p.0 ++ p.1))

-- What holds at every moment: `filed`, the packets that the writer has taken, are in the files and
-- the chunk; `waiting` are in the queue.
pub record Invariant (s : System) (filed waiting : List Packet) : Type 0 where
  pub all : s.given ≡ filed ++ waiting
  pub holds : Holds waiting s.buffer
  pub bytes : out s.writer ≡ written (map kept filed)
  pub records : All IsRecord (map kept s.given)
  pub ready : s.writer_ended ≡ false → Ready s.writer
  pub flushed : s.writer_ended ≡ true → (s.writer.chunk ≡ []) × (s.writer.current ≡ none)

abbrev pub HasInvariant : System → Type 0
HasInvariant s = (filed : List Packet) × (waiting : List Packet) × Invariant s filed waiting

-- What the two threads leave alone in the other's part.
unread :
    (s : System) (filed waiting : List Packet)
    → Invariant s filed waiting
    → {reader : Reader} {reading reader_stop writer_stop reader_ended : Bool}
    → Invariant
        (record s {
          reader = reader;
          reading = reading;
          reader_stop = reader_stop;
          writer_stop = writer_stop;
          reader_ended = reader_ended;
        })
        filed
        waiting
unread s filed waiting v = record {
  all = v.all;
  holds = v.holds;
  bytes = v.bytes;
  records = v.records;
  ready = v.ready;
  flushed = v.flushed;
}

module _ (k : Setup) (snaplen_fits : k.snaplen ≤ practical_len)
    (takes : (n : ℕ) → k.fwrite n ≡ n) where
  -- A packet that libpcap gives and the queue takes.
  given-Invariant :
      (s : System) (filed waiting : List Packet) (h : PcapHdr) (bytes : List ℕ) (r : Reader)
      → IsGiven k h bytes
      → Invariant s filed waiting
      → Invariant
          (record s {
            reader = r;
            reading = false;
            buffer = s.buffer ++ capture h bytes ∷ [];
            given = s.given ++ (h, bytes) ∷ [];
          })
          filed
          (waiting ++ (h, bytes) ∷ [])
  given-Invariant s filed waiting h bytes r g v =
      let le : h.caplen ≤ practical_len =
        let short = g.short in omega (arith, short, snaplen_fits) in
      let i = capture-IsCaptured h bytes le g.full in
      record {
        all = ap (λ ps. ps ++ (h, bytes) ∷ []) v.all ∙ append_assoc filed waiting ((h, bytes) ∷ []);
        holds = Holds-snoc waiting s.buffer (h, bytes) (capture h bytes) v.holds i;
        bytes = v.bytes;
        records = subst (All IsRecord) (sym (map-append kept s.given ((h, bytes) ∷ []))) (
            All-append IsRecord (map kept s.given) (kept (h, bytes) ∷ []) v.records
              ((omega arith, omega arith, omega (arith, le), g.word, g.full), tt));
        ready = v.ready;
        flushed = v.flushed;
      }

  -- A round of the writer that goes on.
  written-Invariant :
      (s : System) (filed waiting : List Packet) (r : Round) (w : Writer) (c : Captured)
      (rest : List Captured)
      → s.writer_ended ≡ false
      → s.buffer ≡ c ∷ rest
      → writer_step k.snaplen
          (record r { got = some c; thread_stop = s.writer_stop; fwrite = k.fwrite })
          s.writer
        ≡ next w
      → Invariant s filed waiting
      → HasInvariant (record s { buffer = rest; writer = w })
  written-Invariant s filed waiting r w c rest on e step v =
      let (p, qs, split, i, h) = Holds-cons waiting c rest (subst (Holds waiting) e v.holds) in
      let wrote : Wrote (record_bytes c) s.writer (next w) =
        subst (Wrote (record_bytes c) s.writer) step
          (writer_step-Wrote k.snaplen _ s.writer (i.0, takes) (v.ready on)) in
      (
        filed ++ p ∷ [],
        qs,
        record {
          all = v.all ∙ ap (λ ps. filed ++ ps) split ∙ sym (append_assoc filed (p ∷ []) qs);
          holds = h;
          bytes =
              wrote.same
              ∙ ap₂ (λ a b. a ++ b) v.bytes i.1
              ∙ sym (written-snoc (map kept filed) (kept p))
              ∙ ap written (sym (map-append kept filed (p ∷ [])));
          records = v.records;
          ready = λ on'. wrote.ready tt;
          flushed = λ off. absurd (cc);
        },
      )

  idle-Invariant :
      (s : System) (filed waiting : List Packet) (r : Round) (w : Writer)
      → s.writer_ended ≡ false
      → writer_step k.snaplen
          (record r { got = none; thread_stop = s.writer_stop; fwrite = k.fwrite })
          s.writer
        ≡ next w
      → Invariant s filed waiting
      → Invariant (record s { writer = w }) filed waiting
  idle-Invariant s filed waiting r w on step v =
      let wrote : Wrote [] s.writer (next w) =
        subst (Wrote [] s.writer) step
          (writer_step-Wrote k.snaplen _ s.writer (tt, takes) (v.ready on)) in
      record {
        all = v.all;
        holds = v.holds;
        bytes = wrote.same ∙ append-nil (out s.writer) ∙ v.bytes;
        records = v.records;
        ready = λ on'. wrote.ready tt;
        flushed = λ off. absurd (cc);
      }

  -- The last round of the writer.
  end-Invariant :
      (s : System) (filed waiting : List Packet) (r : Round) (w : Writer)
      → s.writer_ended ≡ false
      → s.writer_stop ≡ true
      → writer_step k.snaplen
          (record r { got = none; thread_stop = s.writer_stop; fwrite = k.fwrite })
          s.writer
        ≡ exit 0 w
      → Invariant s filed waiting
      → Invariant (record s { writer = w; writer_ended = true }) filed waiting
  end-Invariant s filed waiting r w on stop step v =
      let wrote : Wrote [] s.writer (exit 0 w) =
        subst (Wrote [] s.writer) step
          (writer_step-Wrote k.snaplen _ s.writer (tt, takes) (v.ready on)) in
      let (w', ended, empty, none_open, same) =
        writer_drains k.snaplen
          (record r { got = none; thread_stop = s.writer_stop; fwrite = k.fwrite }) s.writer
          (v.ready on) takes refl stop in
      let one : w' ≡ w = cc in
      record {
        all = v.all;
        holds = v.holds;
        bytes = wrote.same ∙ append-nil (out s.writer) ∙ v.bytes;
        records = v.records;
        ready = λ on'. absurd (cc);
        flushed = λ off. subst (λ x. (x.chunk ≡ []) × (x.current ≡ none)) one (empty, none_open);
      }

  pub Step-Invariant : {s t : System} → Step k s t → HasInvariant s → HasInvariant t
  Step-Invariant {s} (read_begin on quiet go) (filed, waiting, v) =
      (filed, waiting, unread s filed waiting v)
  Step-Invariant {s} (read_packet h bytes true r on g e) (filed, waiting, v) =
      (filed, waiting ++ (h, bytes) ∷ [], given-Invariant s filed waiting h bytes r g v)
  Step-Invariant {s} (read_packet h bytes false r on g e) (filed, waiting, v) =
      (filed, waiting, unread s filed waiting v)
  Step-Invariant {s} (read_timeout r on e) (filed, waiting, v) =
      (filed, waiting, unread s filed waiting v)
  Step-Invariant {s} (read_end call r on quiet stop e) (filed, waiting, v) =
      (filed, waiting, unread s filed waiting v)
  Step-Invariant {s} (write_packet r c rest w on e step) (filed, waiting, v) =
      written-Invariant s filed waiting r w c rest on e step v
  Step-Invariant {s} (write_idle r w on e step) (filed, waiting, v) =
      (filed, waiting, idle-Invariant s filed waiting r w on step v)
  Step-Invariant {s} (write_end r w on e stop step) (filed, waiting, v) =
      (filed, waiting, end-Invariant s filed waiting r w on stop step v)
  Step-Invariant {s} stop_reader (filed, waiting, v) = (filed, waiting, unread s filed waiting v)
  Step-Invariant {s} (stop_writer stop) (filed, waiting, v) =
      (filed, waiting, unread s filed waiting v)

  pub Reach-Invariant : {s t : System} → Reach k s t → HasInvariant s → HasInvariant t
  Reach-Invariant here v = v
  Reach-Invariant (later r step) v = Step-Invariant step (Reach-Invariant r v)
