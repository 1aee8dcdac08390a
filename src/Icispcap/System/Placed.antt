-- ===== src/Icispcap/System/Placed.antt =====
-- Every interleaving of the two threads: where the packets are.
use testofdumping.Prelude.{
  ℕ, ◌≤◌, List, [], ◌∷◌, ◌++◌, true, ◌≡◌, refl, ap, ap₂, sym, ◌∙◌, subst, some, length, map,
  map-append, append-nil, All,
}
use testofdumping.Icispcap.Reader.{practical_len}
use testofdumping.Icispcap.Writer.{Writer}
use testofdumping.Icispcap.Chunk.{out, bodies, body_of, Ready}
use testofdumping.Icispcap.Readback.{
  Packet, written, IsRecord, read_back, read_records-written, length-written,
}
use testofdumping.Icispcap.System.{Setup, System, Reach, at_start}
use testofdumping.Icispcap.System.Invariant.{kept, Holds, Invariant, HasInvariant, Reach-Invariant}

Holds-nil : (ps : List Packet) → Holds ps [] → ps ≡ []
Holds-nil [] h = refl
Holds-nil (p ∷ ps) h = absurd h

All-left : (ps qs : List Packet) → All IsRecord (ps ++ qs) → All IsRecord ps
All-left [] qs all = tt
All-left (p ∷ ps) qs (i, all) = (i, All-left ps qs all)

-- What the writer has taken can be read back.
filed_back :
    {s : System} (filed waiting : List Packet)
    → Invariant s filed waiting
    → read_back (out s.writer) ≡ some (map kept filed)
filed_back filed waiting i =
    let sound : All IsRecord (map kept filed) =
      All-left (map kept filed) (map kept waiting)
        (subst (All IsRecord) (ap (map kept) i.all ∙ map-append kept filed waiting) i.records) in
    ap read_back i.bytes
    ∙ read_records-written (map kept filed) (length (written (map kept filed))) sound
        (length-written (map kept filed))

module _ (k : Setup) (snaplen_fits : k.snaplen ≤ practical_len)
    (takes : (n : ℕ) → k.fwrite n ≡ n) where
  pub start-Invariant : (w : Writer) → Ready w → out w ≡ [] → HasInvariant (at_start w)
  start-Invariant w v nothing = (
    [],
    [],
    record {
      all = refl;
      holds = tt;
      bytes = nothing;
      records = tt;
      ready = λ on. v;
      flushed = λ off. absurd (cc);
    },
  )

  -- Where the snapshot length is at most what an entry of the queue holds, and the disk takes all
  -- that it is given: in every state that the two threads reach together, from a writer whose first
  -- file is open and which has written nothing, the packets that the queue took are those that a reader of the
  -- capture format finds in the files, behind their headers, and in the chunk, with times modulo
  -- 2^32, followed by those that wait in the queue: none lost, repeated, changed or out of order.
  pub reach_read_back :
      {s : System} (w : Writer)
      → Ready w
      → out w ≡ []
      → Reach k (at_start w) s
      → (filed : List Packet) × (waiting : List Packet) × (s.given ≡ filed ++ waiting)
        × (read_back (out s.writer) ≡ some (map kept filed))
        × Holds waiting s.buffer
  reach_read_back w v nothing r =
      let (filed, waiting, i) =
        Reach-Invariant k snaplen_fits takes r (start-Invariant w v nothing) in
      (filed, waiting, i.all, filed_back filed waiting i, i.holds)

  -- Once the writer has ended and the queue is empty, all is in closed files.
  pub ended_complete :
      {s : System} (w : Writer)
      → Ready w
      → out w ≡ []
      → Reach k (at_start w) s
      → s.writer_ended ≡ true
      → s.buffer ≡ []
      → read_back (bodies s.writer.closed) ≡ some (map kept s.given)
  ended_complete {s} w v nothing r off empty =
      let (filed, waiting, i) =
        Reach-Invariant k snaplen_fits takes r (start-Invariant w v nothing) in
      let none_waits : waiting ≡ [] = Holds-nil waiting (subst (Holds waiting) empty i.holds) in
      let (no_chunk, no_file) = i.flushed off in
      let on_disk : out s.writer ≡ bodies s.writer.closed =
        ap₂ (λ a b. (bodies s.writer.closed ++ body_of a) ++ b) no_file no_chunk
        ∙ append-nil (bodies s.writer.closed ++ [])
        ∙ append-nil (bodies s.writer.closed) in
      let given_filed : s.given ≡ filed =
        i.all ∙ ap (λ ps. filed ++ ps) none_waits ∙ append-nil filed in
      ap read_back (sym on_disk)
      ∙ filed_back filed waiting i
      ∙ ap (λ ps. some (map kept ps)) (sym given_filed)
