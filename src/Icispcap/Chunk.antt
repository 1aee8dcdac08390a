-- ===== src/Icispcap/Chunk.antt =====
-- The chunk never overruns, and the files hold every packet's bytes in order.
use testofdumping.Prelude.{
  ℕ, ◌+◌, ◌-◌, ◌%◌, ◌^◌, ◌≤◌, List, [], ◌∷◌, ◌++◌, Option, none, some, ◌≡◌, refl, ap, sym, ◌∙◌, inl,
  inr, take, length, length-append, length-take, take-length, append-nil, append_assoc, arith,
  Option-cases, Bool-cases, ltb, ◌&&◌,
}
use testofdumping.Dump.Types.{Outcome, next, exit, fault, state, ◌>>=◌}
use testofdumping.Dump.Consumer.Files.{GoesOn}
use testofdumping.Icispcap.Reader.{Captured, practical_len}
use testofdumping.Icispcap.Writer.{
  Writer, Round, PcapFile, chunksize, sizeof_captured, header_bytes, close_current, create_new_file,
  flush_to_file, append_chunk, flush_if_full, take_packet, cleanup, dequeue, rotate_file,
  writer_step,
}

-- The bytes of a packet in a file.
abbrev pub record_bytes : Captured → List ℕ
record_bytes c = header_bytes c.sf_hdr ++ take c.sf_hdr.caplen c.pktdata

abbrev pub body_of : Option PcapFile → List ℕ
body_of none = []
body_of (some f) = f.body

abbrev pub bodies : List PcapFile → List ℕ
bodies [] = []
bodies (f ∷ fs) = f.body ++ bodies fs

-- All that was written behind file headers, and what waits in the chunk.
abbrev pub out : Writer → List ℕ
out w = (bodies w.closed ++ body_of w.current) ++ w.chunk

-- What the queue delivers is a captured packet: the array is whole, the length within it.
abbrev pub IsCaptured : Captured → Type 0
IsCaptured c = (c.sf_hdr.caplen ≤ practical_len) × (length c.pktdata ≡ practical_len)

abbrev pub Delivers : Option Captured → Type 0
Delivers none = Unit
Delivers (some c) = IsCaptured c

-- The disk takes all that it is given.
abbrev pub IsGood : Round → Type 0
IsGood r = Delivers r.got × ((n : ℕ) → r.fwrite n ≡ n)

abbrev pub got_bytes : Option Captured → List ℕ
got_bytes none = []
got_bytes (some c) = record_bytes c

-- A file is open, and the chunk has room for one more packet.
pub record Ready (w : Writer) : Type 0 where
  pub open_file : (f : PcapFile) × (w.current ≡ some f)
  pub room : length w.chunk + sizeof_captured ≤ chunksize

abbrev pub NoFault {ℓ} : {S : Type ℓ} → Outcome S → Type 0
NoFault (next s) = Unit
NoFault (exit code s) = Unit
NoFault (fault why s) = ⊥

-- The step adds these bytes, is defined, and is ready for another where it goes on.
pub record Wrote (bytes : List ℕ) (w : Writer) (o : Outcome Writer) : Type 0 where
  pub same : out (state o) ≡ out w ++ bytes
  pub safe : NoFault o
  pub ready : GoesOn o → Ready (state o)

bodies-snoc : (fs : List PcapFile) (f : PcapFile) → bodies (fs ++ f ∷ []) ≡ bodies fs ++ f.body
bodies-snoc [] f = append-nil f.body
bodies-snoc (g ∷ fs) f =
    ap (λ b. g.body ++ b) (bodies-snoc fs f) ∙ sym (append_assoc g.body (bodies fs) f.body)

pub out-close_current : (w : Writer) → out (close_current w) ≡ out w
unfolding close_current
out-close_current w = elim (Option-cases w.current) [
  | inl e ↦ ground (arith, e)
  | inr (f, e) ↦ ground (arith, e, bodies-snoc w.closed f, append-nil (bodies (w.closed ++ f ∷ [])))
]

pub out-flush :
    (r : Round) (w : Writer) → ((n : ℕ) → r.fwrite n ≡ n) → out (flush_to_file r w) ≡ out w
unfolding flush_to_file
out-flush r w full = elim (Option-cases w.current) [
  | inl e ↦ ground (arith, e)
  | inr (f, e) ↦ ground (
    arith,
    e,
    full (length w.chunk),
    take-length (length w.chunk) w.chunk,
    append-nil (bodies w.closed ++ (f.body ++ w.chunk)),
    append_assoc (bodies w.closed) f.body w.chunk,
  )
]

pub flush-Ready :
    (r : Round) (w : Writer) (f : PcapFile) → w.current ≡ some f → Ready (flush_to_file r w)
unfolding flush_to_file
flush-Ready r w f e = record {
  open_file =
      (record f { body = f.body ++ take (r.fwrite (length w.chunk)) w.chunk }, ground (arith, e));
  room = ground (arith, e);
}

pub append_chunk_lem :
    (bytes : List ℕ) (w : Writer)
    → length w.chunk + length bytes ≤ chunksize
    → append_chunk bytes w ≡ next (record w { chunk = w.chunk ++ bytes })
unfolding append_chunk
append_chunk_lem bytes w fits = ground arith

pub length-header_bytes : (c : Captured) → length (header_bytes c.sf_hdr) ≡ 16
unfolding header_bytes
length-header_bytes c = refl

pub flush_empties : (r : Round) (w : Writer) → Ready w → (flush_to_file r w).chunk ≡ []
unfolding flush_to_file
flush_empties r w v = let (f, e) = v.open_file in ground (arith, e)

flush_if_full-Wrote :
    (r : Round) (w : Writer) (f : PcapFile)
    → w.current ≡ some f
    → ((n : ℕ) → r.fwrite n ≡ n)
    → Wrote [] w (flush_if_full r w)
unfolding flush_if_full
flush_if_full-Wrote r w f e full =
    elim (Bool-cases (ltb chunksize (length w.chunk + sizeof_captured))) [
      | inl big ↦ rw big (record {
        same = out-flush r w full ∙ sym (append-nil (out w));
        safe = tt;
        ready = λ g. flush-Ready r w f e;
      })
      | inr small ↦ rw small (record {
        same = sym (append-nil (out w));
        safe = tt;
        ready = λ g. record { open_file = (f, e); room = ground (arith, small) };
      })
    ]

take_packet-Wrote :
    (r : Round) (c : Captured) (w : Writer)
    → IsCaptured c
    → ((n : ℕ) → r.fwrite n ≡ n)
    → Ready w
    → Wrote (record_bytes c) w (take_packet r c w)
unfolding take_packet
take_packet-Wrote r c w (short, whole) full v =
    rw
      (
        append_chunk_lem (header_bytes c.sf_hdr) w1 (omega (arith, v.room, length-header_bytes c)),
        append_chunk_lem payload w2 room2,
      )
      (record { same = flushed.same ∙ grown; safe = flushed.safe; ready = flushed.ready })
  where
    payload : List ℕ
    payload = take c.sf_hdr.caplen c.pktdata

    w1 : Writer
    w1 = record w { no_of_pkts = (w.no_of_pkts + 1) % 2 ^ 32 }

    w2 : Writer
    w2 = record w1 { chunk = w.chunk ++ header_bytes c.sf_hdr }

    length-payload : length payload ≡ c.sf_hdr.caplen
    length-payload = omega (arith, length-take c.sf_hdr.caplen c.pktdata)

    room2 : length (w.chunk ++ header_bytes c.sf_hdr) + length payload ≤ chunksize
    room2 = omega (
      arith,
      v.room,
      length-append w.chunk (header_bytes c.sf_hdr),
      length-header_bytes c,
      length-payload,
    )

    w3 : Writer
    w3 = record w1 { chunk = (w.chunk ++ header_bytes c.sf_hdr) ++ payload }

    flushed : Wrote [] w3 (flush_if_full r w3)
    flushed = flush_if_full-Wrote r w3 v.open_file.0 v.open_file.1 full

    grown : out w3 ++ [] ≡ out w ++ record_bytes c
    grown = simp (append-nil, append_assoc)

-- Both ways to end a round without a packet.
dequeue-Wrote :
    (r : Round) (got : Option Captured) (w : Writer)
    → Delivers got
    → ((n : ℕ) → r.fwrite n ≡ n)
    → Ready w
    → Wrote (got_bytes got) w (dequeue r got w)
unfolding dequeue cleanup
dequeue-Wrote r (some c) w d full v = take_packet-Wrote r c w d full v
dequeue-Wrote r none w d full v = elim (Bool-cases r.thread_stop) [
  | inl stop ↦ simp stop (record {
    same = out-close_current (flush_to_file r w) ∙ out-flush r w full ∙ sym (append-nil (out w));
    safe = tt;
    ready = λ g. absurd g;
  })
  | inr go ↦ rw go (record { same = sym (append-nil (out w)); safe = tt; ready = λ g. v })
]

pub close_current_facts :
    (w : Writer) → ((close_current w).current ≡ none) × ((close_current w).chunk ≡ w.chunk)
unfolding close_current
close_current_facts w = elim (Option-cases w.current) [
  | inl e ↦ ground (arith, e)
  | inr (f, e) ↦ ground (arith, e)
]

pub create_new_file-Wrote :
    (snaplen : ℕ) (r : Round) (w : Writer)
    → length w.chunk + sizeof_captured ≤ chunksize
    → Wrote [] w (create_new_file snaplen r w)
unfolding create_new_file
create_new_file-Wrote snaplen r w room = elim (Bool-cases r.opened) [
  | inl ok ↦ simp ok (record {
    same =
        ap (λ cur. (bodies (close_current w).closed ++ body_of cur) ++ (close_current w).chunk)
          (sym none_open)
        ∙ out-close_current w
        ∙ sym (append-nil (out w));
    safe = tt;
    ready = λ g. record { open_file = (_, refl); room = rw same_chunk room };
  })
  | inr failed ↦ simp failed (record {
    same = out-close_current w ∙ sym (append-nil (out w));
    safe = tt;
    ready = λ g. absurd g;
  })
]
  where
    none_open : (close_current w).current ≡ none
    none_open = (close_current_facts w).0

    same_chunk : (close_current w).chunk ≡ w.chunk
    same_chunk = (close_current_facts w).1

rotate_file-Wrote :
    (snaplen : ℕ) (r : Round) (w : Writer) → Ready w → Wrote [] w (rotate_file snaplen r w)
unfolding rotate_file
rotate_file-Wrote snaplen r w v =
    elim (Bool-cases
      (w.filerotate && ltb w.interval ((r.current_time + 2 ^ 64 - w.pretime) % 2 ^ 64))) [
        | inl due ↦ rw due (create_new_file-Wrote snaplen r w v.room)
        | inr early ↦
            rw early (record { same = sym (append-nil (out w)); safe = tt; ready = λ g. v })
      ]

-- A step that adds nothing behind one that may end.
Wrote-then :
    (xs : List ℕ) (w : Writer) (o : Outcome Writer) (f : Writer → Outcome Writer)
    → Wrote xs w o
    → ((w' : Writer) → Ready w' → Wrote [] w' (f w'))
    → Wrote xs w (o >>= f)
Wrote-then xs w (next w') f a b =
    let c = b w' (a.ready tt) in
    record { same = c.same ∙ append-nil (out w') ∙ a.same; safe = c.safe; ready = c.ready }
Wrote-then xs w (exit code w') f a b = a
Wrote-then xs w (fault why w') f a b = a

pub writer_step-Wrote :
    (snaplen : ℕ) (r : Round) (w : Writer)
    → IsGood r
    → Ready w
    → Wrote (got_bytes r.got) w (writer_step snaplen r w)
unfolding writer_step
writer_step-Wrote snaplen r w (d, full) v =
    Wrote-then (got_bytes r.got) w _ (rotate_file snaplen r) (dequeue-Wrote r r.got w d full v)
      (rotate_file-Wrote snaplen r)
