-- ===== src/Icispcap/Readback.antt =====
-- What a reader of the capture format finds in the files, against the packets that were captured.
use testofdumping.Prelude.{
  ℕ, zero, suc, ◌+◌, ◌*◌, ◌/◌, ◌%◌, ◌^◌, ◌≤◌, ◌<◌, List, [], ◌∷◌, ◌++◌, Option, none, some, Bool,
  true, false, leb, ◌≡◌, refl, ap, ap₂, sym, ◌∙◌, ◌⊎◌, inl, inr, take, drop, length, length-append,
  drop-append, All, arith,
}
use testofdumping.Dump.Types.{PcapHdr, state}
use testofdumping.Dump.Consumer.Files.{GoesOn}
use testofdumping.Icispcap.Reader.{practical_len, capture}
use testofdumping.Icispcap.Writer.{Writer, Round, header_bytes, writer_run}
use testofdumping.Icispcap.Chunk.{out, IsGood}
use testofdumping.Icispcap.Handover.{narrowed, capture-IsCaptured, take-append}
use testofdumping.Icispcap.Runs.{all_bytes, writer_run_writes}

-- A packet as libpcap gives it: its header and its bytes.
abbrev pub Packet : Type 0
Packet = PcapHdr × List ℕ

abbrev word : ℕ → ℕ → ℕ → ℕ → ℕ
word a b c d = a + b * 256 + c * 65536 + d * 16777216

-- A record of the format, once its header is read: the bytes that the header announces, and then
-- the records behind them.
abbrev with_record : PcapHdr → List ℕ → Bool → Option (List Packet) → Option (List Packet)
with_record h bytes true (some rest) = some ((h, bytes) ∷ rest)
with_record h bytes true none = none
with_record h bytes false rest = none

-- The records of the format in a sequence of bytes, at most so many; what is no record gives none.
unfoldable pub read_records : ℕ → List ℕ → Option (List Packet)
read_records n [] = some []
read_records zero (x ∷ xs) = none
read_records (suc n)
      (s0 ∷ s1 ∷ s2 ∷ s3 ∷ u0 ∷ u1 ∷ u2 ∷ u3 ∷ c0 ∷ c1 ∷ c2 ∷ c3 ∷ l0 ∷ l1 ∷ l2 ∷ l3 ∷ rest) =
    let caplen = word c0 c1 c2 c3 in
    with_record
      (record {
        tv_sec = word s0 s1 s2 s3;
        tv_usec = word u0 u1 u2 u3;
        caplen = caplen;
        len = word l0 l1 l2 l3;
      })
      (take caplen rest) (leb caplen (length rest)) (read_records n (drop caplen rest))
read_records (suc n) _ = none

-- The reader needs no more records than there are bytes.
abbrev pub read_back : List ℕ → Option (List Packet)
read_back bytes = read_records (length bytes) bytes

abbrev pub written : List Packet → List ℕ
written [] = []
written ((h, bytes) ∷ ps) = (header_bytes h ++ bytes) ++ written ps

-- The header fits its words, and announces the bytes.
abbrev pub IsRecord : Packet → Type 0
IsRecord (h, bytes) =
    (h.tv_sec < 2 ^ 32)
    × (h.tv_usec < 2 ^ 32)
    × (h.caplen < 2 ^ 32)
    × (h.len < 2 ^ 32)
    × (length bytes ≡ h.caplen)

word-le32 :
    (n : ℕ) → n < 2 ^ 32 → word (n % 256) (n / 256 % 256) (n / 65536 % 256) (n / 16777216 % 256) ≡ n
word-le32 n lt = omega arith

pub read_records-written :
    (ps : List Packet) (n : ℕ)
    → All IsRecord ps
    → length ps ≤ n
    → read_records n (written ps) ≡ some ps
unfolding read_records header_bytes
read_records-written [] n all le = refl
read_records-written ((h, bytes) ∷ ps) zero all le = absurd (omega (arith, le))
read_records-written ((h, bytes) ∷ ps) (suc n) (i, all) le =
    let (lt_s, lt_u, lt_c, lt_l, full) = i in
    let rest = bytes ++ written ps in
    let e_s = word-le32 h.tv_sec lt_s in
    let e_u = word-le32 h.tv_usec lt_u in
    let e_c = word-le32 h.caplen lt_c in
    let e_l = word-le32 h.len lt_l in
    let fits : leb h.caplen (length rest) ≡ true =
      let k = length-append bytes (written ps) in ground (arith, full, k) in
    let others : read_records n (drop h.caplen rest) ≡ some ps =
      ap (read_records n) (drop-append bytes (written ps) h.caplen (sym full))
      ∙ read_records-written ps n all (omega (arith, le)) in
    (λ t.
      with_record (record { tv_sec = e_s t; tv_usec = e_u t; caplen = e_c t; len = e_l t })
        (take (e_c t) rest) (leb (e_c t) (length rest)) (read_records n (drop (e_c t) rest)))
    ∙ (λ t. with_record h (take-append h.caplen bytes (written ps) full t) (fits t) (others t))

-- What the writer is given in a round.
abbrev pub deliver : Option Packet → Round → Round
deliver none r = record r { got = none }
deliver (some (h, bytes)) r = record r { got = some (capture h bytes) }

abbrev pub deliver_all : List (Option Packet × Round) → List Round
deliver_all [] = []
deliver_all ((p, r) ∷ xs) = deliver p r ∷ deliver_all xs

-- The packets as the file keeps them, with times of 32 bits.
abbrev pub packets : List (Option Packet × Round) → List Packet
packets [] = []
packets ((none, r) ∷ xs) = packets xs
packets ((some (h, bytes), r) ∷ xs) = (narrowed h, bytes) ∷ packets xs

-- A packet that fits the array of the queue and has the bytes that its header announces, and a
-- disk that takes all that it is given.
abbrev pub IsSound : Option Packet × Round → Type 0
IsSound (none, r) = (n : ℕ) → r.fwrite n ≡ n
IsSound (some (h, bytes), r) =
    (h.caplen ≤ practical_len)
    × (length bytes ≡ h.caplen)
    × (h.len < 2 ^ 32)
    × ((n : ℕ) → r.fwrite n ≡ n)

deliver_all-IsGood :
    (xs : List (Option Packet × Round)) → All IsSound xs → All IsGood (deliver_all xs)
deliver_all-IsGood [] all = tt
deliver_all-IsGood ((none, r) ∷ xs) (takes, all) = ((tt, takes), deliver_all-IsGood xs all)
deliver_all-IsGood ((some (h, bytes), r) ∷ xs) ((le, full, lt, takes), all) =
    (((capture-IsCaptured h bytes le full).0, takes), deliver_all-IsGood xs all)

packets-IsRecord : (xs : List (Option Packet × Round)) → All IsSound xs → All IsRecord (packets xs)
packets-IsRecord [] all = tt
packets-IsRecord ((none, r) ∷ xs) (takes, all) = packets-IsRecord xs all
packets-IsRecord ((some (h, bytes), r) ∷ xs) ((le, full, lt, takes), all) =
    ((omega arith, omega arith, omega (arith, le), lt, full), packets-IsRecord xs all)

-- The bytes of the first rounds are the records of their packets.
written-first :
    (xs : List (Option Packet × Round)) (n : ℕ)
    → All IsSound xs
    → all_bytes (take n (deliver_all xs)) ≡ written (packets (take n xs))
written-first xs zero all = refl
written-first [] (suc n) all = refl
written-first ((none, r) ∷ xs) (suc n) (takes, all) = written-first xs n all
written-first ((some (h, bytes), r) ∷ xs) (suc n) ((le, full, lt, takes), all) =
    ap₂ (λ a b. a ++ b) ((capture-IsCaptured h bytes le full).1) (written-first xs n all)

take-All : (xs : List (Option Packet × Round)) (n : ℕ) → All IsSound xs → All IsSound (take n xs)
take-All xs zero all = tt
take-All [] (suc n) all = tt
take-All (x ∷ xs) (suc n) (i, all) = (i, take-All xs n all)

length-deliver_all : (xs : List (Option Packet × Round)) → length (deliver_all xs) ≡ length xs
length-deliver_all [] = refl
length-deliver_all (x ∷ xs) = ap suc (length-deliver_all xs)

pub length-written : (ps : List Packet) → length ps ≤ length (written ps)
unfolding header_bytes
length-written [] = omega arith
length-written ((h, bytes) ∷ ps) =
    let a = length-written ps in
    let b = length-append (header_bytes h ++ bytes) (written ps) in omega (arith, a, b)

-- From the capture to the file and back: WritePKTtoBuf narrows and pads each packet for the queue,
-- and the writer, with nothing written yet, collects, flushes and rotates. Then, where the disk
-- takes all that it is given, the bytes behind the headers of its files, followed by the chunk,
-- read as records of the capture format, are the packets of a first part of the rounds: each with
-- its lengths, its bytes, and its times modulo 2^32. That part is all the rounds unless the thread
-- has ended.
pub writer_run-read_back :
    (snaplen : ℕ) (first : Round) (xs : List (Option Packet × Round)) (w : Writer)
    → w.chunk ≡ []
    → out w ≡ []
    → All IsSound xs
    → let o = writer_run snaplen first (deliver_all xs) w in
      (n : ℕ) × (n ≤ length xs)
      × (read_back (out (state o)) ≡ some (packets (take n xs)))
      × ((n ≡ length xs) ⊎ (¬ GoesOn o))
writer_run-read_back snaplen first xs w empty nothing all =
    let (n, le, safe, e, ends) =
      writer_run_writes snaplen first (deliver_all xs) w empty (deliver_all-IsGood xs all) in
    let size = length-deliver_all xs in
    let ps = packets (take n xs) in
    let same : out (state (writer_run snaplen first (deliver_all xs) w)) ≡ written ps =
      e ∙ ap (λ b. b ++ all_bytes (take n (deliver_all xs))) nothing ∙ written-first xs n all in
    (
      n,
      omega (arith, le, size),
      ap read_back same
          ∙ read_records-written ps (length (written ps))
              (packets-IsRecord (take n xs) (take-All xs n all)) (length-written ps),
      elim ends [ inl full ↦ inl (full ∙ size) | inr stop ↦ inr stop ],
    )
