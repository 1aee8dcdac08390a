-- ===== src/Icispcap/Handover.antt =====
-- From the reading thread to the writing thread: what a packet is when it leaves the one and
-- reaches the other.
use testofdumping.Prelude.{
  ℕ, zero, suc, ◌+◌, ◌-◌, ◌%◌, ◌^◌, ◌≤◌, List, [], ◌∷◌, ◌++◌, Bool, true, false, leb, take, length,
  ◌≡◌, refl, arith, length-append, take-length, ap, Option, none, some, All, All-append,
}
use testofdumping.Dump.Types.{PcapHdr, Env, Outcome, next, exit, fault, state, ◌>>=◌}
use testofdumping.Icispcap.Reader.{
  practical_len, zeros, capture, Reader, write_pkt_to_buf, Call, packet, timeout, read_error,
  no_more, reader_step, reader_loop, print_stat, reader_end,
}
use testofdumping.Icispcap.Writer.{header_bytes}
use testofdumping.Icispcap.Chunk.{NoFault, IsCaptured, record_bytes}

length-zeros : (n : ℕ) → length (zeros n) ≡ n
unfolding zeros
length-zeros zero = refl
length-zeros (suc n) = ap suc (length-zeros n)

pub take-append : (n : ℕ) (xs ys : List ℕ) → length xs ≡ n → take n (xs ++ ys) ≡ xs
take-append zero [] ys e = refl
take-append (suc n) [] ys e = absurd (omega (arith, e))
take-append zero (x ∷ xs) ys e = absurd (omega (arith, e))
take-append (suc n) (x ∷ xs) ys e = ap (λ l. x ∷ l) (take-append n xs ys (omega (arith, e)))

-- The header as the file keeps it: times of 32 bits.
abbrev pub narrowed : PcapHdr → PcapHdr
narrowed h = record h { tv_sec = h.tv_sec % 2 ^ 32; tv_usec = h.tv_usec % 2 ^ 32 }

-- A packet within PRACTICAL_LEN, of as many bytes as its header says, reaches the queue whole: with
-- an array of full size, of which the writing thread writes its header, times cut to 32 bits,
-- and exactly its bytes.
pub capture-IsCaptured :
    (h : PcapHdr) (bytes : List ℕ)
    → h.caplen ≤ practical_len
    → length bytes ≡ h.caplen
    → IsCaptured (capture h bytes)
      × (record_bytes (capture h bytes) ≡ header_bytes (narrowed h) ++ bytes)
unfolding capture
capture-IsCaptured h bytes le full = ((le, size), ap (λ bs. header_bytes (narrowed h) ++ bs) front)
  where
    all : take h.caplen bytes ≡ bytes
    all = take-length h.caplen bytes full

    size : length (take h.caplen bytes ++ zeros (practical_len - h.caplen)) ≡ practical_len
    size = rw all (
        omega (
          arith,
          full,
          length-append bytes (zeros (practical_len - h.caplen)),
          length-zeros (practical_len - h.caplen),
        ))

    front : take h.caplen (take h.caplen bytes ++ zeros (practical_len - h.caplen)) ≡ bytes
    front = rw all (take-append h.caplen bytes (zeros (practical_len - h.caplen)) full)

-- A packet within PRACTICAL_LEN, of as many bytes as its header says.
abbrev pub IsWhole : Bool × Call → Type 0
IsWhole (stop, packet h bytes enqueued) = (h.caplen ≤ practical_len) × (length bytes ≡ h.caplen)
IsWhole (stop, timeout) = Unit
IsWhole (stop, read_error) = Unit
IsWhole (stop, no_more) = Unit

-- The count is that of the packets handed over or refused, and what was handed over is whole.
pub record Tallied (s : Reader) : Type 0 where
  pub count : s.count_pkt ≡ (length s.handed + s.refused) % 2 ^ 32
  pub whole : All IsCaptured s.handed

write_pkt_to_buf-Tallied :
    (h : PcapHdr) (bytes : List ℕ) (enqueued : Bool) (s : Reader)
    → (h.caplen ≤ practical_len) × (length bytes ≡ h.caplen)
    → Tallied s
    → let o = write_pkt_to_buf h bytes enqueued s in NoFault o × Tallied (state o)
unfolding write_pkt_to_buf
write_pkt_to_buf-Tallied h bytes true s w t = rw fits (
  tt,
  record {
    count = omega (arith, t.count, length-append s.handed (capture h bytes ∷ []));
    whole = All-append IsCaptured s.handed _ t.whole ((capture-IsCaptured h bytes w.0 w.1).0, tt);
  },
)
  where
    fits : leb h.caplen practical_len ≡ true
    fits = ground (arith, w.0)
write_pkt_to_buf-Tallied h bytes false s w t =
    rw fits (tt, record { count = omega (arith, t.count); whole = t.whole })
  where
    fits : leb h.caplen practical_len ≡ true
    fits = ground (arith, w.0)

reader_end-Tallied :
    (env : Env) (s : Reader)
    → Tallied s
    → NoFault (reader_end env s) × Tallied (state (reader_end env s))
unfolding reader_end
reader_end-Tallied env s t = go (print_stat env)
  where
    go :
        (r : Option ℕ)
        → let o : Outcome Reader = elim r [ none ↦ exit 0 s | some code ↦ exit code s ] in
          NoFault o × Tallied (state o)
    go none = (tt, t)
    go (some code) = (tt, t)

reader_step-Tallied :
    (env : Env) (stop : Bool) (call : Call) (s : Reader)
    → IsWhole (stop, call)
    → Tallied s
    → let o = reader_step env stop call s in NoFault o × Tallied (state o)
unfolding reader_step
reader_step-Tallied env true call s w t = reader_end-Tallied env s t
reader_step-Tallied env false (packet h bytes enqueued) s w t =
    write_pkt_to_buf-Tallied h bytes enqueued s w t
reader_step-Tallied env false timeout s w t = (tt, t)
reader_step-Tallied env false read_error s w t = (tt, t)
reader_step-Tallied env false no_more s w t = (tt, t)

after-Tallied :
    (o : Outcome Reader) (f : Reader → Outcome Reader)
    → NoFault o × Tallied (state o)
    → ((s : Reader) → Tallied s → NoFault (f s) × Tallied (state (f s)))
    → NoFault (o >>= f) × Tallied (state (o >>= f))
after-Tallied (next s) f t go = go s t.1
after-Tallied (exit code s) f t go = t
after-Tallied (fault why s) f t go = t

-- Over any calls whose packets are whole and within PRACTICAL_LEN, from a reader whose count agrees:
-- the reader never leaves its array, its count is that of the packets handed over or refused,
-- modulo 2^32, however the loop ends, and all it hands over is as the writer needs it.
pub reader_loop-Tallied :
    (env : Env) (calls : List (Bool × Call)) (s : Reader)
    → All IsWhole calls
    → Tallied s
    → let o = reader_loop env calls s in NoFault o × Tallied (state o)
unfolding reader_loop
reader_loop-Tallied env [] s w t = (tt, t)
reader_loop-Tallied env ((stop, call) ∷ rest) s w t =
    after-Tallied _ (reader_loop env rest) (reader_step-Tallied env stop call s w.0 t)
      (λ s' t'. reader_loop-Tallied env rest s' w.1 t')
