-- ===== src/Dump/System/Buffers.antt =====
-- Every interleaving: where the packets and the buffers are.
use testofdumping.Prelude.{
  ℕ, ◌+◌, ◌%◌, ◌^◌, ◌≤◌, ◌<◌, List, [], ◌∷◌, ◌++◌, Bool, true, false, ◌≡◌, refl, ap, sym, ◌∙◌, inl,
  inr, none, some, length, length-append, map, map-append, append-nil, append_assoc, arith, subst,
}
use testofdumping.Dump.Types.{Mbuf, Env, next, fault, no_buffer, PcapHdr}
use testofdumping.Dump.Consumer.{Consumer, consumer_step, entry_of}
use testofdumping.Dump.Consumer.Files.{written}
use testofdumping.Dump.Consumer.Written.{Stepped, consumer_step-Stepped}
use testofdumping.Dump.Producer.{Producer, packet, producer_step, too_big, note_header, handle}
use testofdumping.Dump.Producer.Fidelity.{queued, unqueued}
use testofdumping.Dump.System.{
  Setup, System, Step, read_none, read_queued, read_refused, written_out, Reach, start, later,
}

-- The places of all buffers and of all captured packets.
pub record Placed (k : Setup) (s : System) : Type 0 where
  pub open_file : s.cons.is_open ≡ true
  pub buffers : s.free + length s.ring + length s.lost ≡ k.pool
  pub room_left : length s.ring ≤ k.ring_cap
  pub captured : s.prod.nb_captured_packets ≡ (length s.queued + length s.lost) % 2 ^ 64
  pub in_order :
      written s.cons ++ map (entry_of k.program) s.ring ≡ map (entry_of k.program) s.queued

-- A consumer that went on has written the packet and has an open file.
went_on :
    (k : Setup) (env : Env) (m : Mbuf) (c c' : Consumer)
    → c.is_open ≡ true
    → consumer_step k.program k.settings k.base env m c ≡ next c'
    → (written c' ≡ written c ++ entry_of k.program m ∷ []) × (c'.is_open ≡ true)
went_on k env m c c' h e = elim (st.files) [
  | inl w ↦ (w, st.still_open tt)
  | inr w ↦ absurd (w.1 tt)
]
  where
    st : Stepped k.program m c (next c')
    st =
        subst (Stepped k.program m c) e
          (consumer_step-Stepped k.program k.settings k.base env m c h)

Step-Placed : {k : Setup} {s t : System} → Step k s t → Placed k s → Placed k t
Step-Placed {k} {s} (read_none r got q e) v = record {
  open_file = v.open_file;
  buffers = v.buffers;
  room_left = v.room_left;
  captured = unqueued k.program k.room got r s.prod q e ∙ v.captured;
  in_order = v.in_order;
}
Step-Placed {k} {s} (read_queued r q m e pos room) v =
    let (h, bytes, _, _, _, _, count) = queued k.program k.room true r s.prod q m e in
    record {
      open_file = v.open_file;
      buffers = omega (arith, v.buffers, length-append s.ring (m ∷ []));
      room_left = omega (arith, length-append s.ring (m ∷ []));
      captured = omega (arith, count, v.captured, length-append s.queued (m ∷ []));
      in_order =
          ap (λ es. written s.cons ++ es) (map-append (entry_of k.program) s.ring (m ∷ []))
          ∙ sym (append_assoc (written s.cons) (map (entry_of k.program) s.ring) _)
          ∙ ap (λ es. es ++ entry_of k.program m ∷ []) v.in_order
          ∙ sym (map-append (entry_of k.program) s.queued (m ∷ []));
    }
Step-Placed {k} {s} (read_refused r q m e pos full) v =
    let (h, bytes, _, _, _, _, count) = queued k.program k.room true r s.prod q m e in
    record {
      open_file = v.open_file;
      buffers = omega (arith, v.buffers, length-append s.lost (m ∷ []));
      room_left = v.room_left;
      captured = omega (arith, count, v.captured, length-append s.lost (m ∷ []));
      in_order = v.in_order;
    }
Step-Placed {k} {s} (written_out env m rest c e w) v =
    let (wrote, opened) = went_on k env m s.cons c v.open_file w in
    record {
      open_file = opened;
      buffers = omega (arith, v.buffers, ap length e);
      room_left = omega (arith, v.room_left, ap length e);
      captured = v.captured;
      in_order =
          ap (λ es. es ++ map (entry_of k.program) rest) wrote
          ∙ append_assoc (written s.cons) (entry_of k.program m ∷ []) _
          ∙ ap (λ ms. written s.cons ++ map (entry_of k.program) ms) (sym e)
          ∙ v.in_order;
    }

-- Each buffer is free, on the ring or refused by it, in every state that the two threads reach.
pub Reach-Placed :
    {k : Setup} {c : Consumer} {s : System}
    → c.is_open ≡ true
    → written c ≡ []
    → Reach k c s
    → Placed k s
Reach-Placed {k} {c} h empty start = record {
  open_file = h;
  buffers = omega arith;
  room_left = omega arith;
  captured = refl;
  in_order = append-nil (written c) ∙ empty;
}
Reach-Placed h empty (later r st) = Step-Placed st (Reach-Placed h empty r)

Step-lost :
    {k : Setup} {s t : System}
    → k.pool ≤ k.ring_cap
    → Step k s t
    → Placed k s
    → s.lost ≡ []
    → t.lost ≡ []
Step-lost fits (read_none r got q e) v l = l
Step-lost fits (read_queued r q m e pos room) v l = l
Step-lost fits (read_refused r q m e pos full) v l = absurd (omega (arith, v.buffers))
Step-lost fits (written_out env m rest c e w) v l = l

-- Where the pool has no more buffers than the ring takes, the ring never refuses a packet.
pub none_lost :
    {k : Setup} {c : Consumer} {s : System}
    → k.pool ≤ k.ring_cap
    → c.is_open ≡ true
    → written c ≡ []
    → Reach k c s
    → s.lost ≡ []
none_lost fits h empty start = refl
none_lost fits h empty (later r st) =
    Step-lost fits st (Reach-Placed h empty r) (none_lost fits h empty r)

empty_pool :
    (k : Setup) (h : PcapHdr) (bytes : List ℕ) (s : Producer)
    → too_big k.room h ≡ false
    → (q : Producer) × (producer_step k.program k.room false (packet h bytes) s
        ≡ fault no_buffer (q, none))
unfolding producer_step note_header handle
empty_pool k h bytes s fits = (record s { hdr = some h }, rw fits)

-- When the ring holds all buffers of the pool, in a state that the two threads reach from a
-- consumer with an open file and nothing written, the next packet that passes the size test is
-- copied through a null pointer: a buffer can be allocated only where one is free, and the result
-- of the allocation is not looked at.
pub backlog_faults :
    {k : Setup} {c : Consumer} {s : System} (h : PcapHdr) (bytes : List ℕ) (got : Bool)
    → c.is_open ≡ true
    → written c ≡ []
    → Reach k c s
    → length s.ring ≡ k.pool
    → too_big k.room h ≡ false
    → (got ≡ true → 0 < s.free)
    → (q : Producer) × (producer_step k.program k.room got (packet h bytes) s.prod
        ≡ fault no_buffer (q, none))
backlog_faults {k} {c} {s} h bytes false open_file empty r all fits pool_rule =
    empty_pool k h bytes s.prod fits
backlog_faults {k} {c} {s} h bytes true open_file empty r all fits pool_rule =
    absurd (omega (arith, pool_rule refl, (Reach-Placed open_file empty r).buffers))
