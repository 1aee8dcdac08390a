-- ===== src/Dump/System/Held.antt =====
-- What the files hold while both threads run, in the programs that rename no file.
use testofdumping.Prelude.{
  ◌+◌, ◌%◌, ◌^◌, ◌≤◌, [], ◌++◌, true, ◌≡◌, ◌∙◌, ap, none, length, length-append, length-map, map,
  arith, subst,
}
use testofdumping.Dump.Types.{Mbuf, Env, next, ready_suffix}
use testofdumping.Dump.Consumer.{Consumer, consumer_step, entry_of}
use testofdumping.Dump.Consumer.Files.{written, held, held_all, AllThere}
use testofdumping.Dump.Consumer.Numbering.{numbered}
use testofdumping.Dump.Consumer.Names.{names, Named, consumer_step-Named}
use testofdumping.Dump.System.{
  Setup, System, Step, read_none, read_queued, read_refused, written_out, Reach, start, later,
}
use testofdumping.Dump.System.Buffers.{Placed, Reach-Placed, none_lost}

-- The file that is written to is open, the files carry the first numbered names, and none has
-- taken the place of another.
pub record Apart (k : Setup) (c : Consumer) : Type 0 where
  pub open_file : c.is_open ≡ true
  pub in_turn : names c ≡ numbered k.base c.nb_rotations
  pub there : AllThere c

module _ {k : Setup} (plain : ready_suffix k.program ≡ none) where
  went_on-Apart :
      (env : Env) (m : Mbuf) (c c' : Consumer)
      → consumer_step k.program k.settings k.base env m c ≡ next c'
      → Apart k c
      → Apart k c'
  went_on-Apart env m c c' e a =
      let n : Named k.base (next c') = subst (Named k.base) e (
        consumer_step-Named k.program plain k.settings k.base env m c a.open_file a.in_turn
          a.there) in
      record { open_file = n.still_open tt; in_turn = n.now tt; there = n.there }

  Step-Apart : {s t : System} → Step k s t → Apart k s.cons → Apart k t.cons
  Step-Apart (read_none r got q e) a = a
  Step-Apart (read_queued r q m e pos room) a = a
  Step-Apart (read_refused r q m e pos full) a = a
  Step-Apart {s} (written_out env m rest c e w) a = went_on-Apart env m s.cons c w a

  Reach-Apart : {c : Consumer} {s : System} → Apart k c → Reach k c s → Apart k s.cons
  Reach-Apart a start = a
  Reach-Apart a (later r st) = Step-Apart st (Reach-Apart a r)

  pub Reach-held :
      {c : Consumer} {s : System}
      → c.is_open ≡ true
      → names c ≡ numbered k.base c.nb_rotations
      → AllThere c
      → Reach k c s
      → held s.cons ≡ written s.cons
  Reach-held {s} h in_turn there r =
      held_all s.cons
        (Reach-Apart (record { open_file = h; in_turn = in_turn; there = there }) r).there

  -- In a program that renames no file, in every state that the two threads reach together, in any
  -- order of their iterations, each of which lets its process go on and overruns no buffer, from a
  -- consumer with an open file, nothing written, and the files named in turn, all of them there:
  -- each buffer of the pool is free, on the ring, or was refused by it; the ring is within its size;
  -- `nb_captured_packets` counts what was queued or refused, modulo 2^64; no file has taken the
  -- place of another; and the files followed by the ring hold the queued packets, in the order in
  -- which they were read.
  pub Reach-Held :
      {c : Consumer} {s : System}
      → c.is_open ≡ true
      → names c ≡ numbered k.base c.nb_rotations
      → AllThere c
      → written c ≡ []
      → Reach k c s
      → Placed k s
        × AllThere s.cons
        × (held s.cons ++ map (entry_of k.program) s.ring ≡ map (entry_of k.program) s.queued)
  Reach-Held {s} h in_turn there empty r =
      let v = Reach-Placed h empty r in
      (
        v,
        (Reach-Apart (record { open_file = h; in_turn = in_turn; there = there }) r).there,
        ap (λ es. es ++ map (entry_of k.program) s.ring) (Reach-held h in_turn there r)
            ∙ v.in_order,
      )

  -- In a program that renames no file, where the pool has no more buffers than the ring takes, as
  -- in the programs that create a ring of `buffer_size` and a pool of `buffer_size - 1`, the ring
  -- never refuses a packet: in every state that the two threads reach, by iterations that let their
  -- processes go on and overrun no buffer, from a consumer with an open file, nothing written, and
  -- the files named in turn, all of them there, nothing is lost, and the files followed by the ring
  -- hold as many packets as were captured, modulo 2^64.
  pub nothing_lost :
      {c : Consumer} {s : System}
      → k.pool ≤ k.ring_cap
      → c.is_open ≡ true
      → names c ≡ numbered k.base c.nb_rotations
      → AllThere c
      → written c ≡ []
      → Reach k c s
      → (s.lost ≡ [])
        × (s.prod.nb_captured_packets ≡ (length (held s.cons) + length s.ring) % 2 ^ 64)
  nothing_lost {s} fits h in_turn there empty r =
      let v = Reach-Placed h empty r in
      let l = none_lost fits h empty r in
      (
        l,
        omega (
          arith,
          v.captured,
          ap length l,
          ap length v.in_order,
          ap length (Reach-held h in_turn there r),
          length-append (written s.cons) (map (entry_of k.program) s.ring),
          length-map s.ring (entry_of k.program),
          length-map s.queued (entry_of k.program),
        ),
      )
