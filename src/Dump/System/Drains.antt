-- ===== src/Dump/System/Drains.antt =====
-- The writing thread empties the ring.
use testofdumping.Prelude.{
  ℕ, suc, ◌+◌, List, [], ◌∷◌, ◌++◌, true, ◌≡◌, refl, ap, sym, ◌∙◌, inl, inr, length, map, none,
  append-nil, arith, Bool-cases,
}
use testofdumping.Prelude.Int.{negsuc}
use testofdumping.Dump.Types.{Program, Text, Mbuf, Settings, Env, next, state, ◌>>=◌, ready_suffix}
use testofdumping.Dump.Consumer.{
  Consumer, rotation_due, rotations_over, rotate, rotate_if_due, write, size_reached,
  packets_reached, check_limits, consumer_step, entry_of,
}
use testofdumping.Dump.Consumer.Files.{written, held, AllThere}
use testofdumping.Dump.Consumer.Numbering.{numbered}
use testofdumping.Dump.Consumer.Names.{names}
use testofdumping.Dump.System.{Setup, System, written_out, Reach, later}
use testofdumping.Dump.System.Buffers.{Reach-Placed}
use testofdumping.Dump.System.Held.{Reach-held}

-- The options set no limit.
pub record IsUnlimited (set : Settings) : Type 0 where
  pub packets : set.max_packets ≡ 0
  pub size : set.max_size ≡ 0
  pub rotations : set.max_rotations ≡ negsuc 0

check_limits-next :
    (p : Program) (set : Settings) (env : Env) (c : Consumer)
    → IsUnlimited set
    → check_limits p set env c ≡ next c
unfolding check_limits size_reached packets_reached
check_limits-next p set env c u = simp (u.packets, u.size)

rotate_if_due-next :
    (p : Program) (set : Settings) (base : Text) (env : Env) (sec : ℕ) (c : Consumer)
    → IsUnlimited set
    → env.opened ≡ true
    → (c' : Consumer) × (rotate_if_due p set base env sec c ≡ next c')
unfolding rotate_if_due rotate rotations_over
rotate_if_due-next p set base env sec c u opens = elim (Bool-cases (rotation_due set c sec)) [
  | inl due ↦ (state (rotate p set base env sec c), simp (due, u.rotations, opens))
  | inr early ↦ (c, rw early)
]

consumer_step-next :
    (p : Program) (set : Settings) (base : Text) (env : Env) (m : Mbuf) (c : Consumer)
    → IsUnlimited set
    → env.opened ≡ true
    → (c' : Consumer) × (consumer_step p set base env m c ≡ next c')
unfolding consumer_step
consumer_step-next p set base env m c u opens =
    let (c1, e) = rotate_if_due-next p set base env m.tx_offload c u opens in
    (
      write p m c1,
      ap (λ o. o >>= λ c'. check_limits p set env (write p m c')) e
          ∙ check_limits-next p set env (write p m c1) u,
    )

-- Iterations of the writing thread alone.
pub data Writes (k : Setup) : System → System → Type 0 where
  stay : {s : System} → Writes k s s
  wrote :
      {s t : System} (env : Env) (m : Mbuf) (rest : List Mbuf) (c : Consumer)
      → s.ring ≡ m ∷ rest
      → consumer_step k.program k.settings k.base env m s.cons ≡ next c
      → Writes k (record s { ring = rest; cons = c; free = s.free + 1 }) t
      → Writes k s t

Writes-Reach : {k : Setup} {c : Consumer} {s t : System} → Writes k s t → Reach k c s → Reach k c t
Writes-Reach stay r = r
Writes-Reach (wrote env m rest c' e goes more) r =
    Writes-Reach more (later r (written_out env m rest c' e goes))

module _ {k : Setup} (answers : ℕ → Env) (opens : (n : ℕ) → (answers n).opened ≡ true)
    (u : IsUnlimited k.settings) where
  drains :
      (ring : List Mbuf) (n : ℕ) (s : System)
      → s.ring ≡ ring
      → (t : System) × Writes k s t × (t.ring ≡ []) × (t.queued ≡ s.queued) × (t.lost ≡ s.lost)
  drains [] n s e = (s, stay, e, refl, refl)
  drains (m ∷ rest) n s e =
      let (c', goes) =
        consumer_step-next k.program k.settings k.base (answers n) m s.cons u (opens n) in
      let (t, more, none_left, queued, lost) =
        drains rest (suc n) (record s { ring = rest; cons = c'; free = s.free + 1 }) refl in
      (t, wrote (answers n) m rest c' e goes more, none_left, queued, lost)

  -- In a program that renames no file, where the options set no limit and pcap_dump_open works,
  -- iterations of the writing thread alone lead from every state that the two threads reach, by
  -- iterations that let their processes go on and overrun no buffer, from a consumer with an open
  -- file, nothing written, and the files named in turn, all of them there, to a state with an empty
  -- ring: the files then hold all packets that were ever queued, in order, and all buffers of the
  -- pool are free, but for those that the ring has refused.
  pub ring_drains :
      {c : Consumer} {s : System}
      → ready_suffix k.program ≡ none
      → c.is_open ≡ true
      → names c ≡ numbered k.base c.nb_rotations
      → AllThere c
      → written c ≡ []
      → Reach k c s
      → (t : System) × Writes k s t
        × (t.ring ≡ [])
        × (held t.cons ≡ map (entry_of k.program) s.queued)
        × (t.free + length s.lost ≡ k.pool)
  ring_drains {s} plain open_file in_turn there empty r =
      let (t, more, none_left, queued, lost) = drains s.ring 0 s refl in
      let r' = Writes-Reach more r in
      let v = Reach-Placed open_file empty r' in
      (
        t,
        more,
        none_left,
        Reach-held plain open_file in_turn there r'
            ∙ sym (append-nil (written t.cons))
            ∙ ap (λ ms. written t.cons ++ map (entry_of k.program) ms) (sym none_left)
            ∙ v.in_order
            ∙ ap (map (entry_of k.program)) queued,
        omega (arith, v.buffers, ap length none_left, ap length lost),
      )
