-- ===== src/Dump/Consumer/Rotation.antt =====
-- Rotation: how many files there are, and which packets share one.
use testofdumping.Prelude.{
  ℕ, ◌+◌, ◌-◌, ◌%◌, ◌^◌, ◌≤◌, ◌<◌, List, [], ◌∷◌, true, false, ◌≡◌, refl, ap, sym, ◌∙◌, ◌⊎◌, inl,
  inr, arith, length, length-append, All, All-append, Bool-cases, subst,
}
use testofdumping.Dump.Types.{
  Program, Text, Mbuf, OutFile, Settings, Env, Outcome, next, exit, fault, state, ◌>>=◌,
  file_name_rotated,
}
use testofdumping.Dump.Consumer.{
  Consumer, replace, close_file, with_file, sig_handler, sigint, rotate, rotate_if_due,
  rotation_due, rotations_over, entry_of, write, check_limits, consumer_step, consumer_loop,
}
use testofdumping.Dump.Consumer.Files.{GoesOn, length-replace}

-- The seconds from `since` to a packet, as `uint64_t` subtracts them.
abbrev pub age : ℕ → ℕ → ℕ
age since sec = (sec + 2 ^ 64 - since) % 2 ^ 64

-- No packet of the file is more than the rotation time younger than the file.
abbrev pub InWindow : Settings → OutFile → Type 0
InWindow set f = All (λ e. age f.since e.hdr.tv_sec ≤ set.seconds_rotation) f.entries

-- What holds of a consumer that goes on, where rotation is switched on.
pub record Rotated (set : Settings) (c : Consumer) : Type 0 where
  pub started : c.current.since ≡ c.last_rotation
  pub count : length c.closed ≡ c.nb_rotations
  pub quota : (c.nb_rotations ≡ 0) ⊎ (rotations_over set c.nb_rotations ≡ false)
  pub old : All (InWindow set) c.closed
  pub new : InWindow set c.current

-- After the part of the loop that may rotate, the packet's time also falls in the window.
record Ready (set : Settings) (sec : ℕ) (c : Consumer) : Type 0 where
  rotated : Rotated set c
  fresh : age c.current.since sec ≤ set.seconds_rotation

module _ (p : Program) (set : Settings) (base : Text) (env : Env) where
  replace-All :
      (name : Text) (fs : List OutFile)
      → All (InWindow set) fs
      → All (InWindow set) (replace name fs)
  unfolding replace
  replace-All name [] h = tt
  replace-All name (f ∷ fs) h = (h.0, replace-All name fs h.1)

  close_file-All :
      (c : Consumer)
      → All (InWindow set) c.closed
      → InWindow set c.current
      → All (InWindow set) (close_file p env c).closed
  unfolding close_file
  close_file-All c old new =
      All-append (InWindow set) (replace _ c.closed) _ (replace-All _ c.closed old) (new, tt)

  length-close_file : (c : Consumer) → length (close_file p env c).closed ≡ length c.closed + 1
  unfolding close_file
  length-close_file c =
      length-append (replace _ c.closed) _ ∙ ap (λ n. n + 1) (length-replace _ c.closed)

  sig_handler_stops : (c : Consumer) → GoesOn (sig_handler p env sigint c) → ⊥
  unfolding sig_handler
  sig_handler_stops c g = ground arith

  reopened-Ready :
      (sec : ℕ) (c : Consumer)
      → Rotated set c
      → rotations_over set (c.nb_rotations + 1) ≡ false
      → (name : Text)
      → let c1 = record c { last_rotation = sec; nb_rotations = c.nb_rotations + 1 } in
        Ready set sec (with_file name sec (close_file p env c1))
  unfolding with_file close_file
  reopened-Ready sec c r q name = record {
    rotated = record {
      started = refl;
      count = length-replace name _ ∙ length-close_file c1 ∙ ap (λ k. k + 1) r.count;
      quota = inr q;
      old = replace-All name _ (close_file-All c1 r.old r.new);
      new = tt;
    };
    fresh = omega arith;
  }
    where
      c1 : Consumer
      c1 = record c { last_rotation = sec; nb_rotations = c.nb_rotations + 1 }

  rotate-Ready :
      (sec : ℕ) (c : Consumer)
      → Rotated set c
      → GoesOn (rotate p set base env sec c)
      → Ready set sec (state (rotate p set base env sec c))
  unfolding rotate
  rotate-Ready sec c r g = elim (Bool-cases (rotations_over set (c.nb_rotations + 1))) [
    | inl over ↦ absurd (sig_handler_stops c1 (rw over at g))
    | inr under ↦ elim (Bool-cases env.opened) [
      | inl ok ↦
          simp (under, ok)
            (reopened-Ready sec c r under (file_name_rotated p base c1.nb_rotations sec))
      | inr failed ↦ absurd (rw (under, failed) at g)
    ]
  ]
    where
      c1 : Consumer
      c1 = record c { last_rotation = sec; nb_rotations = c.nb_rotations + 1 }

  not_due :
      (sec : ℕ) (c : Consumer)
      → 0 < set.seconds_rotation
      → rotation_due set c sec ≡ false
      → age c.last_rotation sec ≤ set.seconds_rotation
  unfolding rotation_due
  not_due sec c pos h = ground arith

  rotate_if_due-Ready :
      (sec : ℕ) (c : Consumer)
      → 0 < set.seconds_rotation
      → Rotated set c
      → GoesOn (rotate_if_due p set base env sec c)
      → Ready set sec (state (rotate_if_due p set base env sec c))
  unfolding rotate_if_due
  rotate_if_due-Ready sec c pos r g = elim (Bool-cases (rotation_due set c sec)) [
    | inl due ↦ rw due (rotate-Ready sec c r (rw due at g))
    | inr early ↦ rw early (record { rotated = r; fresh = rw r.started (not_due sec c pos early) })
  ]

  write-Rotated : (m : Mbuf) (c : Consumer) → Ready set m.tx_offload c → Rotated set (write p m c)
  unfolding write entry_of
  write-Rotated m c r = record {
    started = r.rotated.started;
    count = r.rotated.count;
    quota = r.rotated.quota;
    old = r.rotated.old;
    new = All-append _ c.current.entries _ r.rotated.new (r.fresh, tt);
  }

  check_limits_keeps :
      (c : Consumer) → GoesOn (check_limits p set env c) → state (check_limits p set env c) ≡ c
  unfolding check_limits
  check_limits_keeps c g = ground (arith, sig_handler_stops c)

  finish-Rotated :
      (m : Mbuf) (o : Outcome Consumer)
      → (GoesOn o → Ready set m.tx_offload (state o))
      → GoesOn (o >>= λ c'. check_limits p set env (write p m c'))
      → Rotated set (state (o >>= λ c'. check_limits p set env (write p m c')))
  finish-Rotated m (next c') r g =
      subst (Rotated set) (sym (check_limits_keeps (write p m c') g)) (write-Rotated m c' (r tt))
  finish-Rotated m (exit code c') r g = absurd g
  finish-Rotated m (fault why c') r g = absurd g

  consumer_step-Rotated :
      (m : Mbuf) (c : Consumer)
      → 0 < set.seconds_rotation
      → Rotated set c
      → GoesOn (consumer_step p set base env m c)
      → Rotated set (state (consumer_step p set base env m c))
  unfolding consumer_step
  consumer_step-Rotated m c pos r g =
      finish-Rotated m _ (rotate_if_due-Ready m.tx_offload c pos r) g

module _ (p : Program) (set : Settings) (base : Text) where
  after-Rotated :
      (ms : List (Env × Mbuf)) (o : Outcome Consumer)
      → (GoesOn o → Rotated set (state o))
      → ((c' : Consumer)
          → Rotated set c'
          → Rotated set (state (consumer_loop p set base ms c'))
            ⊎ (¬ GoesOn (consumer_loop p set base ms c')))
      → Rotated set (state (o >>= consumer_loop p set base ms))
        ⊎ (¬ GoesOn (o >>= consumer_loop p set base ms))
  after-Rotated ms (next c') r ih = ih c' (r tt)
  after-Rotated ms (exit code c') r ih = inr (λ x. x)
  after-Rotated ms (fault why c') r ih = inr (λ x. x)

  -- With rotation switched on, a consumer that goes on after any run of packets, started from one
  -- that satisfies the same: has made exactly one more file than it counts rotations, has not
  -- passed the limit on rotations, and no file holds a packet whose time is more than
  -- `seconds_rotation` after the file was begun (times subtracted as `uint64_t`).
  pub consumer_loop-Rotated :
      (ms : List (Env × Mbuf)) (c : Consumer)
      → 0 < set.seconds_rotation
      → Rotated set c
      → Rotated set (state (consumer_loop p set base ms c))
        ⊎ (¬ GoesOn (consumer_loop p set base ms c))
  unfolding consumer_loop
  consumer_loop-Rotated [] c pos r = inl r
  consumer_loop-Rotated ((env, m) ∷ ms) c pos r =
      after-Rotated ms _ (consumer_step-Rotated p set base env m c pos r)
        (λ c' r'. consumer_loop-Rotated ms c' pos r')

-- A packet whose time lies before the last rotation is taken for one far in the future, since the
-- difference wraps: with rotation switched on (by less than 2^63 seconds), and times below 2^63, a
-- rotation is always due.
pub earlier_packet_rotates :
    (set : Settings) (c : Consumer) (sec : ℕ)
    → 0 < set.seconds_rotation
    → set.seconds_rotation < 2 ^ 63
    → c.last_rotation < 2 ^ 63
    → sec < c.last_rotation
    → rotation_due set c sec ≡ true
unfolding rotation_due
earlier_packet_rotates set c sec pos small last earlier = ground arith
