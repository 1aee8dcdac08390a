-- ===== src/Programs/TwinRuns.antt =====
-- Whole runs of the two versions of packet_consumer.
use testofdumping.Prelude.{
  ℕ, ◌+◌, ◌-◌, ◌*◌, ◌%◌, ◌^◌, List, [], ◌∷◌, Option, none, some, Bool, true, false, ◌&&◌, not, ltb,
  leb, ◌==◌, if◌then◌else◌, refl, ap, sym, ◌∙◌, Bool-cases, inl, inr,
}
use testofdumping.Dump.Types.{
  lat_dump, lat_src_dump, Text, Mbuf, Settings, Env, next, exit, fault, null_name, ◌>>=◌,
  file_name_rotated, file_name_first,
}
use testofdumping.Dump.Consumer.{
  Consumer, close_file, rotation_due, rotations_over, with_file, rotate, size_reached,
  packets_reached, check_limits, rotate_if_due, consumer_step, consumer_loop, blank,
  clock_then_open, open_first, no_name, with_name, consumer,
}
use testofdumping.Programs.LatDump
use testofdumping.Programs.LatSrcDump
use testofdumping.Programs.Twins.{
  IsTwin, AreTwins, >>=-AreTwins, IsTwin-refl, close_file-IsTwin, sig_handler-AreTwins,
  write-IsTwin, content-replace,
}

-- The time and the number of a rotation.
abbrev turn : ℕ → Consumer → Consumer
turn sec c = record c { last_rotation = sec; nb_rotations = c.nb_rotations + 1 }

turned : (sec : ℕ) (c d : Consumer) → IsTwin c d → IsTwin (turn sec c) (turn sec d)
turned sec c d t = record {
  last = refl;
  rotations = ap (λ n. n + 1) t.rotations;
  dumped = t.dumped;
  size = t.size;
  shutdown = t.shutdown;
  is_open = t.is_open;
  current = t.current;
  closed = t.closed;
}

-- The rotation, which both do at the same packets.
rotate-AreTwins :
    (set : Settings) (base : Text) (env : Env) (sec : ℕ) (c d : Consumer)
    → IsTwin c d
    → AreTwins (rotate lat_dump set base env sec c) (rotate lat_src_dump set base env sec d)
unfolding rotate with_file
rotate-AreTwins set base env sec c d t =
    elim (Bool-cases (rotations_over set (c.nb_rotations + 1))) [
      | inl over ↦
          rw (over, ap (λ n. rotations_over set (n + 1)) (sym t.rotations) ∙ over)
            (sig_handler-AreTwins env _ _ (turned sec c d t))
      | inr on ↦
          rw (on, ap (λ n. rotations_over set (n + 1)) (sym t.rotations) ∙ on) (opened env.opened)
    ]
  where
    finished :
        IsTwin (close_file lat_dump env (turn sec c)) (close_file lat_src_dump env (turn sec d))
    finished = close_file-IsTwin env _ _ (turned sec c d t)

    opened :
        (b : Bool)
        → AreTwins
            (if b
              then next (
                  with_file
                    (file_name_rotated lat_dump base (c.nb_rotations + 1) sec)
                    sec
                    (close_file lat_dump env (turn sec c)))
              else exit 1 (close_file lat_dump env (turn sec c)))
            (if b
              then next (
                  with_file
                    (file_name_rotated lat_src_dump base (d.nb_rotations + 1) sec)
                    sec
                    (close_file lat_src_dump env (turn sec d)))
              else exit 1 (close_file lat_src_dump env (turn sec d)))
    opened true = record {
      last = finished.last;
      rotations = finished.rotations;
      dumped = finished.dumped;
      size = finished.size;
      shutdown = finished.shutdown;
      is_open = refl;
      current = refl;
      closed = content-replace _ _ ∙ finished.closed ∙ sym (content-replace _ _);
    }
    opened false = (refl, finished)

rotate_if_due-AreTwins :
    (set : Settings) (base : Text) (env : Env) (sec : ℕ) (c d : Consumer)
    → IsTwin c d
    → AreTwins
        (rotate_if_due lat_dump set base env sec c)
        (rotate_if_due lat_src_dump set base env sec d)
unfolding rotate_if_due rotation_due
rotate_if_due-AreTwins set base env sec c d t = elim (Bool-cases (due c.last_rotation)) [
  | inl now ↦ rw (now, ap due (sym t.last) ∙ now) (rotate-AreTwins set base env sec c d t)
  | inr later ↦ rw (later, ap due (sym t.last) ∙ later) t
]
  where
    due : ℕ → Bool
    due last =
        ltb 0 set.seconds_rotation && ltb set.seconds_rotation ((sec + 2 ^ 64 - last) % 2 ^ 64)

check_limits-AreTwins :
    (set : Settings) (env : Env) (c d : Consumer)
    → IsTwin c d
    → AreTwins (check_limits lat_dump set env c) (check_limits lat_src_dump set env d)
unfolding check_limits size_reached packets_reached
check_limits-AreTwins set env c d t = elim (Bool-cases (size c.sz_dumped_file)) [
  | inl full ↦ rw (full, ap size (sym t.size) ∙ full) (sig_handler-AreTwins env c d t)
  | inr small ↦ elim (Bool-cases (packets c.nb_dumped_packets)) [
    | inl full ↦
        rw (small, ap size (sym t.size) ∙ small, full, ap packets (sym t.dumped) ∙ full)
          (sig_handler-AreTwins env c d t)
    | inr few ↦ rw (small, ap size (sym t.size) ∙ small, few, ap packets (sym t.dumped) ∙ few) t
  ]
]
  where
    size : ℕ → Bool
    size n = not (set.max_size == 0) && leb (set.max_size * 1024 % 2 ^ 64) n

    packets : ℕ → Bool
    packets n = not (set.max_packets == 0) && leb set.max_packets n

consumer_loop-AreTwins :
    (set : Settings) (base : Text) (ms : List (Env × Mbuf)) (c d : Consumer)
    → IsTwin c d
    → AreTwins (consumer_loop lat_dump set base ms c) (consumer_loop lat_src_dump set base ms d)
unfolding consumer_loop consumer_step
consumer_loop-AreTwins set base [] c d t = t
consumer_loop-AreTwins set base ((env, m) ∷ ms) c d t =
    >>=-AreTwins _ _ _ _
      (>>=-AreTwins _ _ _ _ (rotate_if_due-AreTwins set base env m.tx_offload c d t)
        (λ c' d' t'. check_limits-AreTwins set env _ _ (write-IsTwin m c' d' t')))
      (λ c' d' t'. consumer_loop-AreTwins set base ms c' d' t')

-- Given the same settings, the same packets and the same answers of the system, the writing threads
-- of src_lat/main_dump.c and src_lat/src/main_dump.c end alike, and have written the same files
-- one after another, those that were replaced by others included, with the same entries, opened at
-- the same times, and the same counters: only the names of the files differ.
pub consumers-AreTwins :
    (set : Settings) (env : Env) (now : ℕ) (ms : List (Env × Mbuf))
    → AreTwins (LatDump.packet_consumer set env now ms) (LatSrcDump.packet_consumer set env now ms)
unfolding LatDump.packet_consumer LatSrcDump.packet_consumer consumer with_name open_first
    clock_then_open with_file no_name file_name_first
consumers-AreTwins set env now ms = named set.file_name
  where
    started :
        (base : Text) (clock opens : Bool)
        → AreTwins
            (if clock
              then (if opens
                  then next (
                      with_file
                        (file_name_first lat_dump base now)
                        now
                        (record blank { last_rotation = now }))
                  else exit 1 (record blank { last_rotation = now }))
              else exit 1 blank)
            (if clock
              then (if opens
                  then next (
                      with_file
                        (file_name_first lat_src_dump base now)
                        now
                        (record blank { last_rotation = now }))
                  else exit 1 (record blank { last_rotation = now }))
              else exit 1 blank)
    started base true true = record {
      last = refl;
      rotations = refl;
      dumped = refl;
      size = refl;
      shutdown = refl;
      is_open = refl;
      current = refl;
      closed = refl;
    }
    started base true false = (refl, IsTwin-refl _)
    started base false opens = (refl, IsTwin-refl _)

    without :
        (clock : Bool)
        → AreTwins
            (if clock then fault null_name blank else exit 1 blank)
            (if clock then fault null_name blank else exit 1 blank)
    without true = (refl, IsTwin-refl blank)
    without false = (refl, IsTwin-refl blank)

    named :
        (o : Option Text)
        → AreTwins
            (with_name lat_dump env o
              (λ base. open_first lat_dump base env now >>= consumer_loop lat_dump set base ms))
            (with_name lat_src_dump env o (λ base.
              open_first lat_src_dump base env now >>= consumer_loop lat_src_dump set base ms))
    named none = without env.clock_ok
    named (some base) =
        >>=-AreTwins _ _ _ _ (started base env.clock_ok env.opened)
          (λ c d t. consumer_loop-AreTwins set base ms c d t)
