-- ===== src/Dump/Consumer/Written.antt =====
-- What a run of the consumer leaves in the files.
use testofdumping.Prelude.{
  ◌+◌, ℕ, suc, ◌≤◌, List, [], ◌∷◌, ◌++◌, true, false, ◌≡◌, refl, ap, sym, ◌∙◌, ◌⊎◌, inl, inr,
  append-nil, append_assoc, arith, length, take, map,
}
use testofdumping.Dump.Types.{
  file_name_rotated, Program, Text, Mbuf, Entry, Settings, Env, Outcome, next, exit, fault, state,
  ◌>>=◌,
}
use testofdumping.Dump.Consumer.{
  Consumer, close_file, sig_handler, sigint, rotate, rotate_if_due, entry_of, write, check_limits,
  with_file, consumer_step, consumer_loop,
}
use testofdumping.Dump.Consumer.Files.{
  written, GoesOn, written-close_file, written-write, written-with_file,
}

-- An outcome keeps what was written before it, and leaves a file open if it goes on.
pub record Kept (c : Consumer) (o : Outcome Consumer) : Type 0 where
  pub same : written (state o) ≡ written c
  pub still_open : GoesOn o → (state o).is_open ≡ true
  pub packets : (state o).nb_dumped_packets ≡ c.nb_dumped_packets
  pub size : (state o).sz_dumped_file ≡ c.sz_dumped_file

-- What a close leaves alone, and what it does.
record Shut (c c' : Consumer) : Type 0 where
  shut : c'.is_open ≡ false
  packets : c'.nb_dumped_packets ≡ c.nb_dumped_packets
  size : c'.sz_dumped_file ≡ c.sz_dumped_file

close_file-Shut : (p : Program) (env : Env) (c : Consumer) → Shut c (close_file p env c)
unfolding close_file
close_file-Shut p env c = record { shut = refl; packets = refl; size = refl }

record Reopened (c c' : Consumer) : Type 0 where
  open_now : c'.is_open ≡ true
  packets : c'.nb_dumped_packets ≡ c.nb_dumped_packets
  size : c'.sz_dumped_file ≡ c.sz_dumped_file

with_file-Reopened : (name : Text) (n : ℕ) (c : Consumer) → Reopened c (with_file name n c)
unfolding with_file
with_file-Reopened name n c = record { open_now = refl; packets = refl; size = refl }

pub sig_handler-Kept :
    (p : Program) (env : Env) (c : Consumer)
    → c.is_open ≡ true
    → Kept c (sig_handler p env sigint c)
unfolding sig_handler
sig_handler-Kept p env c h =
    ground (arith, written-close_file p env stopping, close_file-Shut p env stopping)
  where
    stopping : Consumer
    stopping = record c { do_shutdown = true }

rotate-Kept :
    (p : Program) (set : Settings) (base : Text) (env : Env) (sec : ℕ) (c : Consumer)
    → c.is_open ≡ true
    → Kept c (rotate p set base env sec c)
unfolding rotate
rotate-Kept p set base env sec c h = ground (
  arith,
  sig_handler-Kept p env c1 h,
  written-close_file p env c1 h,
  close_file-Shut p env c1,
  written-with_file name sec (close_file p env c1),
  with_file-Reopened name sec (close_file p env c1),
)
  where
    c1 : Consumer
    c1 = record c { last_rotation = sec; nb_rotations = c.nb_rotations + 1 }

    name : Text
    name = file_name_rotated p base (c.nb_rotations + 1) sec

pub rotate_if_due-Kept :
    (p : Program) (set : Settings) (base : Text) (env : Env) (sec : ℕ) (c : Consumer)
    → c.is_open ≡ true
    → Kept c (rotate_if_due p set base env sec c)
unfolding rotate_if_due
rotate_if_due-Kept p set base env sec c h = ground (arith, rotate-Kept p set base env sec c h)

pub check_limits-Kept :
    (p : Program) (set : Settings) (env : Env) (c : Consumer)
    → c.is_open ≡ true
    → Kept c (check_limits p set env c)
unfolding check_limits
check_limits-Kept p set env c h = ground (arith, sig_handler-Kept p env c h)

write-open : (p : Program) (m : Mbuf) (c : Consumer) → (write p m c).is_open ≡ c.is_open
unfolding write
write-open p m c = refl

-- What a step does to the files: it writes the packet, or it ends before the write.
pub record Stepped (p : Program) (m : Mbuf) (c : Consumer) (o : Outcome Consumer) : Type 0 where
  pub files :
      (written (state o) ≡ written c ++ entry_of p m ∷ [])
      ⊎ ((written (state o) ≡ written c) × (GoesOn o → ⊥))
  pub still_open : GoesOn o → (state o).is_open ≡ true

finish-Stepped :
    (p : Program) (set : Settings) (base : Text) (env : Env) (m : Mbuf) (c : Consumer)
    (o : Outcome Consumer)
    → Kept c o
    → Stepped p m c (o >>= λ c'. check_limits p set env (write p m c'))
finish-Stepped p set base env m c (exit code c') k = record {
  files = inr (k.same, λ x. x);
  still_open = k.still_open;
}
finish-Stepped p set base env m c (fault why c') k = record {
  files = inr (k.same, λ x. x);
  still_open = k.still_open;
}
finish-Stepped p set base env m c (next c') k = record {
  files = inl (
      limits.same
      ∙ written-write p m c' (k.still_open tt)
      ∙ ap (λ es. es ++ entry_of p m ∷ []) k.same);
  still_open = limits.still_open;
}
  where
    limits : Kept (write p m c') (check_limits p set env (write p m c'))
    limits = check_limits-Kept p set env (write p m c') (write-open p m c' ∙ k.still_open tt)

pub consumer_step-Stepped :
    (p : Program) (set : Settings) (base : Text) (env : Env) (m : Mbuf) (c : Consumer)
    → c.is_open ≡ true
    → Stepped p m c (consumer_step p set base env m c)
unfolding consumer_step
consumer_step-Stepped p set base env m c h =
    finish-Stepped p set base env m c _ (rotate_if_due-Kept p set base env m.tx_offload c h)

-- The entries that a run of packets asks for.
abbrev pub wanted : Program → List (Env × Mbuf) → List Entry
wanted p ms = map (λ (x : Env × Mbuf). entry_of p x.1) ms

pub length-wanted : (p : Program) (ms : List (Env × Mbuf)) → length (wanted p ms) ≡ length ms
length-wanted p [] = refl
length-wanted p (x ∷ ms) = ap suc (length-wanted p ms)

-- What a run leaves in the files: what was there, then the first packets of the run, in order and
-- unchanged; all of them if it goes on.
abbrev pub WritesPrefix : Program → List (Env × Mbuf) → Consumer → Outcome Consumer → Type 0
WritesPrefix p ms c o =
    (n : ℕ) × (n ≤ length ms)
    × (written (state o) ≡ written c ++ take n (wanted p ms))
    × ((n ≡ length ms) ⊎ (¬ GoesOn o))

stop-WritesPrefix :
    (p : Program) (env : Env) (m : Mbuf) (ms : List (Env × Mbuf)) (c : Consumer)
    (o : Outcome Consumer)
    → Stepped p m c o
    → (GoesOn o → ⊥)
    → WritesPrefix p ((env, m) ∷ ms) c o
stop-WritesPrefix p env m ms c o st stop = elim (st.files) [
  | inl e ↦ (1, omega arith, e, inr stop)
  | inr e ↦ (0, omega arith, e.0 ∙ sym (append-nil (written c)), inr stop)
]

go_on-WritesPrefix :
    (p : Program) (env : Env) (m : Mbuf) (ms : List (Env × Mbuf)) (c c' : Consumer)
    (o : Outcome Consumer)
    → Stepped p m c (next c')
    → WritesPrefix p ms c' o
    → WritesPrefix p ((env, m) ∷ ms) c o
go_on-WritesPrefix p env m ms c c' o st (n, le, e, all) = elim (st.files) [
  | inl w ↦ (
    suc n,
    omega arith,
    e
        ∙ ap (λ es. es ++ take n (wanted p ms)) w
        ∙ append_assoc (written c) (entry_of p m ∷ []) (take n (wanted p ms)),
    elim all [ inl full ↦ inl (ap suc full) | inr stop ↦ inr stop ],
  )
  | inr w ↦ absurd (w.1 tt)
]

module _ (p : Program) (set : Settings) (base : Text) where
  after-WritesPrefix :
      (env : Env) (m : Mbuf) (ms : List (Env × Mbuf)) (c : Consumer) (o : Outcome Consumer)
      → Stepped p m c o
      → ((c' : Consumer)
          → c'.is_open ≡ true
          → WritesPrefix p ms c' (consumer_loop p set base ms c'))
      → WritesPrefix p ((env, m) ∷ ms) c (o >>= consumer_loop p set base ms)
  after-WritesPrefix env m ms c (next c') st ih =
      go_on-WritesPrefix p env m ms c c' _ st (ih c' (st.still_open tt))
  after-WritesPrefix env m ms c (exit code c') st ih =
      stop-WritesPrefix p env m ms c (exit code c') st (λ x. x)
  after-WritesPrefix env m ms c (fault why c') st ih =
      stop-WritesPrefix p env m ms c (fault why c') st (λ x. x)

  -- From a consumer with an open file, every run of packets writes, behind what was written before,
  -- the entries of a first part of the packets, in order, none left out, repeated or changed by any
  -- rotation, rename or way out; if the consumer goes on, that part is the whole run.
  pub consumer_loop-WritesPrefix :
      (ms : List (Env × Mbuf)) (c : Consumer)
      → c.is_open ≡ true
      → WritesPrefix p ms c (consumer_loop p set base ms c)
  unfolding consumer_loop
  consumer_loop-WritesPrefix [] c h = (0, omega arith, sym (append-nil (written c)), inl refl)
  consumer_loop-WritesPrefix ((env, m) ∷ ms) c h =
      after-WritesPrefix env m ms c _ (consumer_step-Stepped p set base env m c h)
        (consumer_loop-WritesPrefix ms)
