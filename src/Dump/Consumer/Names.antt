-- ===== src/Dump/Consumer/Names.antt =====
-- The names of the files of the programs that number them: no rotation opens a file twice.
use testofdumping.Prelude.{
  ℕ, suc, ◌+◌, List, [], ◌∷◌, ◌++◌, true, false, ◌≡◌, refl, ap, sym, ◌∙◌, inl, inr, arith, map,
  map-append, Bool, Bool-cases, Option-cases, if◌then◌else◌, subst, none, ◌≢◌, All, All-append,
}
use testofdumping.Prelude.Decimal.{decimal}
use testofdumping.Dump.Types.{
  Program, Text, Mbuf, OutFile, Settings, Env, Outcome, next, exit, fault, no_handle, state, ◌>>=◌,
  file_name_rotated, ready_suffix,
}
use testofdumping.Dump.Consumer.{
  Consumer, replace, print_stats, close_file, with_file, sig_handler, sigint, rotate, rotate_if_due,
  rotation_due, rotations_over, write, check_limits, size_reached, packets_reached, consumer_step,
  consumer_loop,
}
use testofdumping.Dump.Consumer.Files.{
  GoesOn, all_files, IsThere, AllThere, names-replace, replace-IsThere,
}
use testofdumping.Dump.Consumer.Numbering.{
  Distinct, Distinct-last, numbered, numbered-fresh, numbered-Distinct,
}

abbrev pub names : Consumer → List Text
names c = map (λ f. f.name) (all_files c)

names-snoc :
    (fs : List OutFile) (f : OutFile)
    → map (λ g. g.name) (fs ++ f ∷ []) ≡ map (λ g. g.name) fs ++ f.name ∷ []
names-snoc fs f = map-append (λ g. g.name) fs (f ∷ [])

-- The programs without a suffix number their files.
file_name_rotated_numbered :
    (p : Program) (base : Text) (n last : ℕ)
    → ready_suffix p ≡ none
    → file_name_rotated p base n last ≡ base ++ decimal n
unfolding ready_suffix file_name_rotated
file_name_rotated_numbered p base n last h = ground arith

-- The files carry the first names in order, as many as there were rotations if the process goes on.
pub record Named (base : Text) (o : Outcome Consumer) : Type 0 where
  pub upto : (n : ℕ) × (names (state o) ≡ numbered base n)
  pub now : GoesOn o → names (state o) ≡ numbered base (state o).nb_rotations
  pub still_open : GoesOn o → (state o).is_open ≡ true
  pub there : AllThere (state o)

-- The process has ended, with the same file names and all files there.
abbrev StoppedWell : List Text → Outcome Consumer → Type 0
StoppedWell ns o = (names (state o) ≡ ns) × (GoesOn o → ⊥) × AllThere (state o)

-- The answer of `sig_handler` where a file is open.
still_open-StoppedWell :
    (c s : Consumer) (ns : List Text) (b : Bool)
    → b ≡ true
    → StoppedWell ns (exit 0 s)
    → StoppedWell ns (if b then exit 0 s else fault no_handle c)
still_open-StoppedWell c s ns b h w = rw h w

All-split :
    (fs : List OutFile) (f : OutFile) → All IsThere (fs ++ f ∷ []) → All IsThere fs × IsThere f
All-split [] f t = (tt, t.0)
All-split (g ∷ fs) f t = let (old, new) = All-split fs f t.1 in ((t.0, old), new)

module _ (p : Program) (plain : ready_suffix p ≡ none) where
  names-close_file :
      (env : Env) (c : Consumer) → c.is_open ≡ true → names (close_file p env c) ≡ names c
  unfolding close_file
  names-close_file env c h =
      rw (h, plain)
        (names-snoc (replace c.current.name c.closed) _
          ∙ ap (λ ns. ns ++ c.current.name ∷ []) (names-replace c.current.name c.closed)
          ∙ sym (names-snoc c.closed c.current))

  there-close_file :
      (env : Env) (c : Consumer)
      → c.is_open ≡ true
      → Distinct (names c)
      → AllThere c
      → AllThere (close_file p env c)
  unfolding close_file
  there-close_file env c h d t =
      let apart = Distinct-last _ _ (subst Distinct (names-snoc c.closed c.current) (rw h at d)) in
      let t' : All IsThere (c.closed ++ c.current ∷ []) = rw h at t in
      let (old, new) = All-split c.closed c.current t' in
      rw plain
        (All-append IsThere _ _ (replace-IsThere c.current.name c.closed apart old) (new, tt))

  there-with_file :
      (name : Text) (since : ℕ) (c : Consumer)
      → c.is_open ≡ false
      → All (λ x. x ≢ name) (names c)
      → AllThere c
      → AllThere (with_file name since c)
  unfolding with_file
  there-with_file name since c h apart t =
      All-append IsThere _ _ (replace-IsThere name c.closed (rw h at apart) (rw h at t)) (refl, tt)

  names-with_file :
      (name : Text) (since : ℕ) (c : Consumer)
      → c.is_open ≡ false
      → names (with_file name since c) ≡ names c ++ name ∷ []
  unfolding with_file
  names-with_file name since c h = rw h (
      names-snoc (replace name c.closed) _
      ∙ ap (λ ns. ns ++ name ∷ []) (names-replace name c.closed))

  names-sig_handler :
      (env : Env) (c : Consumer)
      → c.is_open ≡ true
      → Distinct (names c)
      → AllThere c
      → StoppedWell (names c) (sig_handler p env sigint c)
  unfolding sig_handler
  names-sig_handler env c h d t =
      let stopping = record c { do_shutdown = true } in
      elim (Bool-cases env.clock_ok) [
        | inr no_clock ↦ simp no_clock (refl, λ g. g, t)
        | inl clock ↦ elim (Option-cases (print_stats p env)) [
          | inl e ↦
              simp (clock, e)
                (still_open-StoppedWell _ _ _ c.is_open h
                  (names-close_file env stopping h, λ g. g, there-close_file env stopping h d t))
          | inr (code, e) ↦ simp (clock, e) (refl, λ g. g, t)
        ]
      ]

  close_file-shut : (env : Env) (c : Consumer) → (close_file p env c).is_open ≡ false
  unfolding close_file
  close_file-shut env c = refl

  names-Distinct :
      (base : Text) (c : Consumer) → names c ≡ numbered base c.nb_rotations → Distinct (names c)
  names-Distinct base c e = subst Distinct (sym e) (numbered-Distinct base c.nb_rotations)

  stopped-Named :
      (base : Text) (n : ℕ) (o : Outcome Consumer)
      → names (state o) ≡ numbered base n
      → (GoesOn o → ⊥)
      → AllThere (state o)
      → Named base o
  stopped-Named base n o e stop t = record {
    there = t;
    upto = (n, e);
    now = λ g. absurd (stop g);
    still_open = λ g. absurd (stop g);
  }

  running-Named :
      (base : Text) (c : Consumer)
      → names c ≡ numbered base c.nb_rotations
      → c.is_open ≡ true
      → AllThere c
      → Named base (next c)
  running-Named base c e h t = record {
    there = t;
    upto = (c.nb_rotations, e);
    now = λ g. e;
    still_open = λ g. h;
  }

  module _ (set : Settings) (base : Text) (env : Env) where
    reopened-Named :
        (sec : ℕ) (c : Consumer)
        → c.is_open ≡ true
        → names c ≡ numbered base c.nb_rotations
        → AllThere c
        → (name : Text) → name ≡ base ++ decimal (c.nb_rotations + 1)
        → let c1 = record c { last_rotation = sec; nb_rotations = c.nb_rotations + 1 } in
          Named base (next (with_file name sec (close_file p env c1)))
    reopened-Named sec c h e t name en =
        running-Named base _ (chain ∙ ap (numbered base) (sym bump)) opened all_there
      where
        c1 : Consumer
        c1 = record c { last_rotation = sec; nb_rotations = c.nb_rotations + 1 }

        plus : c.nb_rotations + 1 ≡ suc c.nb_rotations
        plus = omega arith

        bump : (with_file name sec (close_file p env c1)).nb_rotations ≡ suc c.nb_rotations
        bump = unfold with_file close_file in plus

        opened : (with_file name sec (close_file p env c1)).is_open ≡ true
        opened = unfold with_file in refl

        all_there : AllThere (with_file name sec (close_file p env c1))
        all_there =
            there-with_file name sec (close_file p env c1) (close_file-shut env c1)
              (subst (λ ns. All (λ x. x ≢ name) ns) (sym (names-close_file env c1 h ∙ e))
                (subst (λ x. All (λ y. y ≢ x) (numbered base c.nb_rotations)) (sym en)
                  (numbered-fresh base c.nb_rotations (c.nb_rotations + 1) (omega arith))))
              (there-close_file env c1 h (names-Distinct base c e) t)

        chain :
            names (with_file name sec (close_file p env c1)) ≡ numbered base (suc c.nb_rotations)
        chain =
            names-with_file name sec (close_file p env c1) (close_file-shut env c1)
            ∙ ap (λ ns. ns ++ name ∷ []) (names-close_file env c1 h ∙ e)
            ∙ ap (λ t. numbered base c.nb_rotations ++ t ∷ [])
                (en ∙ ap (λ k. base ++ decimal k) plus)

    rotate-Named :
        (sec : ℕ) (c : Consumer)
        → c.is_open ≡ true
        → names c ≡ numbered base c.nb_rotations
        → AllThere c
        → Named base (rotate p set base env sec c)
    unfolding rotate
    rotate-Named sec c h e t = elim (Bool-cases (rotations_over set (c.nb_rotations + 1))) [
      | inl over ↦ rw over (
          let ended = names-sig_handler env c1 h (names-Distinct base c e) t in
          stopped-Named base c.nb_rotations _ (ended.0 ∙ e) ended.1 ended.2)
      | inr under ↦ elim (Bool-cases env.opened) [
        | inl ok ↦
            simp (under, ok)
              (reopened-Named sec c h e t _
                (file_name_rotated_numbered p base (c.nb_rotations + 1) sec plain))
        | inr failed ↦
            simp (under, failed)
              (stopped-Named base c.nb_rotations _ (names-close_file env c1 h ∙ e) (λ g. g)
                (there-close_file env c1 h (names-Distinct base c e) t))
      ]
    ]
      where
        c1 : Consumer
        c1 = record c { last_rotation = sec; nb_rotations = c.nb_rotations + 1 }

    rotate_if_due-Named :
        (sec : ℕ) (c : Consumer)
        → c.is_open ≡ true
        → names c ≡ numbered base c.nb_rotations
        → AllThere c
        → Named base (rotate_if_due p set base env sec c)
    unfolding rotate_if_due
    rotate_if_due-Named sec c h e t = elim (Bool-cases (rotation_due set c sec)) [
      | inl due ↦ rw due (rotate-Named sec c h e t)
      | inr early ↦ rw early (running-Named base c e h t)
    ]

    names-write : (m : Mbuf) (c : Consumer) → c.is_open ≡ true → names (write p m c) ≡ names c
    unfolding write
    names-write m c h = rw h (names-snoc c.closed _ ∙ sym (names-snoc c.closed c.current))

    write_same :
        (m : Mbuf) (c : Consumer)
        → ((write p m c).is_open ≡ c.is_open) × ((write p m c).nb_rotations ≡ c.nb_rotations)
    unfolding write
    write_same m c = (refl, refl)

    there-write : (m : Mbuf) (c : Consumer) → c.is_open ≡ true → AllThere c → AllThere (write p m c)
    unfolding write
    there-write m c h t =
        let (old, new) = All-split c.closed c.current (rw h at t) in
        rw h (All-append IsThere c.closed _ old (new, tt))

    check_limits-Named :
        (c : Consumer)
        → c.is_open ≡ true
        → names c ≡ numbered base c.nb_rotations
        → AllThere c
        → Named base (check_limits p set env c)
    unfolding check_limits
    check_limits-Named c h e t = elim (Bool-cases (size_reached set c)) [
      | inl big ↦ rw big stop
      | inr small ↦ elim (Bool-cases (packets_reached set c)) [
        | inl many ↦ rw (small, many) stop
        | inr few ↦ rw (small, few) (running-Named base c e h t)
      ]
    ]
      where
        stop : Named base (sig_handler p env sigint c)
        stop =
            let ended = names-sig_handler env c h (names-Distinct base c e) t in
            stopped-Named base c.nb_rotations _ (ended.0 ∙ e) ended.1 ended.2

    finish-Named :
        (m : Mbuf) (o : Outcome Consumer)
        → Named base o
        → Named base (o >>= λ c'. check_limits p set env (write p m c'))
    finish-Named m (exit code c') n = n
    finish-Named m (fault why c') n = n
    finish-Named m (next c') n =
        check_limits-Named (write p m c') ((write_same m c').0 ∙ n.still_open tt)
          (names-write m c' (n.still_open tt)
            ∙ n.now tt
            ∙ ap (numbered base) (sym (write_same m c').1))
          (there-write m c' (n.still_open tt) n.there)

    pub consumer_step-Named :
        (m : Mbuf) (c : Consumer)
        → c.is_open ≡ true
        → names c ≡ numbered base c.nb_rotations
        → AllThere c
        → Named base (consumer_step p set base env m c)
    unfolding consumer_step
    consumer_step-Named m c h e t = finish-Named m _ (rotate_if_due-Named m.tx_offload c h e t)

  module _ (set : Settings) (base : Text) where
    after-Named :
        (ms : List (Env × Mbuf)) (o : Outcome Consumer)
        → Named base o
        → ((c' : Consumer)
            → c'.is_open ≡ true
            → names c' ≡ numbered base c'.nb_rotations
            → AllThere c'
            → Named base (consumer_loop p set base ms c'))
        → Named base (o >>= consumer_loop p set base ms)
    after-Named ms (next c') n ih = ih c' (n.still_open tt) (n.now tt) n.there
    after-Named ms (exit code c') n ih = n
    after-Named ms (fault why c') n ih = n

    consumer_loop-Named :
        (ms : List (Env × Mbuf)) (c : Consumer)
        → c.is_open ≡ true
        → names c ≡ numbered base c.nb_rotations
        → AllThere c
        → Named base (consumer_loop p set base ms c)
    unfolding consumer_loop
    consumer_loop-Named [] c h e t = running-Named base c e h t
    consumer_loop-Named ((env, m) ∷ ms) c h e t =
        after-Named ms _ (consumer_step-Named set base env m c h e t) (consumer_loop-Named ms)

-- In a program that renames no file, from a consumer whose files carry the first numbered names:
-- after any run, however it ends, the files are the plain name and behind it the numbered names 1,
-- 2, 3 and on, and no two files have the same name, so that no opening truncates an earlier file.
pub consumer_loop-names :
    (p : Program) (set : Settings) (base : Text) (ms : List (Env × Mbuf)) (c : Consumer)
    → ready_suffix p ≡ none
    → c.is_open ≡ true
    → names c ≡ numbered base c.nb_rotations
    → AllThere c
    → let c' = state (consumer_loop p set base ms c) in
      ((n : ℕ) × (names c' ≡ numbered base n)) × Distinct (names c') × AllThere c'
consumer_loop-names p set base ms c plain h e t =
    let n = consumer_loop-Named p plain set base ms c h e t in
    (n.upto, subst Distinct (sym n.upto.1) (numbered-Distinct base n.upto.0), n.there)
