-- ===== src/Analyse/Threads/Defined.antt =====
-- Over which passes main neither leaves its array of threads nor joins what is no thread.
use testofdumping.Prelude.{
  ℕ, ◌+◌, ◌≤◌, ◌<◌, List, [], ◌∷◌, ◌++◌, true, false, ltb, length, ◌≡◌, ◌↔◌, refl, ap, sym, subst,
  ◌∙◌, ◌⊎◌, inl, inr, append_assoc, append-nil, max, arith, All, All-append,
}
use native.Mathlib.Decide.{dec_lt}
use testofdumping.Dump.Types.{Text}
use testofdumping.Analyse.{is_pcapfile_ready, scan}
use testofdumping.Analyse.Ready.{scan_once}
use testofdumping.Analyse.Threads.{
  max_threads, thread_limit, Pool, Pass, going, ◌>>=◌, create_loop, wait_for_threads, pass, passes,
  idle,
}
use testofdumping.Analyse.Threads.Loops.{
  HasThreads, HasThreads-same, Fails, >>=-Fails, IsSame, join_loop-going, join_loop-Fails,
  create_loop-going, create_loop-Fails,
}

-- The files of a pass fit the array, and when it waits for threads, an earlier pass had as many.
abbrev pub IsWithin : ℕ → Pass → Type 0
IsWithin filled p =
    (length (scan p.entries) ≤ max_threads)
    × ((p.thread_count ≤ thread_limit) ⊎ (length (scan p.entries) ≤ filled))

abbrev pub AllWithin : ℕ → List Pass → Type 0
AllWithin filled [] = Unit
AllWithin filled (p ∷ ps) = IsWithin filled p × AllWithin (max filled (length (scan p.entries))) ps

abbrev pub all_files : List Pass → List Text
all_files [] = []
all_files (p ∷ ps) = scan p.entries ++ all_files ps

abbrev pub IsCreating : Pass → Type 0
IsCreating p = (j : ℕ) → p.creates j ≡ true

-- After the wait, if there is one.
wait_lem :
    (filled : ℕ) (p : Pass) (m : Pool)
    → filled ≤ max_threads
    → HasThreads 0 filled m.threads
    → (((p.thread_count ≤ thread_limit) ⊎ (length (scan p.entries) ≤ filled))
        × ((m' : Pool) × (wait_for_threads p m ≡ going m')
            × IsSame (0 + length (scan p.entries)) m m'))
      ⊎ ((thread_limit < p.thread_count)
          × (filled < length (scan p.entries))
          × Fails (wait_for_threads p m))
unfolding wait_for_threads
wait_lem filled p m small has =
    let n : ℕ = length (scan p.entries) in
    elim (dec_lt thread_limit p.thread_count) [
      | no few ↦
          let e : ltb thread_limit p.thread_count ≡ false = ground arith in
          inl (
            inl (omega (arith, few)),
            (m, rw e refl, record { above = λ j le. refl; started = refl }),
          )
      | yes many ↦
          let e : ltb thread_limit p.thread_count ≡ true = ground arith in
          elim (dec_lt filled n) [
            | no le ↦
                let (m', e', same) =
                  join_loop-going p.joins n 0 filled m small has (omega (arith, le)) in
                inl (inr (omega (arith, le)), (m', rw e e', same))
            | yes lt ↦ inr (
              many,
              lt,
              rw e (
                  join_loop-Fails p.joins n 0 filled m small has (omega arith) (omega (arith, lt))),
            )
          ]
    ]

-- A pass fits, starts a thread for each file and leaves threads in the entries that were ever
-- used; or it does not fit, and fails.
pass_lem :
    (filled : ℕ) (p : Pass) (m : Pool)
    → filled ≤ max_threads
    → HasThreads 0 filled m.threads
    → IsCreating p
    → (IsWithin filled p
        × ((m' : Pool) × (pass p m ≡ going m')
            × HasThreads 0 (max filled (length (scan p.entries))) m'.threads
            × (m'.started ≡ m.started ++ scan p.entries)))
      ⊎ ((IsWithin filled p → ⊥) × Fails (pass p m))
unfolding pass
pass_lem filled p m small has ok = elim (wait_lem filled p m small has) [
  | inr (many, lt, fails) ↦ inr (
    λ w. elim (w.1) [ inl few ↦ omega (arith, few, many) | inr le ↦ omega (arith, le, lt) ],
    >>=-Fails (wait_for_threads p m) (create_loop p.creates (scan p.entries) 0) fails,
  )
  | inl (waits, (m₁, e₁, same)) ↦ elim (dec_lt max_threads (length (scan p.entries))) [
    | yes much ↦ inr (
      λ w. omega (arith, w.0, much),
      subst (λ o. Fails (o >>= create_loop p.creates (scan p.entries) 0)) (sym e₁)
          (create_loop-Fails p.creates (scan p.entries) 0 m₁ (omega arith) (omega (arith, much))),
    )
    | no fits ↦
        let has₁ : HasThreads (0 + length (scan p.entries)) filled m₁.threads =
          HasThreads-same filled m m₁ same has in
        let (m₂, e₂, loop) =
          create_loop-going p.creates (scan p.entries) 0 filled m₁ ok has₁ (omega (arith, fits)) in
        inl (
          (omega (arith, fits), waits),
          (
            m₂,
            ap (λ o. o >>= create_loop p.creates (scan p.entries) 0) e₁ ∙ e₂,
            subst (λ k. HasThreads 0 (max filled k) m₂.threads) (omega arith) loop.has,
            loop.started ∙ ap (λ fs. fs ++ scan p.entries) same.started,
          ),
        )
  ]
]

passes_lem :
    (ps : List Pass) (filled : ℕ) (m : Pool)
    → filled ≤ max_threads
    → HasThreads 0 filled m.threads
    → All IsCreating ps
    → (AllWithin filled ps
        × ((m' : Pool) × (passes ps m ≡ going m') × (m'.started ≡ m.started ++ all_files ps)))
      ⊎ ((AllWithin filled ps → ⊥) × Fails (passes ps m))
unfolding passes
passes_lem [] filled m small has ok = inl (tt, (m, refl, sym (append-nil m.started)))
passes_lem (p ∷ ps) filled m small has (ok, oks) = elim (pass_lem filled p m small has ok) [
  | inr (outside, fails) ↦ inr (λ w. outside w.0, >>=-Fails (pass p m) (passes ps) fails)
  | inl (within, (m₁, e₁, has₁, files₁)) ↦
      elim (passes_lem ps (max filled (length (scan p.entries))) m₁ (omega (arith, small, within.0))
        has₁ oks) [
          | inr (outside, fails) ↦
              inr (λ w. outside w.1, subst (λ o. Fails (o >>= passes ps)) (sym e₁) fails)
          | inl (rest, (m₂, e₂, files₂)) ↦ inl (
            (within, rest),
            (
              m₂,
              ap (λ o. o >>= passes ps) e₁ ∙ e₂,
              files₂
                  ∙ ap (λ fs. fs ++ all_files ps) files₁
                  ∙ append_assoc m.started (scan p.entries) (all_files ps),
            ),
          )
        ]
]

all_files-taken : (ps : List Pass) → All (λ name. is_pcapfile_ready name ≡ false) (all_files ps)
all_files-taken [] = tt
all_files-taken (p ∷ ps) = All-append _ _ _ (scan_once p.entries) (all_files-taken ps)

-- Where each call of pthread_create returns 0, main stays within its array of threads, and only
-- waits for what is a thread, exactly over these passes: none takes more than 20 files, and one
-- that finds more than 3 tasks takes no more files than some pass before it. Over them, it starts
-- one thread for each file taken, in order, under a name that no later pass takes again.
pub passes_iff :
    (ps : List Pass)
    → All IsCreating ps
    → AllWithin 0 ps ↔ (
        (m : Pool) × (passes ps idle ≡ going m)
        × (m.started ≡ all_files ps)
        × All (λ name. is_pcapfile_ready name ≡ false) m.started)
passes_iff ps ok =
    elim (passes_lem ps 0 idle (omega arith) (λ j ge. (inl (omega arith), inr refl)) ok) [
      | inl (within, (m, e, files)) ↦ (
        λ w. (
          m,
          e,
          files,
          subst (All (λ name. is_pcapfile_ready name ≡ false)) (sym files) (all_files-taken ps),
        ),
        λ _. within,
      )
      | inr (outside, fails) ↦
          (λ w. absurd (outside w), λ (m, e, _, _). absurd (subst Fails e fails))
    ]
