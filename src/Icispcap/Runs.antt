-- ===== src/Icispcap/Runs.antt =====
-- Whole runs of the writer.
use testofdumping.Prelude.{
  ℕ, suc, ◌≤◌, List, [], ◌∷◌, ◌++◌, none, true, ◌≡◌, refl, ap, sym, ◌∙◌, ◌⊎◌, inl, inr, take,
  length, append-nil, append_assoc, All, arith,
}
use testofdumping.Dump.Types.{Outcome, next, exit, fault, state, ◌>>=◌}
use testofdumping.Dump.Consumer.Files.{GoesOn}
use testofdumping.Icispcap.Writer.{
  Writer, Round, writer_step, writer_loop, writer_run, cleanup, dequeue, flush_to_file,
  close_current,
}
use testofdumping.Icispcap.Chunk.{
  Wrote, Ready, IsGood, NoFault, out, bodies, got_bytes, writer_step-Wrote, create_new_file-Wrote,
  close_current_facts, flush_empties, out-flush, out-close_current,
}

-- The bytes of the packets of some rounds.
abbrev pub all_bytes : List Round → List ℕ
all_bytes [] = []
all_bytes (r ∷ rs) = got_bytes r.got ++ all_bytes rs

-- The run is defined, and adds the packets of a first part of the rounds: all, if it goes on.
abbrev pub WritesRounds : List Round → Writer → Outcome Writer → Type 0
WritesRounds rs w o =
    (n : ℕ) × (n ≤ length rs)
    × NoFault o
    × (out (state o) ≡ out w ++ all_bytes (take n rs))
    × ((n ≡ length rs) ⊎ (¬ GoesOn o))

after-WritesRounds :
    (snaplen : ℕ) (r : Round) (rs : List Round) (w : Writer) (o : Outcome Writer)
    → Wrote (got_bytes r.got) w o
    → ((w' : Writer) → Ready w' → WritesRounds rs w' (writer_loop snaplen rs w'))
    → WritesRounds (r ∷ rs) w (o >>= writer_loop snaplen rs)
after-WritesRounds snaplen r rs w (next w') a ih =
    let (n, le, safe, e, all) = ih w' (a.ready tt) in
    (
      suc n,
      omega arith,
      safe,
      e
          ∙ ap (λ bs. bs ++ all_bytes (take n rs)) a.same
          ∙ append_assoc (out w) (got_bytes r.got) (all_bytes (take n rs)),
      elim all [ inl full ↦ inl (ap suc full) | inr stop ↦ inr stop ],
    )
after-WritesRounds snaplen r rs w (exit code w') a ih = (
  1,
  omega arith,
  tt,
  a.same ∙ ap (λ bs. out w ++ bs) (sym (append-nil (got_bytes r.got))),
  inr (λ g. g),
)
after-WritesRounds snaplen r rs w (fault why w') a ih = absurd a.safe

writer_loop-WritesRounds :
    (snaplen : ℕ) (rs : List Round) (w : Writer)
    → All IsGood rs
    → Ready w
    → WritesRounds rs w (writer_loop snaplen rs w)
unfolding writer_loop
writer_loop-WritesRounds snaplen [] w good v =
    (0, omega arith, tt, sym (append-nil (out w)), inl refl)
writer_loop-WritesRounds snaplen (r ∷ rs) w good v =
    after-WritesRounds snaplen r rs w _ (writer_step-Wrote snaplen r w good.0 v)
      (λ w' v'. writer_loop-WritesRounds snaplen rs w' good.1 v')

start-WritesRounds :
    (snaplen : ℕ) (rs : List Round) (w : Writer) (o : Outcome Writer)
    → All IsGood rs
    → Wrote [] w o
    → WritesRounds rs w (o >>= writer_loop snaplen rs)
start-WritesRounds snaplen rs w (next w') good a =
    let (n, le, safe, e, all) = writer_loop-WritesRounds snaplen rs w' good (a.ready tt) in
    (n, le, safe, e ∙ ap (λ bs. bs ++ all_bytes (take n rs)) (a.same ∙ append-nil (out w)), all)
start-WritesRounds snaplen rs w (exit code w') good a = (0, omega arith, tt, a.same, inr (λ g. g))
start-WritesRounds snaplen rs w (fault why w') good a = absurd a.safe

-- From a writer whose chunk is empty, over any rounds in which the queue delivers whole packets and
-- the disk takes all that it is given, whatever the rotations, openings and stops: no copy leaves
-- the array `tochunk`, and the files behind their headers, followed by the chunk, hold the bytes
-- of the packets of a first part of the rounds, in order and whole, behind what the writer held
-- before; that part is all the rounds unless the thread has ended.
pub writer_run_writes :
    (snaplen : ℕ) (first : Round) (rs : List Round) (w : Writer)
    → w.chunk ≡ []
    → All IsGood rs
    → WritesRounds rs w (writer_run snaplen first rs w)
unfolding writer_run
writer_run_writes snaplen first rs w empty good =
    start-WritesRounds snaplen rs w _ good
      (create_new_file-Wrote snaplen first w (omega (arith, ap length empty)))

-- When the thread is told to stop and the queue is empty, a writer that is ready ends with all it
-- was given in its closed files and nothing in the chunk, if the disk takes all that it is given.
pub writer_drains :
    (snaplen : ℕ) (r : Round) (w : Writer)
    → Ready w
    → ((n : ℕ) → r.fwrite n ≡ n)
    → r.got ≡ none
    → r.thread_stop ≡ true
    → (w' : Writer) × (writer_step snaplen r w ≡ exit 0 w')
      × (w'.chunk ≡ [])
      × (w'.current ≡ none)
      × (bodies w'.closed ≡ out w)
unfolding writer_step dequeue cleanup
writer_drains snaplen r w v full idle stop = (
  close_current flushed,
  simp (idle, stop),
  chunk_empty,
  none_open,
  sym (append-nil (bodies (close_current flushed).closed))
      ∙ sym (append-nil (bodies (close_current flushed).closed ++ []))
      ∙ drained,
)
  where
    flushed : Writer
    flushed = flush_to_file r w

    none_open : (close_current flushed).current ≡ none
    none_open = (close_current_facts flushed).0

    chunk_empty : (close_current flushed).chunk ≡ []
    chunk_empty = (close_current_facts flushed).1 ∙ flush_empties r w v

    drained : (bodies (close_current flushed).closed ++ []) ++ [] ≡ out w
    drained = rw (none_open, chunk_empty) at (out-close_current flushed ∙ out-flush r w full)
