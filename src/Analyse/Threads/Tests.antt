-- ===== src/Analyse/Threads/Tests.antt =====
-- Passes over a directory with three files, then with one, and passes that fail.
use testofdumping.Prelude.{ℕ, List, [], ◌∷◌, Bool, true, false, ◌≡◌, ◌↔◌, refl, All, text_eq}
use testofdumping.Dump.Types.{Text, codes}
use testofdumping.Analyse.{scan, is_pcapfile_ready}
use testofdumping.Analyse.Threads.{
  Pool, Pass, going, join_slot, join_thread, join_loop, create_thread, create_loop,
  wait_for_threads, pass, passes, idle,
}
use testofdumping.Analyse.Threads.Loops.{Fails}
use testofdumping.Analyse.Threads.Defined.{AllWithin, all_files, passes_iff}

abbrev at_pass : ℕ → List (Text × Bool) → Pass
at_pass thread_count entries = record {
  entries = entries;
  thread_count = thread_count;
  joins = λ i. true;
  creates = λ i. true;
}

abbrev ready_file : Text × Bool
ready_file = (codes "cap7ready.pcap", true)

abbrev two_passes : List Pass
two_passes =
    at_pass 1 (ready_file ∷ (codes "cap8", true) ∷ ready_file ∷ ready_file ∷ [])
    ∷ at_pass 4 (ready_file ∷ [])
    ∷ []

passes_iff_example : AllWithin 0 two_passes ↔ (
    (m : Pool) × (passes two_passes idle ≡ going m)
    × (m.started ≡ all_files two_passes)
    × All (λ name. is_pcapfile_ready name ≡ false) m.started)
passes_iff_example = passes_iff two_passes ((λ j. refl), ((λ j. refl), tt))

two_passes-Passing : (m : Pool) × (passes two_passes idle ≡ going m)
unfolding scan is_pcapfile_ready passes pass wait_for_threads join_loop join_thread join_slot
    create_loop create_thread text_eq
two_passes-Passing = (_, refl)

-- While four tasks run, a second file is found where there was one.
second_file-Fails :
    Fails
      (passes (at_pass 1 (ready_file ∷ []) ∷ at_pass 4 (ready_file ∷ ready_file ∷ []) ∷ []) idle)
unfolding scan is_pcapfile_ready passes pass wait_for_threads join_loop join_thread join_slot
    create_loop create_thread text_eq
second_file-Fails = tt
