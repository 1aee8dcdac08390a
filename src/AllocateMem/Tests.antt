-- ===== src/AllocateMem/Tests.antt =====
-- A heap that always has a block that is larger than all that are held.
use testofdumping.Prelude.{ℕ, suc, ◌+◌, ◌*◌, ◌≤◌, List, [], ◌∷◌, some, ◌≡◌, refl, subst, arith}
use testofdumping.AllocateMem.{Memory, Heap, loops, main, at_start}
use testofdumping.AllocateMem.Reuse.{count, occurs, IsHeap, Leaves}
use testofdumping.AllocateMem.Rounds.{rounds_reuse}

abbrev total : List ℕ → ℕ
total [] = 0
total (x ∷ xs) = x + total xs

beyond : (p : ℕ) (xs : List ℕ) → suc (total xs) ≤ p → count p xs ≡ 0
beyond p [] lt = refl
beyond p (x ∷ xs) lt = let rest = beyond p xs (omega (arith, lt)) in ground (arith, lt, rest)

abbrev next_block : Memory → ℕ
next_block m = suc (total m.garbage + total m.array_garbage + total m.intmem + total m.intmem_2)

abbrev heap : Heap
heap = record { malloc = λ m. some (next_block m); realloc = λ m ptr. some (next_block m) }

next_block-occurs : (m : Memory) → occurs (next_block m) m ≡ 0
next_block-occurs m =
    let a = beyond (next_block m) m.garbage (omega arith) in
    let b = beyond (next_block m) m.array_garbage (omega arith) in
    let c = beyond (next_block m) m.intmem (omega arith) in
    let d = beyond (next_block m) m.intmem_2 (omega arith) in omega (arith, a, b, c, d)

heap-IsHeap : IsHeap heap
heap-IsHeap = record {
  malloc_new = λ m p e.
      let same : next_block m ≡ p = cc in subst (λ x. occurs x m ≡ 0) same (next_block-occurs m);
  realloc_new = λ m ptr p e.
      let same : next_block m ≡ p = cc in subst (λ x. occurs x m ≡ 0) same (next_block-occurs m);
}

rounds_reuse_example : Leaves heap (0, loops, 0, loops, 2 * loops) (main heap 3 at_start)
rounds_reuse_example = rounds_reuse heap heap-IsHeap 2
