-- ===== src/AllocateMem/Single.antt =====
-- The same for a single object, which `operator new` takes.
use testofdumping.Prelude.{
  ℕ, ◌+◌, ◌-◌, List, [], ◌∷◌, Option, none, some, false, ◌==◌, ◌≡◌, refl, ap, ◌∙◌, inl, inr, length,
  length-append, arith, Bool-cases, ==_iff,
}
use testofdumping.AllocateMem.{
  Memory, Heap, getaplaceholder, not_null, from_malloc, from_garbage, operator_new, push_back_2,
}
use testofdumping.AllocateMem.Reuse.{
  count, count-append, IsHeap, IsSound, HasSizes, Leaves, occurs-fresh,
}

module _ (h : Heap) (law : IsHeap h) where
  -- A single object is taken from the garbage, or from malloc where there is none.
  pub push_back_2-Leaves :
      (m : Memory) (g a i j c : ℕ)
      → IsSound m
      → HasSizes m g a i j c
      → Leaves h (g - 1, a, i, j + 1, c + (1 - g)) (push_back_2 (operator_new h m))
  unfolding push_back_2 operator_new from_malloc not_null from_garbage getaplaceholder
  push_back_2-Leaves m g a i j c s z = elim (Bool-cases (m.garbage_count == 0)) [
    | inl e ↦ rw e (fresh (h.malloc m) refl ((==_iff _ 0).0 e))
    | inr e ↦ rw e (reused m.garbage refl e)
  ]
    where
      fresh :
          (o : Option ℕ)
          → h.malloc m ≡ o
          → m.garbage_count ≡ 0
          → Leaves h
              (g - 1, a, i, j + 1, c + (1 - g))
              (push_back_2 (not_null o (record m { mallocs = m.mallocs + 1 })))
      fresh none e empty = inl (m, e)
      fresh (some p) e empty = (
        record {
          arrays = s.arrays;
          singles = s.singles;
          once = λ q.
              let new = occurs-fresh p q m (law.malloc_new m p e) (s.once q) in
              let more = count-append q m.intmem_2 (p ∷ []) in omega (arith, new, more);
        },
        record {
          array_garbage = z.array_garbage;
          garbage = let k = s.singles in let l = z.garbage in omega (arith, k, l, empty);
          intmem_2 =
              let k = length-append m.intmem_2 (p ∷ []) in
              let l = z.intmem_2 in omega (arith, k, l);
          intmem = z.intmem;
          mallocs =
              let k = s.singles in
              let l = z.garbage in let n = z.mallocs in omega (arith, k, l, n, empty);
        },
      )

      reused :
          (l : List ℕ)
          → m.garbage ≡ l
          → (m.garbage_count == 0) ≡ false
          → Leaves h
              (g - 1, a, i, j + 1, c + (1 - g))
              (push_back_2 (from_garbage h (getaplaceholder l m)))
      reused [] e some_left =
          let k : m.garbage_count ≡ 0 = s.singles ∙ ap length e in
          absurd (ground (arith, k, some_left))
      reused (ret ∷ rest) e some_left =
          moved (h.realloc (record m { garbage = rest; garbage_count = m.garbage_count - 1 }) ret)
            refl
        where
          moved :
              (o : Option ℕ)
              → h.realloc (record m { garbage = rest; garbage_count = m.garbage_count - 1 }) ret ≡ o
              → Leaves h
                  (g - 1, a, i, j + 1, c + (1 - g))
                  (push_back_2
                    (not_null o (record m { garbage = rest; garbage_count = m.garbage_count - 1 })))
          moved none e' = inr (_, ret, e')
          moved (some p) e' = (
            record {
              arrays = s.arrays;
              singles = let k = s.singles in let l = ap length e in omega (arith, k, l);
              once = λ q.
                  let m' : Memory = record m {
                    garbage = rest;
                    garbage_count = m.garbage_count - 1;
                  } in
                  let before = s.once q in
                  let split = ap (count q) e in
                  let new =
                    occurs-fresh p q m' (law.realloc_new m' ret p e')
                      (omega (arith, before, split)) in
                  let more = count-append q m.intmem_2 (p ∷ []) in omega (arith, new, more);
            },
            record {
              array_garbage = z.array_garbage;
              garbage = let k = ap length e in let l = z.garbage in omega (arith, k, l);
              intmem_2 =
                  let k = length-append m.intmem_2 (p ∷ []) in
                  let l = z.intmem_2 in omega (arith, k, l);
              intmem = z.intmem;
              mallocs =
                  let k = ap length e in
                  let l = z.garbage in let n = z.mallocs in omega (arith, k, l, n);
            },
          )
