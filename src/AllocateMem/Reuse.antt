-- ===== src/AllocateMem/Reuse.antt =====
-- One allocation: it never reads the back of an empty vector, and its block is no other's.
use testofdumping.Prelude.{
  ℕ, ◌+◌, ◌-◌, ◌≤◌, List, [], ◌∷◌, ◌++◌, Option, none, some, false, ◌==◌, if◌then◌else◌, ◌≡◌, refl,
  ap, subst, ◌∙◌, ◌⊎◌, inl, inr, length, length-append, arith, Bool-cases, ==_iff,
}
use testofdumping.AllocateMem.{
  Memory, Heap, Progress, going, thrown, undefined, getarrayplaceholder, not_null, from_malloc,
  from_garbage, operator_new_array, push_back,
}

abbrev pub count : ℕ → List ℕ → ℕ
count p [] = 0
count p (x ∷ xs) = (if x == p then 1 else 0) + count p xs

pub count-append : (p : ℕ) (xs ys : List ℕ) → count p (xs ++ ys) ≡ count p xs + count p ys
count-append p [] ys = omega arith
count-append p (x ∷ xs) ys = omega (arith, count-append p xs ys)

-- How often the program holds a block.
abbrev pub occurs : ℕ → Memory → ℕ
occurs p m = count p m.garbage + count p m.array_garbage + count p m.intmem + count p m.intmem_2

-- What the C library promises: a new block, and one that realloc has moved, is none of the blocks
-- that the program holds.
pub record IsHeap (h : Heap) : Type 0 where
  pub malloc_new : (m : Memory) (p : ℕ) → h.malloc m ≡ some p → occurs p m ≡ 0
  pub realloc_new : (m : Memory) (ptr p : ℕ) → h.realloc m ptr ≡ some p → occurs p m ≡ 0

-- malloc or realloc once returned NULL.
abbrev pub Fails : Heap → Type 0
Fails h =
    ((m : Memory) × (h.malloc m ≡ none)) ⊎ ((m : Memory) × (ptr : ℕ) × (h.realloc m ptr ≡ none))

-- The counters are the sizes of the vectors, and no block is held twice.
pub record IsSound (m : Memory) : Type 0 where
  pub singles : m.garbage_count ≡ length m.garbage
  pub arrays : m.arr_garbage_count ≡ length m.array_garbage
  pub once : (q : ℕ) → occurs q m ≤ 1

-- The sizes of the four vectors and the calls of malloc.
pub record HasSizes (m : Memory) (g a i j c : ℕ) : Type 0 where
  pub garbage : length m.garbage ≡ g
  pub array_garbage : length m.array_garbage ≡ a
  pub intmem : length m.intmem ≡ i
  pub intmem_2 : length m.intmem_2 ≡ j
  pub mallocs : m.mallocs ≡ c

-- What a piece of the program ends with, when it should leave these sizes.
abbrev pub Leaves : Heap → (ℕ × ℕ × ℕ × ℕ × ℕ) → Progress → Type 0
Leaves h (g, a, i, j, c) (going m) = IsSound m × HasSizes m g a i j c
Leaves h (g, a, i, j, c) (thrown m) = Fails h
Leaves h (g, a, i, j, c) (undefined m) = ⊥

pub occurs-fresh :
    (p q : ℕ) (m : Memory)
    → occurs p m ≡ 0
    → occurs q m ≤ 1
    → (if p == q then 1 else 0) + occurs q m ≤ 1
occurs-fresh p q m none_yet once = elim (Bool-cases (p == q)) [
  | inl e ↦
      let none_too : occurs q m ≡ 0 = subst (λ x. occurs x m ≡ 0) ((==_iff p q).0 e) none_yet in
      rw e (omega (arith, none_too))
  | inr e ↦ rw e (omega (arith, once))
]

module _ (h : Heap) (law : IsHeap h) where
  -- An array is taken from the garbage, or from malloc where there is none.
  pub push_back-Leaves :
      (m : Memory) (g a i j c : ℕ)
      → IsSound m
      → HasSizes m g a i j c
      → Leaves h (g, a - 1, i + 1, j, c + (1 - a)) (push_back (operator_new_array h m))
  unfolding push_back operator_new_array from_malloc not_null from_garbage getarrayplaceholder
  push_back-Leaves m g a i j c s z = elim (Bool-cases (m.arr_garbage_count == 0)) [
    | inl e ↦ rw e (fresh (h.malloc m) refl ((==_iff _ 0).0 e))
    | inr e ↦ rw e (reused m.array_garbage refl e)
  ]
    where
      fresh :
          (o : Option ℕ)
          → h.malloc m ≡ o
          → m.arr_garbage_count ≡ 0
          → Leaves h
              (g, a - 1, i + 1, j, c + (1 - a))
              (push_back (not_null o (record m { mallocs = m.mallocs + 1 })))
      fresh none e empty = inl (m, e)
      fresh (some p) e empty = (
        record {
          singles = s.singles;
          arrays = s.arrays;
          once = λ q.
              let new = occurs-fresh p q m (law.malloc_new m p e) (s.once q) in
              let more = count-append q m.intmem (p ∷ []) in omega (arith, new, more);
        },
        record {
          garbage = z.garbage;
          array_garbage = let k = s.arrays in let l = z.array_garbage in omega (arith, k, l, empty);
          intmem =
              let k = length-append m.intmem (p ∷ []) in let l = z.intmem in omega (arith, k, l);
          intmem_2 = z.intmem_2;
          mallocs =
              let k = s.arrays in
              let l = z.array_garbage in let n = z.mallocs in omega (arith, k, l, n, empty);
        },
      )

      reused :
          (l : List ℕ)
          → m.array_garbage ≡ l
          → (m.arr_garbage_count == 0) ≡ false
          → Leaves h
              (g, a - 1, i + 1, j, c + (1 - a))
              (push_back (from_garbage h (getarrayplaceholder l m)))
      reused [] e some_left =
          let k : m.arr_garbage_count ≡ 0 = s.arrays ∙ ap length e in
          absurd (ground (arith, k, some_left))
      reused (ret ∷ rest) e some_left =
          moved
            (h.realloc
              (record m { array_garbage = rest; arr_garbage_count = m.arr_garbage_count - 1 }) ret)
            refl
        where
          moved :
              (o : Option ℕ)
              → h.realloc
                  (record m { array_garbage = rest; arr_garbage_count = m.arr_garbage_count - 1 })
                  ret
                ≡ o
              → Leaves h
                  (g, a - 1, i + 1, j, c + (1 - a))
                  (push_back (
                    not_null o (record m {
                      array_garbage = rest;
                      arr_garbage_count = m.arr_garbage_count - 1;
                    })))
          moved none e' = inr (_, ret, e')
          moved (some p) e' = (
            record {
              singles = s.singles;
              arrays = let k = s.arrays in let l = ap length e in omega (arith, k, l);
              once = λ q.
                  let m' : Memory = record m {
                    array_garbage = rest;
                    arr_garbage_count = m.arr_garbage_count - 1;
                  } in
                  let before = s.once q in
                  let split = ap (count q) e in
                  let new =
                    occurs-fresh p q m' (law.realloc_new m' ret p e')
                      (omega (arith, before, split)) in
                  let more = count-append q m.intmem (p ∷ []) in omega (arith, new, more);
            },
            record {
              garbage = z.garbage;
              array_garbage = let k = ap length e in let l = z.array_garbage in omega (arith, k, l);
              intmem =
                  let k = length-append m.intmem (p ∷ []) in
                  let l = z.intmem in omega (arith, k, l);
              intmem_2 = z.intmem_2;
              mallocs =
                  let k = ap length e in
                  let l = z.array_garbage in let n = z.mallocs in omega (arith, k, l, n);
            },
          )
