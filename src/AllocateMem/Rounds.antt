-- ===== src/AllocateMem/Rounds.antt =====
-- The rounds of the program: after the first, no block comes from malloc any more.
use testofdumping.Prelude.{
  ℕ, zero, suc, ◌+◌, ◌-◌, ◌*◌, List, [], ◌∷◌, ◌≡◌, refl, ap, sym, subst, ◌∙◌, length, arith,
}
use testofdumping.AllocateMem.{
  operator_delete, operator_delete_array, Memory, Heap, Progress, going, thrown, undefined,
  add_togarbage, add_to_arr_garbage, ◌>>=◌, allamem_loop, allamem_2_loop, delemem_loop,
  delemem_2_loop, loops, allamem, allamem_2, delemem, delemem_2, main_round, main, at_start,
}
use testofdumping.AllocateMem.Reuse.{count, IsHeap, IsSound, HasSizes, Leaves, push_back-Leaves}
use testofdumping.AllocateMem.Single.{push_back_2-Leaves}

-- What a walk over a vector does to the arrays that are kept for reuse.
delemem_loop-same :
    (ps : List ℕ) (m : Memory)
    → let m' = delemem_loop ps m in
      (m'.garbage ≡ m.garbage)
      × (m'.garbage_count ≡ m.garbage_count)
      × (m'.intmem_2 ≡ m.intmem_2)
      × (m'.mallocs ≡ m.mallocs)
      × (length m'.array_garbage ≡ length ps + length m.array_garbage)
      × (m'.arr_garbage_count ≡ length ps + m.arr_garbage_count)
      × ((q : ℕ) → count q m'.array_garbage ≡ count q ps + count q m.array_garbage)
unfolding delemem_loop add_to_arr_garbage operator_delete_array
delemem_loop-same [] m = (refl, refl, refl, refl, omega arith, omega arith, λ q. omega arith)
delemem_loop-same (p ∷ ps) m =
    let (a, b, c, d, e, f, k) = delemem_loop-same ps (add_to_arr_garbage p m) in
    (a, b, c, d, omega (arith, e), omega (arith, f), λ q. let kq = k q in omega (arith, kq))

delemem_2_loop-same :
    (ps : List ℕ) (m : Memory)
    → let m' = delemem_2_loop ps m in
      (m'.array_garbage ≡ m.array_garbage)
      × (m'.arr_garbage_count ≡ m.arr_garbage_count)
      × (m'.intmem ≡ m.intmem)
      × (m'.mallocs ≡ m.mallocs)
      × (length m'.garbage ≡ length ps + length m.garbage)
      × (m'.garbage_count ≡ length ps + m.garbage_count)
      × ((q : ℕ) → count q m'.garbage ≡ count q ps + count q m.garbage)
unfolding delemem_2_loop add_togarbage operator_delete
delemem_2_loop-same [] m = (refl, refl, refl, refl, omega arith, omega arith, λ q. omega arith)
delemem_2_loop-same (p ∷ ps) m =
    let (a, b, c, d, e, f, k) = delemem_2_loop-same ps (add_togarbage p m) in
    (a, b, c, d, omega (arith, e), omega (arith, f), λ q. let kq = k q in omega (arith, kq))

module _ (h : Heap) (law : IsHeap h) where
  -- One piece of the program after another.
  >>=-Leaves :
      (g a i j c : ℕ) (y : ℕ × ℕ × ℕ × ℕ × ℕ) (o : Progress) (f : Memory → Progress)
      → Leaves h (g, a, i, j, c) o
      → ((m : Memory) → IsSound m → HasSizes m g a i j c → Leaves h y (f m))
      → Leaves h y (o >>= f)
  unfolding ◌>>=◌
  >>=-Leaves g a i j c y (going m) f l k = k m l.0 l.1
  >>=-Leaves g a i j c y (thrown m) f l k = l
  >>=-Leaves g a i j c y (undefined m) f l k = absurd l

  allamem_loop-Leaves :
      (n : ℕ) (m : Memory) (g a i j c : ℕ)
      → IsSound m
      → HasSizes m g a i j c
      → Leaves h (g, a - n, i + n, j, c + (n - a)) (allamem_loop h n m)
  unfolding allamem_loop
  allamem_loop-Leaves zero m g a i j c s z =
      let e1 : a ≡ a - 0 = omega arith in
      let e2 : i ≡ i + 0 = omega arith in
      let e3 : c ≡ c + (0 - a) = omega arith in
      (
        s,
        subst (λ x. HasSizes m g x (i + 0) j (c + (0 - a))) e1
            (subst (λ x. HasSizes m g a x j (c + (0 - a))) e2 (subst (HasSizes m g a i j) e3 z)),
      )
  allamem_loop-Leaves (suc n) m g a i j c s z =
      let e1 : a - 1 - n ≡ a - suc n = omega arith in
      let e2 : i + 1 + n ≡ i + suc n = omega arith in
      let e3 : c + (1 - a) + (n - (a - 1)) ≡ c + (suc n - a) = omega arith in
      >>=-Leaves g (a - 1) (i + 1) j (c + (1 - a)) _ _ (allamem_loop h n)
        (push_back-Leaves h law m g a i j c s z)
        (λ m' s' z'.
          subst (λ (x : ℕ × ℕ × ℕ). Leaves h (g, x.0, x.1, j, x.2) (allamem_loop h n m'))
            (λ t. (e1 t, e2 t, e3 t))
            (allamem_loop-Leaves n m' g (a - 1) (i + 1) j (c + (1 - a)) s' z'))

  allamem_2_loop-Leaves :
      (n : ℕ) (m : Memory) (g a i j c : ℕ)
      → IsSound m
      → HasSizes m g a i j c
      → Leaves h (g - n, a, i, j + n, c + (n - g)) (allamem_2_loop h n m)
  unfolding allamem_2_loop
  allamem_2_loop-Leaves zero m g a i j c s z =
      let e1 : g ≡ g - 0 = omega arith in
      let e2 : j ≡ j + 0 = omega arith in
      let e3 : c ≡ c + (0 - g) = omega arith in
      (
        s,
        subst (λ x. HasSizes m x a i (j + 0) (c + (0 - g))) e1
            (subst (λ x. HasSizes m g a i x (c + (0 - g))) e2 (subst (HasSizes m g a i j) e3 z)),
      )
  allamem_2_loop-Leaves (suc n) m g a i j c s z =
      let e1 : g - 1 - n ≡ g - suc n = omega arith in
      let e2 : j + 1 + n ≡ j + suc n = omega arith in
      let e3 : c + (1 - g) + (n - (g - 1)) ≡ c + (suc n - g) = omega arith in
      >>=-Leaves (g - 1) a i (j + 1) (c + (1 - g)) _ _ (allamem_2_loop h n)
        (push_back_2-Leaves h law m g a i j c s z)
        (λ m' s' z'.
          subst (λ (x : ℕ × ℕ × ℕ). Leaves h (x.0, a, i, x.1, x.2) (allamem_2_loop h n m'))
            (λ t. (e1 t, e2 t, e3 t))
            (allamem_2_loop-Leaves n m' (g - 1) a i (j + 1) (c + (1 - g)) s' z'))

  delemem-Leaves :
      (m : Memory) (g a i j c : ℕ)
      → IsSound m
      → HasSizes m g a i j c
      → Leaves h (g, i + a, 0, j, c) (delemem m)
  unfolding delemem
  delemem-Leaves m g a i j c s z =
      let (same, same_count, same_2, same_mallocs, size, counter, kept) =
        delemem_loop-same m.intmem m in
      (
        record {
          singles = same_count ∙ s.singles ∙ ap length (sym same);
          arrays = let k = s.arrays in omega (arith, size, counter, k);
          once = λ q.
              let before = s.once q in
              let kq = kept q in
              let e1 = ap (count q) same in
              let e2 = ap (count q) same_2 in omega (arith, before, kq, e1, e2);
        },
        record {
          garbage = ap length same ∙ z.garbage;
          array_garbage = let k = z.array_garbage in let l = z.intmem in omega (arith, size, k, l);
          intmem = refl;
          intmem_2 = ap length same_2 ∙ z.intmem_2;
          mallocs = same_mallocs ∙ z.mallocs;
        },
      )

  delemem_2-Leaves :
      (m : Memory) (g a i j c : ℕ)
      → IsSound m
      → HasSizes m g a i j c
      → Leaves h (j + g, a, i, 0, c) (delemem_2 m)
  unfolding delemem_2
  delemem_2-Leaves m g a i j c s z =
      let (same, same_count, same_i, same_mallocs, size, counter, kept) =
        delemem_2_loop-same m.intmem_2 m in
      (
        record {
          singles = let k = s.singles in omega (arith, size, counter, k);
          arrays = same_count ∙ s.arrays ∙ ap length (sym same);
          once = λ q.
              let before = s.once q in
              let kq = kept q in
              let e1 = ap (count q) same in
              let e2 = ap (count q) same_i in omega (arith, before, kq, e1, e2);
        },
        record {
          garbage = let k = z.garbage in let l = z.intmem_2 in omega (arith, size, k, l);
          array_garbage = ap length same ∙ z.array_garbage;
          intmem = ap length same_i ∙ z.intmem;
          intmem_2 = refl;
          mallocs = same_mallocs ∙ z.mallocs;
        },
      )

  -- A round, from arrays that were freed and objects that are still held.
  main_round-Leaves :
      (m : Memory) (a j c : ℕ)
      → IsSound m
      → HasSizes m 0 a 0 j c
      → Leaves h
          (
            j + 0 - loops,
            0 + loops + (a - loops),
            0,
            0 + loops,
            c + (loops - a) + (loops - (j + 0)),
          )
          (main_round h m)
  unfolding main_round allamem allamem_2
  main_round-Leaves m a j c s z =
      >>=-Leaves _ _ _ _ _ _ _ delemem
        (>>=-Leaves _ _ _ _ _ _ _ (allamem_2 h)
          (>>=-Leaves _ _ _ _ _ _ _ delemem_2 (allamem_loop-Leaves loops m 0 a 0 j c s z)
            (λ m1 s1 z1. delemem_2-Leaves m1 _ _ _ _ _ s1 z1))
          (λ m2 s2 z2. allamem_2_loop-Leaves loops m2 _ _ _ _ _ s2 z2))
        (λ m3 s3 z3. delemem-Leaves m3 _ _ _ _ _ s3 z3)

  rounds-Leaves :
      (n : ℕ) (m : Memory)
      → IsSound m
      → HasSizes m 0 loops 0 loops (2 * loops)
      → Leaves h (0, loops, 0, loops, 2 * loops) (main h n m)
  unfolding main
  rounds-Leaves zero m s z = (s, z)
  rounds-Leaves (suc n) m s z =
      >>=-Leaves 0 loops 0 loops (2 * loops) _ _ (main h n)
        (main_round-Leaves m loops loops (2 * loops) s z) (λ m' s' z'. rounds-Leaves n m' s' z')

  at_start-IsSound : IsSound at_start
  at_start-IsSound = record { singles = refl; arrays = refl; once = λ q. omega arith }

  at_start-HasSizes : HasSizes at_start 0 0 0 0 0
  at_start-HasSizes = record {
    garbage = refl;
    array_garbage = refl;
    intmem = refl;
    intmem_2 = refl;
    mallocs = refl;
  }

  -- However many rounds the program makes, it never reads an empty vector of garbage, and it ends
  -- only where malloc or realloc returns NULL. After each round no block is held twice, the 10000
  -- arrays are all kept for reuse and the 10000 single objects are in use, and malloc has been
  -- called 20000 times in all, as in the first round.
  pub rounds_reuse : (n : ℕ) → Leaves h (0, loops, 0, loops, 2 * loops) (main h (suc n) at_start)
  unfolding main
  rounds_reuse n =
      >>=-Leaves 0 loops 0 loops (2 * loops) _ _ (main h n)
        (main_round-Leaves at_start 0 0 0 at_start-IsSound at_start-HasSizes)
        (λ m s z. rounds-Leaves n m s z)
