-- ===== src/AllocateMem.antt =====
-- src/allocatemem.cc: a class whose operators new and delete keep freed blocks for reuse, and the
-- program that allocates and frees them in rounds. malloc and realloc are a parameter. The `int`
-- that a constructor allocates and the destructor frees is left out, as is what `callConst` does:
-- it makes and destroys another object. A counter is far from the limits of `int`.
pub mod Reuse
pub mod Single
pub mod Rounds
mod Tests
use testofdumping.Prelude.{
  ℕ, zero, suc, ◌+◌, ◌-◌, List, [], ◌∷◌, ◌++◌, Option, none, some, Bool, true, false, ◌==◌,
  if◌then◌else◌,
}

-- The two vectors of the garbage collector, their backs first, with their counters; the two vectors
-- of the program; and how often malloc was called.
pub record Memory : Type 0 where
  pub garbage : List ℕ
  pub garbage_count : ℕ
  pub array_garbage : List ℕ
  pub arr_garbage_count : ℕ
  pub intmem : List ℕ
  pub intmem_2 : List ℕ
  pub mallocs : ℕ

-- malloc and realloc; both may look at all blocks that the program holds. The block given to
-- realloc is no longer among these.
pub record Heap : Type 0 where
  pub malloc : Memory → Option ℕ
  pub realloc : Memory → ℕ → Option ℕ

-- A new expression gives a block, throws bad_alloc, or reads the back of an empty vector.
pub data Allocation : Type 0 where
  block : ℕ → Memory → Allocation
  no_memory no_back : Memory → Allocation

-- A piece of the program goes on, or it ends: by an exception, or undefined.
pub data Progress : Type 0 where
  going thrown undefined : Memory → Progress

-- `addTogarbage` and `addToArrGarbage`.
unfoldable pub add_togarbage : ℕ → Memory → Memory
add_togarbage ptr m = record m { garbage = ptr ∷ m.garbage; garbage_count = m.garbage_count + 1 }

unfoldable pub add_to_arr_garbage : ℕ → Memory → Memory
add_to_arr_garbage ptr m = record m {
  array_garbage = ptr ∷ m.array_garbage;
  arr_garbage_count = m.arr_garbage_count + 1;
}

-- `operator delete` and `operator delete []`; a null pointer is nothing to them.
unfoldable pub operator_delete : Option ℕ → Memory → Memory
operator_delete none m = m
operator_delete (some ptr) m = add_togarbage ptr m

unfoldable pub operator_delete_array : Option ℕ → Memory → Memory
operator_delete_array none m = m
operator_delete_array (some ptr) m = add_to_arr_garbage ptr m

-- `getaplaceholder` and `getarrayplaceholder`, for the elements of the vector.
unfoldable pub getaplaceholder : List ℕ → Memory → Allocation
getaplaceholder [] m = no_back m
getaplaceholder (ret ∷ rest) m =
    block ret (record m { garbage = rest; garbage_count = m.garbage_count - 1 })

unfoldable pub getarrayplaceholder : List ℕ → Memory → Allocation
getarrayplaceholder [] m = no_back m
getarrayplaceholder (ret ∷ rest) m =
    block ret (record m { array_garbage = rest; arr_garbage_count = m.arr_garbage_count - 1 })

-- NULL ends in bad_alloc.
unfoldable pub not_null : Option ℕ → Memory → Allocation
not_null none m = no_memory m
not_null (some p) m = block p m

unfoldable pub from_malloc : Heap → Memory → Allocation
from_malloc h m = not_null (h.malloc m) (record m { mallocs = m.mallocs + 1 })

unfoldable pub from_garbage : Heap → Allocation → Allocation
from_garbage h (block ptr m) = not_null (h.realloc m ptr) m
from_garbage h (no_memory m) = no_memory m
from_garbage h (no_back m) = no_back m

-- `operator new` and `operator new[]`.
unfoldable pub operator_new : Heap → Memory → Allocation
operator_new h m =
    if m.garbage_count == 0 then from_malloc h m else from_garbage h (getaplaceholder m.garbage m)

unfoldable pub operator_new_array : Heap → Memory → Allocation
operator_new_array h m =
    if m.arr_garbage_count == 0
    then from_malloc h m
    else from_garbage h (getarrayplaceholder m.array_garbage m)

-- The new block goes to the end of a vector.
unfoldable pub push_back : Allocation → Progress
push_back (block p m) = going (record m { intmem = m.intmem ++ p ∷ [] })
push_back (no_memory m) = thrown m
push_back (no_back m) = undefined m

unfoldable pub push_back_2 : Allocation → Progress
push_back_2 (block p m) = going (record m { intmem_2 = m.intmem_2 ++ p ∷ [] })
push_back_2 (no_memory m) = thrown m
push_back_2 (no_back m) = undefined m

infixl 20 ◌>>=◌
unfoldable pub ◌>>=◌ : Progress → (Memory → Progress) → Progress
going m >>= f = f m
thrown m >>= f = thrown m
undefined m >>= f = undefined m

-- The loops of `allamem` and `allamem_2`, with the rounds left.
unfoldable pub allamem_loop : Heap → ℕ → Memory → Progress
allamem_loop h zero m = going m
allamem_loop h (suc n) m = push_back (operator_new_array h m) >>= allamem_loop h n

unfoldable pub allamem_2_loop : Heap → ℕ → Memory → Progress
allamem_2_loop h zero m = going m
allamem_2_loop h (suc n) m = push_back_2 (operator_new h m) >>= allamem_2_loop h n

-- The loops of `delemem` and `delemem_2`, over the vector.
unfoldable pub delemem_loop : List ℕ → Memory → Memory
delemem_loop [] m = m
delemem_loop (p ∷ ps) m = delemem_loop ps (operator_delete_array (some p) m)

unfoldable pub delemem_2_loop : List ℕ → Memory → Memory
delemem_2_loop [] m = m
delemem_2_loop (p ∷ ps) m = delemem_2_loop ps (operator_delete (some p) m)

-- 10000 in `allamem` and in `allamem_2`.
abbrev pub loops : ℕ
loops = 10000

unfoldable pub allamem : Heap → Memory → Progress
allamem h m = allamem_loop h loops m

unfoldable pub allamem_2 : Heap → Memory → Progress
allamem_2 h m = allamem_2_loop h loops m

-- The vector is walked and then cleared.
unfoldable pub delemem : Memory → Progress
delemem m = going (record (delemem_loop m.intmem m) { intmem = [] })

unfoldable pub delemem_2 : Memory → Progress
delemem_2 m = going (record (delemem_2_loop m.intmem_2 m) { intmem_2 = [] })

-- A round of `main`, and so many rounds.
unfoldable pub main_round : Heap → Memory → Progress
main_round h m = allamem h m >>= delemem_2 >>= allamem_2 h >>= delemem

unfoldable pub main : Heap → ℕ → Memory → Progress
main h zero m = going m
main h (suc n) m = main_round h m >>= main h n

abbrev pub at_start : Memory
at_start = record {
  garbage = [];
  garbage_count = 0;
  array_garbage = [];
  arr_garbage_count = 0;
  intmem = [];
  intmem_2 = [];
  mallocs = 0;
}
