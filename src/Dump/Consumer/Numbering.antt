-- ===== src/Dump/Consumer/Numbering.antt =====
-- Numbered file names, and that they differ.
use testofdumping.Prelude.{
  ℕ, zero, suc, ◌<◌, List, [], ◌∷◌, ◌++◌, ◌≡◌, ◌≢◌, ap, ◌∙◌, arith, length, All, append-cancel,
  append-nil,
}
use testofdumping.Prelude.Decimal.{decimal, decimal-injective, decimal-ne-nil}
use testofdumping.Dump.Types.{Text}

-- No two items are equal.
abbrev pub Distinct {ℓ} : {A : Type ℓ} → List A → Type ℓ
Distinct [] = Unit
Distinct (x ∷ xs) = All (λ y. x ≢ y) xs × Distinct xs

module _ {ℓ} {A : Type ℓ} where
  apart-snoc :
      (x : A) (xs : List A) (y : A) → All (λ z. x ≢ z) xs → x ≢ y → All (λ z. x ≢ z) (xs ++ y ∷ [])
  apart-snoc x [] y h e = (e, tt)
  apart-snoc x (z ∷ xs) y h e = (h.0, apart-snoc x xs y h.1 e)

  Distinct-snoc :
      (xs : List A) (y : A) → Distinct xs → All (λ x. x ≢ y) xs → Distinct (xs ++ y ∷ [])
  Distinct-snoc [] y d h = (tt, tt)
  Distinct-snoc (x ∷ xs) y d h = (apart-snoc x xs y d.0 h.0, Distinct-snoc xs y d.1 h.1)

  pub Distinct-last : (xs : List A) (y : A) → Distinct (xs ++ y ∷ []) → All (λ x. x ≢ y) xs
  Distinct-last [] y d = tt
  Distinct-last (x ∷ xs) y d = (last xs d.0, Distinct-last xs y d.1)
    where
      last : (zs : List A) → All (λ z. x ≢ z) (zs ++ y ∷ []) → x ≢ y
      last [] h = h.0
      last (z ∷ zs) h = last zs h.1

  All-snoc : (P : A → Type ℓ) (xs : List A) (y : A) → All P xs → P y → All P (xs ++ y ∷ [])
  All-snoc P [] y h q = (q, tt)
  All-snoc P (x ∷ xs) y h q = (h.0, All-snoc P xs y h.1 q)

-- The names after n rotations.
abbrev pub numbered : Text → ℕ → List Text
numbered base zero = base ∷ []
numbered base (suc n) = numbered base n ++ (base ++ decimal (suc n)) ∷ []

-- The bare name is none of the numbered ones.
base-ne : (base : Text) (n : ℕ) → base ≢ base ++ decimal n
base-ne base n e =
    let nil : [] ≡ decimal n = append-cancel base [] (decimal n) (append-nil base ∙ e) in
    absurd (omega (arith, decimal-ne-nil n, ap length nil))

pub numbered-fresh :
    (base : Text) (n m : ℕ) → n < m → All (λ x. x ≢ base ++ decimal m) (numbered base n)
numbered-fresh base zero m h = (base-ne base m, tt)
numbered-fresh base (suc n) m h =
    All-snoc (λ x. x ≢ base ++ decimal m) (numbered base n) _
      (numbered-fresh base n m (omega arith))
      (λ e.
        let same : suc n ≡ m = decimal-injective (suc n) m (append-cancel base _ _ e) in
        omega arith)

pub numbered-Distinct : (base : Text) (n : ℕ) → Distinct (numbered base n)
numbered-Distinct base zero = (tt, tt)
numbered-Distinct base (suc n) =
    Distinct-snoc (numbered base n) _ (numbered-Distinct base n)
      (numbered-fresh base n (suc n) (omega arith))
