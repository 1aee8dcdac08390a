-- ===== src/L2/Ports/Gather.antt =====
-- The port lists of the cores, one after the other.
use testofdumping.Prelude.{
  ℕ, zero, suc, ◌≤◌, ◌<◌, List, [], ◌∷◌, ◌++◌, ◌≡◌, refl, ap, sym, ◌∙◌, arith, append_assoc,
  append-nil,
}
use native.Mathlib.Decide.{ℕ_discrete}
use testofdumping.L2.Ports.{set_at}

-- The ports of the first n cores, core by core.
abbrev pub gather : ℕ → (ℕ → List ℕ) → List ℕ
gather zero f = []
gather (suc n) f = gather n f ++ f n

pub gather_apart :
    (n i : ℕ) (f : ℕ → List ℕ) (v : List ℕ) → n ≤ i → gather n (set_at f i v) ≡ gather n f
gather_apart zero i f v le = refl
gather_apart (suc n) i f v le =
    let other : set_at f i v n ≡ f n = ground arith in
    ap (λ l. l ++ set_at f i v n) (gather_apart n i f v (omega arith))
    ∙ ap (λ l. gather n f ++ l) other

-- A port given to the last core that has any comes last.
pub gather_give :
    (n i : ℕ) (f : ℕ → List ℕ) (x : ℕ)
    → i < n
    → ((k : ℕ) → i < k → f k ≡ [])
    → gather n (set_at f i (f i ++ x ∷ [])) ≡ gather n f ++ x ∷ []
gather_give zero i f x lt later = absurd (omega (arith, lt))
gather_give (suc n) i f x lt later = elim (ℕ_discrete i n) [
  | yes e ↦
      let here : set_at f i (f i ++ x ∷ []) n ≡ f n ++ x ∷ [] = ground arith in
      ap (λ l. l ++ set_at f i (f i ++ x ∷ []) n) (gather_apart n i f (f i ++ x ∷ []) (omega arith))
      ∙ ap (λ l. gather n f ++ l) here
      ∙ sym (append_assoc (gather n f) (f n) (x ∷ []))
  | no ne ↦
      let none_here : f n ≡ [] = later n (omega arith) in
      let same : set_at f i (f i ++ x ∷ []) n ≡ [] = ground (arith, none_here) in
      ap (λ l. l ++ set_at f i (f i ++ x ∷ []) n) (gather_give n i f x (omega arith) later)
      ∙ ap (λ l. (gather n f ++ x ∷ []) ++ l) same
      ∙ append-nil (gather n f ++ x ∷ [])
      ∙ ap (λ l. l ++ x ∷ []) (sym (append-nil (gather n f)))
      ∙ ap (λ l. (gather n f ++ l) ++ x ∷ []) (sym none_here)
]
