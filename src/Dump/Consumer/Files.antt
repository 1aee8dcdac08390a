-- ===== src/Dump/Consumer/Files.antt =====
-- The capture files that a consumer has made, and what they hold, seen from outside.
use testofdumping.Prelude.{
  List, [], ◌∷◌, ◌++◌, true, false, ℕ, ◌≡◌, refl, ap, sym, ◌∙◌, append-nil, append_assoc,
  if◌then◌else◌, All, ◌≢◌, suc, length, map, text_eq, text_eq→eq, Bool-cases, inl, inr,
}
use testofdumping.Dump.Types.{Program, Mbuf, Entry, OutFile, Env, Outcome, next, exit, fault, Text}
use testofdumping.Dump.Consumer.{Consumer, replace, close_file, with_file, entry_of, write}

-- All files, oldest first.
abbrev pub all_files : Consumer → List OutFile
all_files c = if c.is_open then c.closed ++ c.current ∷ [] else c.closed

abbrev pub entries_in : List OutFile → List Entry
entries_in [] = []
entries_in (f ∷ fs) = f.entries ++ entries_in fs

-- Everything written, in the order of writing.
abbrev pub written : Consumer → List Entry
written c = entries_in (all_files c)

-- The process goes on.
abbrev pub GoesOn {ℓ} : {S : Type ℓ} → Outcome S → Type 0
GoesOn (next s) = Unit
GoesOn (exit code s) = ⊥
GoesOn (fault why s) = ⊥

pub entries_in-append :
    (fs gs : List OutFile) → entries_in (fs ++ gs) ≡ entries_in fs ++ entries_in gs
entries_in-append [] gs = refl
entries_in-append (f ∷ fs) gs =
    ap (λ es. f.entries ++ es) (entries_in-append fs gs)
    ∙ sym (append_assoc f.entries (entries_in fs) (entries_in gs))

pub entries_in-snoc :
    (fs : List OutFile) (f : OutFile) → entries_in (fs ++ f ∷ []) ≡ entries_in fs ++ f.entries
entries_in-snoc fs f =
    entries_in-append fs (f ∷ []) ∙ ap (λ es. entries_in fs ++ es) (append-nil f.entries)

-- A file that is still there.
abbrev pub IsThere : OutFile → Type 0
IsThere f = f.replaced ≡ false

abbrev pub AllThere : Consumer → Type 0
AllThere c = All IsThere (all_files c)

-- What the files that are still there hold.
abbrev pub left_in : List OutFile → List Entry
left_in [] = []
left_in (f ∷ fs) = let rest = left_in fs in if f.replaced then rest else f.entries ++ rest

abbrev pub held : Consumer → List Entry
held c = left_in (all_files c)

left_in_lem : (fs : List OutFile) → All IsThere fs → left_in fs ≡ entries_in fs
left_in_lem [] t = refl
left_in_lem (f ∷ fs) t = rw t.0 (ap (λ es. f.entries ++ es) (left_in_lem fs t.1))

pub held_all : (c : Consumer) → AllThere c → held c ≡ written c
held_all c t = left_in_lem (all_files c) t

-- A file that is replaced keeps its name, and what was written to it was written.
pub entries_in-replace :
    (name : Text) (fs : List OutFile) → entries_in (replace name fs) ≡ entries_in fs
unfolding replace
entries_in-replace name [] = refl
entries_in-replace name (f ∷ fs) = ap (λ es. f.entries ++ es) (entries_in-replace name fs)

pub names-replace :
    (name : Text) (fs : List OutFile) → map (λ f. f.name) (replace name fs) ≡ map (λ f. f.name) fs
unfolding replace
names-replace name [] = refl
names-replace name (f ∷ fs) = ap (λ ns. f.name ∷ ns) (names-replace name fs)

pub length-replace : (name : Text) (fs : List OutFile) → length (replace name fs) ≡ length fs
unfolding replace
length-replace name [] = refl
length-replace name (f ∷ fs) = ap suc (length-replace name fs)

-- A name that no file has replaces none.
pub replace-IsThere :
    (name : Text) (fs : List OutFile)
    → All (λ x. x ≢ name) (map (λ f. f.name) fs)
    → All IsThere fs
    → All IsThere (replace name fs)
unfolding replace
replace-IsThere name [] apart t = tt
replace-IsThere name (f ∷ fs) apart t = (
  elim (Bool-cases (text_eq f.name name)) [
    | inl same ↦ absurd (apart.0 (text_eq→eq _ _ same))
    | inr other ↦ rw (t.0, other) refl
  ],
  replace-IsThere name fs apart.1 t.1,
)

-- Closing and renaming keeps what was written.
pub written-close_file :
    (p : Program) (env : Env) (c : Consumer)
    → c.is_open ≡ true
    → written (close_file p env c) ≡ written c
unfolding close_file
written-close_file p env c h = rw h (
    entries_in-snoc (replace _ c.closed) _
    ∙ ap (λ es. es ++ c.current.entries) (entries_in-replace _ c.closed)
    ∙ sym (entries_in-snoc c.closed c.current))

-- A write appends its entry.
pub written-write :
    (p : Program) (m : Mbuf) (c : Consumer)
    → c.is_open ≡ true
    → written (write p m c) ≡ written c ++ entry_of p m ∷ []
unfolding write
written-write p m c h = rw h (
    entries_in-snoc c.closed _
    ∙ sym (append_assoc (entries_in c.closed) c.current.entries (entry_of p m ∷ []))
    ∙ ap (λ es. es ++ entry_of p m ∷ []) (sym (entries_in-snoc c.closed c.current)))

-- So does opening the next file.
pub written-with_file :
    (name : Text) (since : ℕ) (c : Consumer)
    → c.is_open ≡ false
    → written (with_file name since c) ≡ written c
unfolding with_file
written-with_file name since c h =
    rw h
      (entries_in-snoc (replace name c.closed) _ ∙ append-nil _ ∙ entries_in-replace name c.closed)
