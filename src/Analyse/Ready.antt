-- ===== src/Analyse/Ready.antt =====
-- Which files the analysis takes, and which of the dumpers' files are among them.
use testofdumping.Prelude.{
  ℕ, ◌+◌, ◌-◌, ◌<◌, List, [], ◌∷◌, ◌++◌, Bool, true, false, ◌&&◌, ◌≡◌, ◌≢◌, ◌↔◌, refl, ap, sym, ◌∙◌,
  arith, length, drop, take, length-append, take-append-drop, drop-append, All, Bool-cases, inl,
  inr, text_eq, text_eq→eq, text_eq_refl,
}
use testofdumping.Dump.Types.{Text, codes, lat_dump, lat_src_dump, OutFile, Env, ready_suffix}
use testofdumping.Dump.Consumer.{Consumer, replace, close_file}
use testofdumping.Analyse.{pcap_file_end_str, is_pcapfile_ready, scan}

-- A name is ready exactly when it is longer than "ready.pcap" and ends with that.
pub is_pcapfile_ready_iff :
    (name : Text)
    → (is_pcapfile_ready name ≡ true)
      ↔ ((front : Text) × (0 < length front) × (name ≡ front ++ pcap_file_end_str))
unfolding is_pcapfile_ready
is_pcapfile_ready_iff name = (forth, back)
  where
    cut : ℕ
    cut = length name - 10

    forth :
        is_pcapfile_ready name ≡ true
        → (front : Text) × (0 < length front) × (name ≡ front ++ pcap_file_end_str)
    forth h =
        let long : 10 < length name = ground arith in
        let end : drop (length name - 10) name ≡ pcap_file_end_str =
          text_eq→eq _ _ (ground arith) in
        let whole : name ≡ take (length name - 10) name ++ pcap_file_end_str =
          sym (take-append-drop (length name - 10) name)
          ∙ ap (λ t. take (length name - 10) name ++ t) end in
        (
          take (length name - 10) name,
          omega (
            arith,
            long,
            ap length whole,
            length-append (take (length name - 10) name) pcap_file_end_str,
          ),
          whole,
        )

    back :
        (front : Text) × (0 < length front) × (name ≡ front ++ pcap_file_end_str)
        → is_pcapfile_ready name ≡ true
    back (front, pos, e) =
        let len : length name ≡ length front + 10 =
          ap length e ∙ length-append front pcap_file_end_str in
        let end : drop (length name - 10) name ≡ pcap_file_end_str =
          ap (λ t. drop (length name - 10) t) e
          ∙ drop-append front pcap_file_end_str (length name - 10) (omega (arith, len)) in
        ground
          (arith, len, ap (λ t. text_eq t pcap_file_end_str) end, text_eq_refl pcap_file_end_str)

-- The last byte.
abbrev last_of : Text → ℕ
last_of [] = 0
last_of (x ∷ []) = x
last_of (x ∷ y ∷ ys) = last_of (y ∷ ys)

last_of-append : (xs : Text) (y : ℕ) (ys : Text) → last_of (xs ++ y ∷ ys) ≡ last_of (y ∷ ys)
last_of-append [] y ys = refl
last_of-append (x ∷ []) y ys = refl
last_of-append (x ∷ x' ∷ xs) y ys = last_of-append (x' ∷ xs) y ys

-- What does not end in the letter p is not ready.
other_end : (name : Text) → last_of name ≢ b'p' → is_pcapfile_ready name ≡ false
other_end name ne = elim (Bool-cases (is_pcapfile_ready name)) [
  | inr differs ↦ differs
  | inl found ↦
      let (front, _, e) = (is_pcapfile_ready_iff name).0 found in
      absurd (ne (ap last_of e ∙ last_of-append front b'r' (codes "eady.pcap")))
]

-- What a pass over the directory takes is named so that no later pass takes it again.
pub scan_once :
    (entries : List (Text × Bool)) → All (λ name. is_pcapfile_ready name ≡ false) (scan entries)
unfolding scan
scan_once [] = tt
scan_once ((name, renamed) ∷ rest) = elim (Bool-cases (is_pcapfile_ready name && renamed)) [
  | inr skipped ↦ rw skipped (scan_once rest)
  | inl found ↦ rw found (
    other_end (name ++ codes ".taken") (λ e.
        let last : last_of (name ++ codes ".taken") ≡ b'n' =
          last_of-append name b'.' (codes "taken") in
        omega (arith, e, last)),
    scan_once rest,
  )
]

-- A capture file that src_lat/src/main_dump.c closes and renames, its name not empty, is ready for
-- the analysis. One that src_lat/main_dump.c closes and renames never is.
pub close_file_found :
    (env : Env) (c : Consumer)
    → env.renamed ≡ true
    → 0 < length c.current.name
    → ((f : OutFile) × ((close_file lat_src_dump env c).closed ≡ replace f.name c.closed ++ f ∷ [])
        × (is_pcapfile_ready f.name ≡ true))
      × ((f : OutFile) × ((close_file lat_dump env c).closed ≡ replace f.name c.closed ++ f ∷ [])
          × (is_pcapfile_ready f.name ≡ false))
unfolding close_file ready_suffix
close_file_found env c renamed pos = (
  (
    record (c.current) { name = c.current.name ++ codes "ready.pcap" },
    rw renamed refl,
    (is_pcapfile_ready_iff (c.current.name ++ codes "ready.pcap")).1 (c.current.name, pos, refl),
  ),
  (
    record (c.current) { name = c.current.name ++ codes "ready" },
    rw renamed refl,
    other_end (c.current.name ++ codes "ready") (λ e.
        let last : last_of (c.current.name ++ codes "ready") ≡ b'y' =
          last_of-append c.current.name b'r' (codes "eady") in
        omega (arith, e, last)),
  ),
)
