-- ===== src/Dump/Consumer/Start.antt =====
-- The consumer at the head of its loop for the first time.
use testofdumping.Prelude.{
  ℕ, List, [], true, false, ◌≢◌, ◌⊎◌, inr, Bool-cases, ◌≡◌, refl, ap, ◌∙◌, inl, arith, some, none,
}
use testofdumping.Dump.Types.{
  Program, main_dump, main_icispcap, lat_dump, lat_src_dump, l2_main, Text, Settings, Env, Mbuf,
  next, exit, fault, null_name, ◌>>=◌, file_name_first, ready_suffix,
}
use testofdumping.Dump.Consumer.{
  Consumer, blank, with_file, open_then_clock, clock_then_open, open_first, alarm_routine,
  print_stats, replace, consumer, consumer_loop, no_name, with_name,
}
use testofdumping.Dump.Consumer.Files.{AllThere}
use testofdumping.Dump.Consumer.Limits.{Counted, Within}
use testofdumping.Dump.Consumer.Rotation.{Rotated}
use testofdumping.Dump.Consumer.Numbering.{numbered}
use testofdumping.Dump.Consumer.Names.{names}

-- One empty file, opened now.
abbrev pub fresh : Program → Text → ℕ → Consumer
fresh p base now = record blank {
  last_rotation = now;
  is_open = true;
  current = record {
    name = file_name_first p base now;
    replaced = false;
    since = now;
    entries = [];
  };
}

-- Where the clock and the file open, every program reaches its loop so.
pub open_first-fresh :
    (p : Program) (base : Text) (env : Env) (now : ℕ)
    → env.opened ≡ true
    → env.clock_ok ≡ true
    → open_first p base env now ≡ next (fresh p base now)
unfolding open_first open_then_clock clock_then_open with_file alarm_routine print_stats
    file_name_first replace
open_first-fresh main_dump base env now o k = simp (o, k)
open_first-fresh main_icispcap base env now o k = simp (o, k)
open_first-fresh lat_dump base env now o k = simp (o, k)
open_first-fresh lat_src_dump base env now o k = simp (o, k)
open_first-fresh l2_main base env now o k = simp (o, k)

pub consumer_lem :
    (p : Program) (set : Settings) (env : Env) (now : ℕ) (ms : List (Env × Mbuf)) (base : Text)
    → set.file_name ≡ some base
    → env.opened ≡ true
    → env.clock_ok ≡ true
    → consumer p set env now ms ≡ consumer_loop p set base ms (fresh p base now)
unfolding consumer with_name
consumer_lem p set env now ms base f o k =
    ap (λ n. with_name p env n (λ b. open_first p b env now >>= consumer_loop p set b ms)) f
    ∙ ap (λ s. s >>= consumer_loop p set base ms) (open_first-fresh p base env now o k)

module _ (p : Program) (set : Settings) (base : Text) (now : ℕ) where
  pub fresh-AllThere : AllThere (fresh p base now)
  fresh-AllThere = (refl, tt)

  pub fresh-Counted : Counted (fresh p base now)
  fresh-Counted = record { packets = refl; size = refl }

  pub fresh-Within : Within set (fresh p base now)
  fresh-Within = record { packets = ground arith; size = ground arith }

  pub fresh-Rotated : Rotated set (fresh p base now)
  fresh-Rotated = record { started = refl; count = refl; quota = inl refl; old = tt; new = tt }

  pub fresh-names : ready_suffix p ≡ none → names (fresh p base now) ≡ numbered base 0
  unfolding ready_suffix file_name_first
  fresh-names h = ground arith

-- Two of the programs read the clock first.
faults_or_ends :
    (p : Program) (env : Env)
    → (no_name p env ≡ fault null_name blank)
      ⊎ ((ready_suffix p ≢ none) × (env.clock_ok ≡ false) × (no_name p env ≡ exit 1 blank))
unfolding no_name ready_suffix
faults_or_ends main_dump env = inl refl
faults_or_ends main_icispcap env = inl refl
faults_or_ends l2_main env = inl refl
faults_or_ends lat_dump env = elim (Bool-cases env.clock_ok) [
  | inl clock ↦ inl (rw clock refl)
  | inr stopped ↦ inr (λ h. cc, stopped, rw stopped refl)
]
faults_or_ends lat_src_dump env = elim (Bool-cases env.clock_ok) [
  | inl clock ↦ inl (rw clock refl)
  | inr stopped ↦ inr (λ h. cc, stopped, rw stopped refl)
]

pub consumer-no_name :
    (p : Program) (set : Settings) (env : Env) (now : ℕ) (ms : List (Env × Mbuf))
    → set.file_name ≡ none
    → (consumer p set env now ms ≡ fault null_name blank)
      ⊎ ((ready_suffix p ≢ none)
          × (env.clock_ok ≡ false)
          × (consumer p set env now ms ≡ exit 1 blank))
unfolding consumer with_name
consumer-no_name p set env now ms e = elim (faults_or_ends p env) [
  | inl faults ↦ inl (run ∙ faults)
  | inr (clocked, stopped, ends) ↦ inr (clocked, stopped, run ∙ ends)
]
  where
    run : consumer p set env now ms ≡ no_name p env
    run = ap (λ n. with_name p env n (λ b. open_first p b env now >>= consumer_loop p set b ms)) e
