-- ===== src/Dump/Consumer/Whole.antt =====
-- Whole runs of the consumer, from the settings and an empty directory.
use testofdumping.Prelude.{
  ℕ, ◌≤◌, ◌<◌, List, true, ◌≡◌, refl, ◌⊎◌, ◌≢◌, ◌∙◌, inl, inr, Option-cases, some, none, length,
  take, All,
}
use testofdumping.Dump.Types.{Program, Text, Mbuf, Settings, Env, state, ready_suffix}
use testofdumping.Dump.Consumer.{consumer}
use testofdumping.Dump.Consumer.Files.{written, held, held_all, AllThere, GoesOn}
use testofdumping.Dump.Consumer.Written.{wanted, consumer_loop-WritesPrefix}
use testofdumping.Dump.Consumer.Limits.{IsSmall}
use testofdumping.Dump.Consumer.Runs.{
  IsShort, RunLimited, consumer_loop-RunLimited, packet_limit_stops,
}
use testofdumping.Dump.Consumer.Rotation.{Rotated, consumer_loop-Rotated}
use testofdumping.Dump.Consumer.Numbering.{Distinct, numbered}
use testofdumping.Dump.Consumer.Names.{names, consumer_loop-names}
use testofdumping.Dump.Consumer.Start.{
  consumer_lem, fresh, fresh-Counted, fresh-Within, fresh-Rotated, fresh-names, fresh-AllThere,
}

module _ (p : Program) (set : Settings) (env : Env) (now : ℕ) (ms : List (Env × Mbuf)) (base : Text)
    (named : set.file_name ≡ some base) (opened : env.opened ≡ true)
    (clock : env.clock_ok ≡ true) where
  -- In a program that renames no file, no file ever takes the place of another.
  run-AllThere : ready_suffix p ≡ none → AllThere (state (consumer p set env now ms))
  run-AllThere plain = rw (consumer_lem p set env now ms base named opened clock) (
      (consumer_loop-names p set base ms (fresh p base now) plain refl
        (fresh-names p set base now plain) (fresh-AllThere p set base now)).2)

  -- Where the file name is given and the first file and the clock are there: a run of the consumer
  -- over any packets, in any of the programs, writes exactly the entries of a first part of the
  -- packets, in order, none left out, repeated or changed by a rotation, a rename or the way out;
  -- and that part is the whole run unless the process has ended. In a program that renames no file,
  -- the files hold all of it, oldest file first: none has taken the place of another.
  pub consumer_writes_prefix :
      (n : ℕ) × (n ≤ length ms)
      × (written (state (consumer p set env now ms)) ≡ take n (wanted p ms))
      × ((n ≡ length ms) ⊎ (¬ GoesOn (consumer p set env now ms)))
      × ((held (state (consumer p set env now ms)) ≡ take n (wanted p ms))
          ⊎ (ready_suffix p ≢ none))
  consumer_writes_prefix =
      let (n, le, wrote, whole) : (n : ℕ) × (n ≤ length ms)
          × (written (state (consumer p set env now ms)) ≡ take n (wanted p ms))
          × ((n ≡ length ms) ⊎ (¬ GoesOn (consumer p set env now ms))) =
        rw (consumer_lem p set env now ms base named opened clock)
          (consumer_loop-WritesPrefix p set base ms (fresh p base now) refl) in
      (
        n,
        le,
        wrote,
        whole,
        elim (Option-cases (ready_suffix p)) [
          | inl plain ↦
              inl (held_all (state (consumer p set env now ms)) (run-AllThere plain) ∙ wrote)
          | inr (suffix, e) ↦ inr (λ h. cc)
        ],
      )

  -- Where the file name is given and the first file and the clock are there, with settings below
  -- 2^64 packets and 2^31 KB and data lengths of 16 bits: modulo 2^64, `nb_dumped_packets` is the
  -- number of packets written, and `sz_dumped_file` the bytes of their records, as pcap_dump writes
  -- them with headers of 16 bytes, and 8 more for each packet, over all files; no more than
  -- `max_packets` are written where that is set; and a process that goes on is, by these counts,
  -- below both limits that are set.
  pub consumer_within_limits :
      IsSmall set → All IsShort ms → RunLimited set (consumer p set env now ms)
  consumer_within_limits small short = rw (consumer_lem p set env now ms base named opened clock) (
      consumer_loop-RunLimited p set base ms (fresh p base now) small short refl
        (fresh-Counted p set base now) (fresh-Within p set base now))

  -- Where the file name is given and the first file and the clock are there, with settings below
  -- 2^64 packets and 2^31 KB and data lengths of 16 bits: where `max_packets` is set and the run
  -- has at least so many packets, the process ends.
  pub consumer_stops_at_limit :
      IsSmall set
      → All IsShort ms
      → 0 < set.max_packets
      → set.max_packets ≤ length ms
      → ¬ GoesOn (consumer p set env now ms)
  consumer_stops_at_limit small short pos enough =
      rw (consumer_lem p set env now ms base named opened clock) (
        packet_limit_stops p set base ms (fresh p base now) small short refl
          (fresh-Counted p set base now) (fresh-Within p set base now) pos enough)

  -- Where the file name is given, the first file and the clock are there and rotation is switched
  -- on: unless the process has ended, one file was finished for each rotation counted, files that
  -- were replaced since included, the count has not passed the limit on rotations, and every packet
  -- written to a file is at most `seconds_rotation` younger than the start of that file, times
  -- subtracted as `uint64_t`. In a program that renames no file, all these files are still there,
  -- however the run ends.
  pub consumer_rotates :
      0 < set.seconds_rotation
      → (Rotated set (state (consumer p set env now ms)) ⊎ (¬ GoesOn (consumer p set env now ms)))
        × (AllThere (state (consumer p set env now ms)) ⊎ (ready_suffix p ≢ none))
  consumer_rotates pos = (
    rw (consumer_lem p set env now ms base named opened clock)
        (consumer_loop-Rotated p set base ms (fresh p base now) pos (fresh-Rotated p set base now)),
    elim (Option-cases (ready_suffix p)) [
      | inl plain ↦ inl (run-AllThere plain)
      | inr (suffix, e) ↦ inr (λ h. cc)
    ],
  )

  -- In a program that renames no file, where the file name is given and the first file and the
  -- clock are there: however the run ends, the files are named by the plain name and then by that
  -- name with 1, 2, 3 and on behind it, and no two have the same name.
  pub consumer-names-Distinct :
      ready_suffix p ≡ none
      → let c' = state (consumer p set env now ms) in
        ((n : ℕ) × (names c' ≡ numbered base n)) × Distinct (names c')
  consumer-names-Distinct plain = rw (consumer_lem p set env now ms base named opened clock) (
      let run =
        consumer_loop-names p set base ms (fresh p base now) plain refl
          (fresh-names p set base now plain) (fresh-AllThere p set base now) in
      (run.0, run.1))
