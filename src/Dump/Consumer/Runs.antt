-- ===== src/Dump/Consumer/Runs.antt =====
-- The counters and limits over a whole run, and that a packet limit ends it.
use testofdumping.Prelude.{
  ◌+◌, ◌≤◌, ◌<◌, ◌^◌, List, [], ◌∷◌, true, ◌≡◌, ap, ◌⊎◌, inl, inr, arith, length, All, take,
  length-append, length-take,
}
use testofdumping.Dump.Types.{
  Program, Text, Mbuf, Settings, Env, Outcome, next, exit, fault, state, ◌>>=◌,
}
use testofdumping.Dump.Consumer.{Consumer, consumer_loop}
use testofdumping.Dump.Consumer.Files.{written, GoesOn}
use testofdumping.Dump.Consumer.Written.{
  WritesPrefix, wanted, length-wanted, consumer_loop-WritesPrefix,
}
use testofdumping.Dump.Consumer.Limits.{Counted, Within, IsSmall, Limited, consumer_step-Limited}

-- The data length is a `uint16_t`.
abbrev pub IsShort : Env × Mbuf → Type 0
IsShort x = x.1.data_len < 2 ^ 16

-- The counters count what the files hold, no more packets are written than the limit allows, and a
-- process that goes on is within both limits.
abbrev pub RunLimited : Settings → Outcome Consumer → Type 0
RunLimited set o =
    Counted (state o)
    × ((set.max_packets ≡ 0) ⊎ (length (written (state o)) ≤ set.max_packets))
    × (Within set (state o) ⊎ (¬ GoesOn o))

module _ (p : Program) (set : Settings) (base : Text) where
  after-RunLimited :
      (ms : List (Env × Mbuf)) (o : Outcome Consumer)
      → Limited set o
      → ((c' : Consumer)
          → c'.is_open ≡ true
          → Counted c'
          → Within set c'
          → RunLimited set (consumer_loop p set base ms c'))
      → RunLimited set (o >>= consumer_loop p set base ms)
  after-RunLimited ms (next c') l ih = ih c' (l.still_open tt) l.counted (l.within tt)
  after-RunLimited ms (exit code c') l ih = (l.counted, l.most, inr (λ x. x))
  after-RunLimited ms (fault why c') l ih = (l.counted, l.most, inr (λ x. x))

  -- Over any run of packets whose data lengths are 16-bit, from an open consumer whose counters
  -- count what it has written and which is within the limits (settings below 2^64 packets and 2^31
  -- KB): the counters still count that modulo 2^64, at most `max_packets` packets are written where
  -- that limit is set, and a consumer that goes on is below both limits that are set.
  pub consumer_loop-RunLimited :
      (ms : List (Env × Mbuf)) (c : Consumer)
      → IsSmall set
      → All IsShort ms
      → c.is_open ≡ true
      → Counted c
      → Within set c
      → RunLimited set (consumer_loop p set base ms c)
  unfolding consumer_loop
  consumer_loop-RunLimited [] c small short h n w =
      (n, elim (w.packets) [ inl z ↦ inl z | inr lt ↦ inr (omega arith) ], inl w)
  consumer_loop-RunLimited ((env, m) ∷ ms) c small short h n w =
      after-RunLimited ms _ (consumer_step-Limited p set env m small base c short.0 h n w)
        (λ c' h' n' w'. consumer_loop-RunLimited ms c' small short.1 h' n' w')

  -- With a limit of `max_packets` packets, a run of at least so many packets that starts under the
  -- limit, from a consumer as above, never leaves the consumer waiting for more: it ends the process.
  pub packet_limit_stops :
      (ms : List (Env × Mbuf)) (c : Consumer)
      → IsSmall set
      → All IsShort ms
      → c.is_open ≡ true
      → Counted c
      → Within set c
      → 0 < set.max_packets
      → set.max_packets ≤ length ms
      → ¬ GoesOn (consumer_loop p set base ms c)
  packet_limit_stops ms c small short h n w pos enough = elim (run.2) [
    | inr stop ↦ stop
    | inl below ↦ λ g. elim (below.packets) [
      | inl z ↦ omega arith
      | inr lt ↦ elim (all.3) [ inr stop ↦ stop g | inl e ↦ omega (arith, filled e) ]
    ]
  ]
    where
      run : RunLimited set (consumer_loop p set base ms c)
      run = consumer_loop-RunLimited ms c small short h n w

      all : WritesPrefix p ms c (consumer_loop p set base ms c)
      all = consumer_loop-WritesPrefix p set base ms c h

      filled :
          all.0 ≡ length ms
          → length (written (state (consumer_loop p set base ms c)))
            ≡ length (written c) + length ms
      filled e = omega (
        arith,
        ap length all.2,
        length-append (written c) (take all.0 (wanted p ms)),
        length-take all.0 (wanted p ms),
        length-wanted p ms,
      )
