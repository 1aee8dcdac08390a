-- ===== src/Dump/Consumer/Limits.antt =====
-- The counters against what was written, and the limits on packets and bytes that stop the consumer.
use testofdumping.Prelude.{
  ℕ, ◌+◌, ◌*◌, ◌%◌, ◌^◌, ◌≤◌, ◌<◌, List, [], ◌∷◌, ◌++◌, true, false, subst, ◌≡◌, refl, ap, sym, ◌∙◌,
  ◌⊎◌, inl, inr, arith, length, length-append,
}
use testofdumping.Dump.Types.{
  Program, Text, Mbuf, Entry, Settings, Env, Outcome, next, exit, fault, state, ◌>>=◌,
}
use testofdumping.Dump.Consumer.{
  Consumer, sizeof_hdr, entry_of, write, check_limits, sig_handler, sigint, consumer_step,
  size_reached, packets_reached,
}
use testofdumping.Dump.Consumer.Files.{written, GoesOn, written-write}
use testofdumping.Dump.Consumer.Written.{Kept, rotate_if_due-Kept, check_limits-Kept}

-- The bytes that the entries take in a file: pcap_dump writes a header of 16 bytes before each.
abbrev pub record_bytes : List Entry → ℕ
record_bytes [] = 0
record_bytes (e ∷ es) = 16 + e.hdr.caplen + record_bytes es

record_bytes-append :
    (xs ys : List Entry) → record_bytes (xs ++ ys) ≡ record_bytes xs + record_bytes ys
record_bytes-append [] ys = omega arith
record_bytes-append (x ∷ xs) ys = omega (arith, record_bytes-append xs ys)

-- What the code counts: 8 bytes more for each, as the size of its struct is 24.
abbrev pub total_size : List Entry → ℕ
total_size es = record_bytes es + 8 * length es

total_size-append : (xs ys : List Entry) → total_size (xs ++ ys) ≡ total_size xs + total_size ys
total_size-append xs ys = omega (arith, record_bytes-append xs ys, length-append xs ys)

-- The counters count what was written, as `uint64_t`.
pub record Counted (c : Consumer) : Type 0 where
  pub packets : c.nb_dumped_packets ≡ length (written c) % 2 ^ 64
  pub size : c.sz_dumped_file ≡ total_size (written c) % 2 ^ 64

Kept-Counted : (c : Consumer) (o : Outcome Consumer) → Kept c o → Counted c → Counted (state o)
Kept-Counted c o k n = record {
  packets = k.packets ∙ n.packets ∙ ap (λ es. length es % 2 ^ 64) (sym k.same);
  size = k.size ∙ n.size ∙ ap (λ es. total_size es % 2 ^ 64) (sym k.same);
}

write-Counted :
    (p : Program) (m : Mbuf) (c : Consumer) → c.is_open ≡ true → Counted c → Counted (write p m c)
unfolding write entry_of
write-Counted p m c h n = record {
  packets = omega (
    arith,
    n.packets,
    ap length (written-write p m c h),
    length-append (written c) (entry_of p m ∷ []),
  );
  size = omega (
    arith,
    n.size,
    ap total_size (written-write p m c h),
    total_size-append (written c) (entry_of p m ∷ []),
  );
}

written_size :
    (p : Program) (m : Mbuf) (c : Consumer)
    → c.is_open ≡ true
    → total_size (written (write p m c)) ≡ total_size (written c) + (m.data_len + sizeof_hdr)
unfolding entry_of
written_size p m c h = omega (
  arith,
  ap total_size (written-write p m c h),
  total_size-append (written c) (entry_of p m ∷ []),
)

write-open : (p : Program) (m : Mbuf) (c : Consumer) → (write p m c).is_open ≡ c.is_open
unfolding write
write-open p m c = refl

-- The limits as the settings mean them, 0 standing for none.
pub record Within (set : Settings) (c : Consumer) : Type 0 where
  pub packets : (set.max_packets ≡ 0) ⊎ (length (written c) < set.max_packets)
  pub size : (set.max_size ≡ 0) ⊎ (total_size (written c) < set.max_size * 1024)

-- The settings are small enough for the counters: `max_size` comes from a non-negative `int`.
pub record IsSmall (set : Settings) : Type 0 where
  pub packets : set.max_packets < 2 ^ 64
  pub size : set.max_size < 2 ^ 31

sig_handler_stops :
    (p : Program) (env : Env) (c : Consumer) → GoesOn (sig_handler p env sigint c) → ⊥
unfolding sig_handler
sig_handler_stops p env c g = ground arith

check_limits_passed :
    (p : Program) (set : Settings) (env : Env) (c : Consumer)
    → GoesOn (check_limits p set env c)
    → (state (check_limits p set env c) ≡ c)
      × (size_reached set c ≡ false)
      × (packets_reached set c ≡ false)
unfolding check_limits
check_limits_passed p set env c g = ground (arith, sig_handler_stops p env c)

-- Passing both tests means being within the limits, as no counter has wrapped.
passed-Within :
    (set : Settings) (c : Consumer)
    → IsSmall set
    → Counted c
    → (set.max_packets ≡ 0) ⊎ (length (written c) ≤ set.max_packets)
    → (set.max_size ≡ 0) ⊎ (total_size (written c) < set.max_size * 1024 + 2 ^ 17)
    → size_reached set c ≡ false
    → packets_reached set c ≡ false
    → Within set c
unfolding size_reached packets_reached
passed-Within set c small n np ns hs hp = record {
  packets = packets_side np hp;
  size = size_side ns hs;
}
  where
    packets_side :
        (set.max_packets ≡ 0) ⊎ (length (written c) ≤ set.max_packets)
        → packets_reached set c ≡ false
        → (set.max_packets ≡ 0) ⊎ (length (written c) < set.max_packets)
    packets_side (inl z) h = inl z
    packets_side (inr le) h = ground (arith, n.packets, small.packets)

    size_side :
        (set.max_size ≡ 0) ⊎ (total_size (written c) < set.max_size * 1024 + 2 ^ 17)
        → size_reached set c ≡ false
        → (set.max_size ≡ 0) ⊎ (total_size (written c) < set.max_size * 1024)
    size_side (inl z) h = inl z
    size_side (inr lt) h = ground (arith, n.size, small.size)

-- What a step does to the counts and the limits.
pub record Limited (set : Settings) (o : Outcome Consumer) : Type 0 where
  pub counted : Counted (state o)
  pub most : (set.max_packets ≡ 0) ⊎ (length (written (state o)) ≤ set.max_packets)
  pub within : GoesOn o → Within set (state o)
  pub still_open : GoesOn o → (state o).is_open ≡ true

Within-most :
    (set : Settings) (c c' : Consumer)
    → written c' ≡ written c
    → Within set c
    → (set.max_packets ≡ 0) ⊎ (length (written c') ≤ set.max_packets)
Within-most set c c' e w = elim (w.packets) [
  | inl z ↦ inl z
  | inr lt ↦ inr (omega (arith, ap length e))
]

module _ (p : Program) (set : Settings) (env : Env) (m : Mbuf) (small : IsSmall set) where
  write-Limited :
      (c : Consumer)
      → m.data_len < 2 ^ 16
      → c.is_open ≡ true
      → Counted c
      → Within set c
      → Limited set (check_limits p set env (write p m c))
  write-Limited c len h n w = record {
    counted = Kept-Counted _ _ k n';
    most = elim most' [ inl z ↦ inl z | inr le ↦ inr (omega (arith, ap length k.same)) ];
    within = λ g.
        let (same, s, q) = check_limits_passed p set env (write p m c) g in
        subst (Within set) (sym same) (passed-Within set (write p m c) small n' most' size' s q);
    still_open = k.still_open;
  }
    where
      open' : (write p m c).is_open ≡ true
      open' = write-open p m c ∙ h

      k : Kept (write p m c) (check_limits p set env (write p m c))
      k = check_limits-Kept p set env (write p m c) open'

      n' : Counted (write p m c)
      n' = write-Counted p m c h n

      grown : length (written (write p m c)) ≡ length (written c) + 1
      grown = ap length (written-write p m c h) ∙ length-append (written c) (entry_of p m ∷ [])

      most' : (set.max_packets ≡ 0) ⊎ (length (written (write p m c)) ≤ set.max_packets)
      most' = elim (w.packets) [ inl z ↦ inl z | inr lt ↦ inr (omega (arith, grown)) ]

      size' :
          (set.max_size ≡ 0) ⊎ (total_size (written (write p m c)) < set.max_size * 1024 + 2 ^ 17)
      size' = elim (w.size) [ inl z ↦ inl z | inr lt ↦ inr (omega (arith, written_size p m c h)) ]

  finish-Limited :
      (c : Consumer) (o : Outcome Consumer)
      → m.data_len < 2 ^ 16
      → Kept c o
      → Counted c
      → Within set c
      → Limited set (o >>= λ c'. check_limits p set env (write p m c'))
  finish-Limited c (next c') len k n w =
      write-Limited c' len (k.still_open tt) (Kept-Counted c (next c') k n)
        (record { packets = rw k.same (w.packets); size = rw k.same (w.size) })
  finish-Limited c (exit code c') len k n w = record {
    counted = Kept-Counted c (exit code c') k n;
    most = Within-most set c c' k.same w;
    within = λ g. absurd g;
    still_open = k.still_open;
  }
  finish-Limited c (fault why c') len k n w = record {
    counted = Kept-Counted c (fault why c') k n;
    most = Within-most set c c' k.same w;
    within = λ g. absurd g;
    still_open = k.still_open;
  }

  pub consumer_step-Limited :
      (base : Text) (c : Consumer)
      → m.data_len < 2 ^ 16
      → c.is_open ≡ true
      → Counted c
      → Within set c
      → Limited set (consumer_step p set base env m c)
  unfolding consumer_step
  consumer_step-Limited base c len h n w =
      finish-Limited c _ len (rotate_if_due-Kept p set base env m.tx_offload c h) n w
