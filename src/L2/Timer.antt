-- ===== src/L2/Timer.antt =====
-- Which periods -T accepts.
use testofdumping.Prelude.{ℕ, ◌*◌, ◌<◌, Bool, true, ◌≡◌, ◌↔◌, inl, inr, refl, arith, Bool-cases}
use testofdumping.Prelude.Int.{ℤ, pos, negsuc, ltb_ℤ}
use testofdumping.Dump.Types.{Text}
use testofdumping.L2.{
  IcisSettings, taken, is_number, to_s32, period_of, icis_parse_timer_period, set_timer,
  set_icis_option,
}

accepted_period :
    (n : ℤ) (s t : IcisSettings)
    → ltb_ℤ n (pos 86400) ≡ true
    → set_timer (period_of n) s ≡ taken t
    → (k : ℕ) × (k < 86400) × (n ≡ pos k) × (t ≡ record s { timer_period = pos (k * 2000000000) })
unfolding set_timer period_of
accepted_period (pos k) s t small e = (k, ground arith, refl, ground arith)
accepted_period (negsuc k) s t small e = absurd (ground arith)

module _ (strtoul : Text → ℕ → ℕ × Bool) (strtol : Text → ℕ → ℤ × Bool) (atoi atol : Text → ℤ) where
  -- For any conversions of numbers: -T accepts exactly the arguments that are not empty and are
  -- read to their end as a decimal number which, as an `int`, is at least 0 and below 86400; the
  -- period is then that number of seconds at 2 GHz. So 86400, the maximum that the usage text
  -- names, is not accepted.
  pub timer_accepts :
      (text : Text) (s t : IcisSettings)
      → (set_icis_option strtoul strtol atoi atol b'T' text s ≡ taken t) ↔ (
          (is_number text (strtol text 10).1 ≡ true)
          × (k : ℕ) × (k < 86400)
          × (to_s32 (strtol text 10).0 ≡ pos k)
          × (t ≡ record s { timer_period = pos (k * 2000000000) }))
  unfolding set_icis_option icis_parse_timer_period set_timer period_of
  timer_accepts text s t = (forth, back)
    where
      forth :
          set_icis_option strtoul strtol atoi atol b'T' text s ≡ taken t
          → (is_number text (strtol text 10).1 ≡ true)
            × (k : ℕ) × (k < 86400)
            × (to_s32 (strtol text 10).0 ≡ pos k)
            × (t ≡ record s { timer_period = pos (k * 2000000000) })
      forth e = elim (Bool-cases (is_number text (strtol text 10).1)) [
        | inr bad ↦ absurd (ground (arith, bad, e))
        | inl number ↦ elim (Bool-cases (ltb_ℤ (to_s32 (strtol text 10).0) (pos 86400))) [
          | inr big ↦ absurd (ground (arith, number, big, e))
          | inl small ↦
              let (k, lt, n, same) =
                accepted_period (to_s32 (strtol text 10).0) s t small (rw (number, small) at e) in
              (number, k, lt, n, same)
        ]
      ]

      back :
          (is_number text (strtol text 10).1 ≡ true)
            × (k : ℕ) × (k < 86400)
            × (to_s32 (strtol text 10).0 ≡ pos k)
            × (t ≡ record s { timer_period = pos (k * 2000000000) })
          → set_icis_option strtoul strtol atoi atol b'T' text s ≡ taken t
      back (number, k, lt, n, e) = ground (arith, number, lt, n, e)
