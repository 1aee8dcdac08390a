-- ===== src/L2/Portmask.antt =====
-- What -p makes of an argument that is not a port mask.
use testofdumping.Prelude.{ℕ, Bool, false, ◌≡◌, ◌⊎◌, arith, length}
use testofdumping.Prelude.Int.{ℤ}
use testofdumping.Dump.Types.{Text}
use testofdumping.L2.{
  IcisSettings, taken, all_ports, is_number, icis_parse_portmask, set_portmask, set_icis_option,
}

-- No hexadecimal number that is not 0.
abbrev pub IsNoMask : (Text → ℕ → ℕ × Bool) → Text → Type 0
IsNoMask strtoul text =
    (length text ≡ 0) ⊎ ((strtoul text 16).1 ≡ false) ⊎ ((strtoul text 16).0 ≡ 0)

module _ (strtoul : Text → ℕ → ℕ × Bool) (strtol : Text → ℕ → ℤ × Bool) (atoi atol : Text → ℤ) where
  -- For any conversions of numbers: an argument of -p that is empty, that is not read to its end as
  -- a hexadecimal number, or that is 0 is not refused, but enables all 32 ports.
  pub no_mask_enables_all :
      (text : Text) (s : IcisSettings)
      → IsNoMask strtoul text
      → set_icis_option strtoul strtol atoi atol b'p' text s
        ≡ taken (record s { icis_enabled_port_mask = all_ports })
  unfolding set_icis_option icis_parse_portmask set_portmask is_number
  no_mask_enables_all text s bad = ground (arith, bad)
