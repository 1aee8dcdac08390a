-- ===== src/L2/Links/Tests.antt =====
-- Links of which one comes up late.
use testofdumping.Prelude.{ℕ, [], ◌∷◌, Bool, ◌||◌, ltb, ◌==◌}
use testofdumping.L2.Links.{check_all_ports_link_status}
use testofdumping.L2.Links.Wait.{HasPrinted, link_status_printed}

abbrev late : ℕ → ℕ → Bool
late count portid = (portid == 0) || ltb 20 count

link_status_printed_example :
    HasPrinted late (0 ∷ 1 ∷ []) (check_all_ports_link_status late (0 ∷ 1 ∷ []))
link_status_printed_example = link_status_printed late (0 ∷ 1 ∷ [])
