-- ===== src/Analyse/Tests.antt =====
-- Names at which the conditions of the theorems hold.
use testofdumping.Prelude.{[], ◌∷◌, ◌++◌, true, false, ◌≡◌, refl, arith}
use testofdumping.Prelude.Int.{pos}
use testofdumping.Dump.Types.{codes, lat_dump, lat_src_dump, OutFile, Env}
use testofdumping.Dump.Consumer.{Consumer, blank, replace, close_file}
use testofdumping.Analyse.{is_pcapfile_ready}
use testofdumping.Analyse.Ready.{close_file_found}

abbrev answers : Env
answers = record {
  clock_ok = true;
  linktype = pos 1;
  stats_ok = true;
  opened = true;
  renamed = true;
}

abbrev open_now : Consumer
open_now = record blank {
  is_open = true;
  current = record { name = codes "cap7"; replaced = false; since = 7; entries = [] };
}

close_file_found_example :
    ((f : OutFile) × ((close_file lat_src_dump answers open_now).closed
        ≡ replace f.name open_now.closed ++ f ∷ [])
      × (is_pcapfile_ready f.name ≡ true))
    × ((f : OutFile) × ((close_file lat_dump answers open_now).closed
          ≡ replace f.name open_now.closed ++ f ∷ [])
        × (is_pcapfile_ready f.name ≡ false))
close_file_found_example = close_file_found answers open_now refl (omega arith)
