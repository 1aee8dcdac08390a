-- ===== src/Analyse.antt =====
-- ANALYSEPCAP/main.cpp: the search of the directory for finished capture files.
pub mod Ready
pub mod Display
pub mod Threads
pub mod Reading
mod Tests
use testofdumping.Prelude.{
  ℕ, ◌-◌, List, [], ◌∷◌, ◌++◌, Bool, true, false, ◌&&◌, ltb, if◌then◌else◌, length, drop, text_eq,
}
use testofdumping.Dump.Types.{Text, codes}

-- `pcapFileEndStr`.
abbrev pub pcap_file_end_str : Text
pcap_file_end_str = codes "ready.pcap"

-- `isPcapfileReady`.
unfoldable pub is_pcapfile_ready : Text → Bool
is_pcapfile_ready name =
    if ltb (length pcap_file_end_str) (length name)
    then text_eq (drop (length name - length pcap_file_end_str) name) pcap_file_end_str
    else false

-- One pass over the directory: the files that `filesList` gets. Beside each name stands whether
-- the rename works.
unfoldable pub scan : List (Text × Bool) → List Text
scan [] = []
scan ((name, renamed) ∷ rest) =
    let others = scan rest in
    if is_pcapfile_ready name && renamed then (name ++ codes ".taken") ∷ others else others
