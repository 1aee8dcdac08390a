-- ===== src/Analyse/Reading/Accounted.antt =====
-- Where the packets of the files end up, with the threads of the files in any interleaving.
use testofdumping.Prelude.{ℕ, suc, ◌+◌, List, [], ◌∷◌, ◌≡◌, length}
use testofdumping.Dump.Types.{Text}
use testofdumping.Analyse.Display.{
  Printed, DisplayStats, Parsing, counted, rejected, deadlocked, parse_pkt,
}
use testofdumping.Analyse.Display.Events.{Event, parsed, file_end, handle_event}
use testofdumping.Analyse.Display.Nodes.{sum_of}
use testofdumping.Analyse.Reading.{Answers, Reading, going, read_pcap_file}

-- Two threads take turns; and the same for any number of them.
pub data Shuffle : List Event → List Event → List Event → Type 0 where
  none_left : Shuffle [] [] []
  from_left : {e : Event} {xs ys zs : List Event} → Shuffle xs ys zs → Shuffle (e ∷ xs) ys (e ∷ zs)
  from_right : {e : Event} {xs ys zs : List Event} → Shuffle xs ys zs → Shuffle xs (e ∷ ys) (e ∷ zs)

pub data Interleaves : List (List Event) → List Event → Type 0 where
  no_threads : Interleaves [] []
  one_more :
      {xs ys zs : List Event} {xss : List (List Event)}
      → Interleaves xss ys
      → Shuffle xs ys zs
      → Interleaves (xs ∷ xss) zs

-- A thread that has read its file to the end.
pub record Run : Type 0 where
  pub answers : Answers
  pub file_name : Text
  pub reading : Reading
  pub ended : read_pcap_file answers file_name ≡ going reading

abbrev pub packets_read : List Run → ℕ
packets_read = sum_of (λ r. length r.answers.reads)

abbrev pub printed_packets : List Printed → ℕ
printed_packets = sum_of (λ p. p.packets)

-- The packets for which ParsePkt returned -1.
abbrev is_rejected : Parsing → ℕ
is_rejected (counted b) = 0
is_rejected (rejected b) = 1
is_rejected (deadlocked b) = 0

abbrev pub rejections : List Event → DisplayStats → ℕ
rejections [] b = 0
rejections (parsed t ∷ es) b =
    is_rejected (parse_pkt t b) + rejections es (handle_event (parsed t) b)
rejections (file_end stat ∷ es) b = rejections es (handle_event (file_end stat) b)

abbrev shown_total : DisplayStats → ℕ
shown_total b = b.totalpkts + printed_packets b.printed

abbrev packets_in : List Event → ℕ
packets_in [] = 0
packets_in (parsed t ∷ es) = suc (packets_in es)
packets_in (file_end stat ∷ es) = packets_in es
