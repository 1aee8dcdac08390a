-- ===== src/Analyse/Display/Shown.antt =====
-- The display follows the window of the packets.
use testofdumping.Prelude.{ℕ, List, false, ◌≡◌, Option-cases, inl, inr}
use testofdumping.Dump.Types.{Text}
use testofdumping.Analyse.Display.{
  TcpPacket, ProtocolTcp, DisplayStats, find, add_to_node, get_proto_base, make_entry,
}
use testofdumping.Analyse.Display.Events.{Event, parsed, file_end}
use testofdumping.Analyse.Display.Window.{Window}

-- Of the display, only the map changes.
abbrev rest_of : DisplayStats → List (Text × ProtocolTcp) → DisplayStats
rest_of b d = record b { dashboard = d }

pub add_to_node-rest :
    (node : Text) (direction : ℕ) (k : TcpPacket) (b : DisplayStats)
    → add_to_node node direction k b ≡ rest_of b ((add_to_node node direction k b).dashboard)
unfolding add_to_node get_proto_base make_entry
add_to_node-rest node direction k b = elim (Option-cases (find node b.dashboard)) [
  | inl e ↦ rw e
  | inr (p, e) ↦ rw e
]

abbrev pub Returns : Event → Type 0
Returns (parsed t) = t.falls_off ≡ false
Returns (file_end stat) = Unit
