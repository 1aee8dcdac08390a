-- ===== src/Analyse/Display/Minute.antt =====
-- What is computed from an entry: the bandwidth, and uplink and downlink.
use testofdumping.Prelude.{◌+◌, ◌*◌, ◌/◌, ◌%◌, ◌^◌, List, [], some, ◌≡◌, ◌≢◌, length}
use testofdumping.Analyse.Display.{TcpPacket, ProtocolTcp, band_width_calc}
use testofdumping.Analyse.Display.Nodes.{bytes}

-- What an entry has to satisfy for its packets.
abbrev pub HasMetrics : List TcpPacket → ProtocolTcp → Type 0
HasMetrics ks p =
    (band_width_calc p ≡ some (((bytes ks % 2 ^ 64 * 8) % 2 ^ 64 / 60) % 2 ^ 32))
    × ((p.m_totaluplink + p.m_totaldownlink) % 2 ^ 64 ≡ p.m_totaldata)
    × (p.m_totalpkts ≡ length ks % 2 ^ 64)
    × (ks ≢ [])
