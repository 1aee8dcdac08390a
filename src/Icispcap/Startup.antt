-- ===== src/Icispcap/Startup.antt =====
-- `PacketReader::PcapStartUp`, and the file header that the reading thread fetches before its loop.
pub mod Alike
use testofdumping.Prelude.{
  ℕ, ◌%◌, ◌^◌, List, [], ◌∷◌, ◌++◌, Option, none, some, Bool, true, false, if◌then◌else◌,
}
use testofdumping.Prelude.Int.{ℤ, pos, to_u64}
use testofdumping.Dump.Types.{Text, Outcome, next, fault, no_handle, ◌>>=◌}
use testofdumping.Dump.Startup.{
  PcapCall, pcap_create, pcap_set_snaplen, pcap_set_promisc, pcap_set_timeout, pcap_set_buffer_size,
  pcap_activate, pcap_lookupnet, gethostname, pcap_compile, pcap_setfilter, Answers, checked,
}
use testofdumping.Icispcap.Writer.{FileHeader}

-- The members of PacketReader that its options set.
pub record ReaderSettings : Type 0 where
  pub m_interfacename : Text
  pub fliterstr : Text
  pub snaplen : ℤ
  pub m_bflag : Bool
  pub m_buflen : ℕ

-- The settings before the activation, with `promisc` 1 and `to_ms` 10; the size of the buffer only
-- where an option gave one.
unfoldable pub configure_calls : ReaderSettings → List PcapCall
configure_calls s =
    pcap_set_snaplen s.snaplen
    ∷ pcap_set_promisc (pos 1)
    ∷ pcap_set_timeout (pos 10)
    ∷ (if s.m_bflag then pcap_set_buffer_size (s.m_buflen % 2 ^ 32) ∷ [] else [])

-- A failing `pcap_create` is printed, and the null handle is used.
unfoldable pub create : Answers → ReaderSettings → Outcome (List PcapCall)
create a s =
    let called = pcap_create s.m_interfacename ∷ [] in
    if a.created then next called else fault no_handle called

unfoldable pub configure : ReaderSettings → List PcapCall → Outcome (List PcapCall)
configure s done = next (done ++ configure_calls s)

-- `PcapStartUp`, with the calls made so far.
unfoldable pub pcap_start_up : ReaderSettings → Answers → Outcome (List PcapCall)
pcap_start_up s a =
    create a s
    >>= configure s
    >>= checked pcap_activate a.activate 0
    >>= checked (pcap_lookupnet s.m_interfacename) a.lookupnet 3
    >>= checked gethostname a.hostname 4
    >>= checked (pcap_compile s.fliterstr) a.compile 5
    >>= checked pcap_setfilter a.setfilter 6

-- `createPcapFheader`: what libpcap wrote to the temporary file, where it can be read; then the
-- snapshot length.
unfoldable pub create_pcap_fheader : ReaderSettings → Option FileHeader → FileHeader → FileHeader
create_pcap_fheader s none fileheader = record fileheader { snaplen = to_u64 s.snaplen % 2 ^ 32 }
create_pcap_fheader s (some read) fileheader = record read { snaplen = to_u64 s.snaplen % 2 ^ 32 }
