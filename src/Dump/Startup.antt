-- ===== src/Dump/Startup.antt =====
-- `PcapStartUp`, with which the reading thread of the four dumpers opens its interface.
pub mod Order
use testofdumping.Prelude.{
  ℕ, ◌%◌, ◌^◌, List, [], ◌∷◌, ◌++◌, Option, none, some, Bool, true, false, if◌then◌else◌,
}
use testofdumping.Prelude.Int.{ℤ, pos, ltb_ℤ}
use testofdumping.Dump.Types.{
  Program, main_dump, main_icispcap, lat_dump, lat_src_dump, l2_main, Text, Settings, Outcome, next,
  exit, fault, no_handle, ◌>>=◌,
}

-- A call of libpcap or of the system, with what the program gives it.
pub data PcapCall : Type 0 where
  pcap_create : Text → PcapCall
  pcap_set_snaplen : ℤ → PcapCall
  pcap_set_promisc : ℤ → PcapCall
  pcap_set_timeout : ℤ → PcapCall
  pcap_set_buffer_size : ℕ → PcapCall
  pcap_activate : PcapCall
  pcap_lookupnet : Text → PcapCall
  gethostname : PcapCall
  pcap_compile : Text → PcapCall
  pcap_setfilter : PcapCall

-- What the calls return that the program looks at.
pub record Answers : Type 0 where
  pub created : Bool  -- pcap_create is not NULL
  pub activate : ℤ
  pub lookupnet : ℤ
  pub hostname : ℤ
  pub compile : ℤ
  pub setfilter : ℤ

-- The milliseconds of `to_ms`.
unfoldable pub to_ms : Program → ℤ
to_ms lat_dump = pos 1
to_ms lat_src_dump = pos 1
to_ms _ = pos 10

-- src/ sets the size of the buffer only under `m_bflag`, which nothing sets. The argument is an
-- `int`: 32 bits of `m_buflen`.
unfoldable pub buffer_calls : Program → Settings → List PcapCall
buffer_calls lat_dump set = pcap_set_buffer_size (set.buflen % 2 ^ 32) ∷ []
buffer_calls lat_src_dump set = pcap_set_buffer_size (set.buflen % 2 ^ 32) ∷ []
buffer_calls _ set = []

-- The settings made before the interface is activated. What the calls return is only printed.
unfoldable pub configure_calls : Program → Settings → List PcapCall
configure_calls p set =
    pcap_set_snaplen set.snaplen
    ∷ pcap_set_promisc (pos 0)
    ∷ pcap_set_timeout (to_ms p)
    ∷ buffer_calls p set

-- `pcap_create`: a failure is printed, and the null handle is used all the same.
unfoldable pub create : Answers → Settings → List PcapCall → Outcome (List PcapCall)
create a set done =
    let called = done ++ pcap_create set.interface_name ∷ [] in
    if a.created then next called else fault no_handle called

unfoldable pub configure : Program → Settings → List PcapCall → Outcome (List PcapCall)
configure p set done = next (done ++ configure_calls p set)

-- A call whose negative result ends the process with a code.
unfoldable pub checked : PcapCall → ℤ → ℕ → List PcapCall → Outcome (List PcapCall)
checked call result code done =
    let called = done ++ call ∷ [] in if ltb_ℤ result (pos 0) then exit code called else next called

-- `PcapStartUp`, with the calls made so far.
unfoldable pub pcap_start_up : Program → Settings → Answers → Outcome (List PcapCall)
pcap_start_up p set a =
    create a set []
    >>= configure p set
    >>= checked pcap_activate a.activate 0
    >>= checked (pcap_lookupnet set.interface_name) a.lookupnet 3
    >>= checked gethostname a.hostname 4
    >>= checked (pcap_compile set.filter_str) a.compile 5
    >>= checked pcap_setfilter a.setfilter 6
