-- ===== src/Dump/Types.antt =====
-- What the dumpers of src/src and src/src_lat share: packets, buffers, files, settings and the
-- points where the five programs differ.
use Prim.Native.Char.{code}
use Prim.Native.String.{String}
use testofdumping.Prelude.{ℕ, List, [], ◌∷◌, ◌++◌, Option, none, some, Bool}
use testofdumping.Prelude.Int.{ℤ}
use testofdumping.Prelude.Decimal.{decimal}

-- src/main_dump.c, src/main_icispcap.c, src_lat/main_dump.c, src_lat/src/main_dump.c and
-- src_lat/09Feb2016ICIS_pcap/main.c.
pub data Program : Type 0 where
  main_dump main_icispcap lat_dump lat_src_dump l2_main : Program

-- A text is the list of its bytes.
abbrev pub Text : Type 0
Text = List ℕ

abbrev pub codes : String → Text
codes String.[] = []
codes (String.◌∷◌ c s) = code c ∷ codes s

-- `struct pcap_pkthdr`: seconds and microseconds are 64-bit patterns, the lengths 32-bit ones.
pub record PcapHdr : Type 0 where
  pub tv_sec : ℕ
  pub tv_usec : ℕ
  pub caplen : ℕ
  pub len : ℕ

-- The fields of `struct rte_mbuf` that the programs use; `payload` is the data behind it.
pub record Mbuf : Type 0 where
  pub tx_offload : ℕ
  pub udata64 : ℕ
  pub data_len : ℕ
  pub pkt_len : ℕ
  pub payload : List ℕ

-- What `pcap_dump` appends to a file: the header and the bytes.
pub record Entry : Type 0 where
  pub hdr : PcapHdr
  pub bytes : List ℕ

-- A capture file. `since` is the value of `last_rotation` when it was opened; `replaced`, whether a
-- later file of its name has taken its place, by an opening, which truncates, or by a rename.
pub record OutFile : Type 0 where
  pub name : Text
  pub replaced : Bool
  pub since : ℕ
  pub entries : List Entry

-- The globals that the command line sets.
pub record Settings : Type 0 where
  pub file_name : Option Text
  pub max_packets : ℕ
  pub buffer_size : ℕ
  pub seconds_rotation : ℕ
  pub max_rotations : ℤ
  pub max_size : ℕ
  pub snaplen : ℤ
  pub interface_name : Text
  pub filter_str : Text
  pub buflen : ℕ

-- What the system answers while one packet is handled.
pub record Env : Type 0 where
  pub clock_ok : Bool  -- gettimeofday returns 0
  pub linktype : ℤ  -- pcap_datalink
  pub stats_ok : Bool  -- pcap_stats returns 0
  pub opened : Bool  -- pcap_dump_open is not NULL
  pub renamed : Bool  -- rename returns 0

-- Why a run is undefined behaviour: a header pointer that was never set, a buffer that is NULL, a
-- file name that was never given, an argument or a packet longer than the array it is copied to, a
-- handle that is NULL.
pub data Fault : Type 0 where
  unset_header no_buffer null_name overrun_array no_handle : Fault

-- A step goes on, ends the process with a code, or is undefined behaviour.
pub data Outcome {ℓ} (S : Type ℓ) : Type ℓ where
  next : S → Outcome S
  exit : ℕ → S → Outcome S
  fault : Fault → S → Outcome S

infixl 5 ◌>>=◌
abbrev pub ◌>>=◌ {ℓ} : {S : Type ℓ} → Outcome S → (S → Outcome S) → Outcome S
next s >>= f = f s
exit code s >>= f = exit code s
fault why s >>= f = fault why s

-- The state in which a step leaves the process.
abbrev pub state {ℓ} : {S : Type ℓ} → Outcome S → S
state (next s) = s
state (exit code s) = s
state (fault why s) = s

-- What a finished file is renamed to carry at its end, in the programs that rename.
unfoldable pub ready_suffix : Program → Option Text
ready_suffix lat_dump = some (codes "ready")
ready_suffix lat_src_dump = some (codes "ready.pcap")
ready_suffix _ = none

-- The name of the file that a rotation opens: a counter, or the time in seconds, behind the name.
unfoldable pub file_name_rotated : Program → Text → ℕ → ℕ → Text
file_name_rotated lat_dump base rotations last = base ++ decimal last
file_name_rotated lat_src_dump base rotations last = base ++ decimal last
file_name_rotated _ base rotations last = base ++ decimal rotations

-- The name of the first file.
unfoldable pub file_name_first : Program → Text → ℕ → Text
file_name_first lat_dump base last = base ++ decimal last
file_name_first lat_src_dump base last = base ++ decimal last
file_name_first _ base last = base
