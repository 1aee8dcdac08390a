-- ===== src/Icispcap/Writer.antt =====
-- PacketWriter.cc: the writing loop, the chunk, the flush and the files.
use testofdumping.Prelude.{
  ℕ, ◌+◌, ◌-◌, ◌/◌, ◌%◌, ◌^◌, List, [], ◌∷◌, ◌++◌, Option, none, some, Bool, ◌&&◌, ltb, leb, ◌==◌,
  if◌then◌else◌, take, length,
}
use testofdumping.Prelude.Decimal.{decimal}
use testofdumping.Dump.Types.{
  Text, codes, PcapHdr, Outcome, next, exit, fault, overrun_array, ◌>>=◌,
}
use testofdumping.Icispcap.Reader.{Captured}

-- CHUNKSIZE, and sizeof (struct pcktPLUSEpcaphd): 16 + 65535 bytes, aligned to 4.
abbrev pub chunksize : ℕ
chunksize = 102400

abbrev pub sizeof_captured : ℕ
sizeof_captured = 65552

-- The bytes of a little-endian word.
abbrev pub le32 : ℕ → List ℕ
le32 n = n % 256 ∷ n / 256 % 256 ∷ n / 65536 % 256 ∷ n / 16777216 % 256 ∷ []

abbrev pub le16 : ℕ → List ℕ
le16 n = n % 256 ∷ n / 256 % 256 ∷ []

-- `struct pcap_sf_pkthdr` in memory: 16 bytes.
unfoldable pub header_bytes : PcapHdr → List ℕ
header_bytes h = le32 h.tv_sec ++ le32 h.tv_usec ++ le32 h.caplen ++ le32 h.len

-- `struct pcap_file_header`.
pub record FileHeader : Type 0 where
  pub magic : ℕ
  pub version_major : ℕ
  pub version_minor : ℕ
  pub thiszone : ℕ
  pub sigfigs : ℕ
  pub snaplen : ℕ
  pub linktype : ℕ

-- The header that a file gets: the one fetched, or a canned one where its magic is wrong. The message
-- that is printed then, with a %s without an argument, is left out.
unfoldable pub fix_header : ℕ → FileHeader → FileHeader
fix_header snaplen h = if h.magic == 0xa1b2c3d4 then h else record {
  magic = 0xa1b2c3d4;
  version_major = 2;
  version_minor = 4;
  thiszone = 0;
  sigfigs = 0;
  snaplen = snaplen;
  linktype = 1;
}

unfoldable pub file_header_bytes : FileHeader → List ℕ
file_header_bytes h =
    le32 h.magic
    ++ le16 h.version_major
    ++ le16 h.version_minor
    ++ le32 h.thiszone
    ++ le32 h.sigfigs
    ++ le32 h.snaplen
    ++ le32 h.linktype

-- A file: its name, its header, and the bytes behind that.
pub record PcapFile : Type 0 where
  pub name : Text
  pub head : List ℕ
  pub body : List ℕ

-- The members of PacketWriter. `chunk` is the first `bufferLen` bytes of `tochunk`.
pub record Writer : Type 0 where
  pub chunk : List ℕ
  pub no_of_pkts : ℕ
  pub filename : Text
  pub filerotate : Bool
  pub interval : ℕ
  pub pretime : ℕ
  pub header : FileHeader
  pub current : Option PcapFile
  pub closed : List PcapFile

-- What one round of the loop meets: the queue's answer, the stop flag, the two readings of the
-- clock in nanoseconds, how much of n bytes `fwrite` writes, and whether `fopen` works.
pub record Round : Type 0 where
  pub got : Option Captured
  pub thread_stop : Bool
  pub current_time : ℕ
  pub reopen_time : ℕ
  pub fwrite : ℕ → ℕ
  pub opened : Bool
  pub errno : ℕ

-- `fclose`.
unfoldable pub close_current : Writer → Writer
close_current w = elim (w.current) [
  | none ↦ w
  | some f ↦ record w { current = none; closed = w.closed ++ f ∷ [] }
]

-- `createNewFile`. Bytes still in the chunk stay there. `snaplen` is the reader's.
unfoldable pub create_new_file : ℕ → Round → Writer → Outcome Writer
create_new_file snaplen r w =
    let w1 = close_current w in
    let w2 = record w1 { pretime = if w.filerotate then r.reopen_time else w.pretime } in
    let name : Text =
      if w.filerotate then w.filename ++ decimal r.reopen_time ++ codes ".pcap" else w.filename in
    let header = fix_header snaplen w.header in
    if r.opened
    then next (record w2 {
      header = header;
      current = some (record { name = name; head = file_header_bytes header; body = [] });
    })
    else exit r.errno w2

-- `FlushToFile`: what `fwrite` took goes to the file, and the chunk is empty.
unfoldable pub flush_to_file : Round → Writer → Writer
flush_to_file r w = elim (w.current) [
  | none ↦ w
  | some f ↦ record w {
    chunk = [];
    current = some (record f { body = f.body ++ take (r.fwrite (length w.chunk)) w.chunk });
  }
]

-- `memcpy` to `tochunk + bufferLen`; beyond the end of the array it is undefined.
unfoldable pub append_chunk : List ℕ → Writer → Outcome Writer
append_chunk bytes w =
    if leb (length w.chunk + length bytes) chunksize
    then next (record w { chunk = w.chunk ++ bytes })
    else fault overrun_array w

unfoldable pub flush_if_full : Round → Writer → Outcome Writer
flush_if_full r w =
    if ltb chunksize (length w.chunk + sizeof_captured) then next (flush_to_file r w) else next w

-- The branch for a packet.
unfoldable pub take_packet : Round → Captured → Writer → Outcome Writer
take_packet r c w =
    append_chunk (header_bytes c.sf_hdr) (record w { no_of_pkts = (w.no_of_pkts + 1) % 2 ^ 32 })
    >>= append_chunk (take c.sf_hdr.caplen c.pktdata)
    >>= flush_if_full r

-- `cleanup`, and the end of the thread.
unfoldable pub cleanup : Round → Writer → Writer
cleanup r w = close_current (flush_to_file r w)

unfoldable pub dequeue : Round → Option Captured → Writer → Outcome Writer
dequeue r (some c) w = take_packet r c w
dequeue r none w = if r.thread_stop then exit 0 (cleanup r w) else next w

-- The difference of the clock readings is compared as an unsigned number.
unfoldable pub rotate_file : ℕ → Round → Writer → Outcome Writer
rotate_file snaplen r w =
    if w.filerotate && ltb w.interval ((r.current_time + 2 ^ 64 - w.pretime) % 2 ^ 64)
    then create_new_file snaplen r w
    else next w

-- One round of the loop in `Writer_Run`.
unfoldable pub writer_step : ℕ → Round → Writer → Outcome Writer
writer_step snaplen r w = dequeue r r.got w >>= rotate_file snaplen r

unfoldable pub writer_loop : ℕ → List Round → Writer → Outcome Writer
writer_loop snaplen [] w = next w
writer_loop snaplen (r ∷ rs) w = writer_step snaplen r w >>= writer_loop snaplen rs

-- `Writer_Run`: the first file, then the loop.
unfoldable pub writer_run : ℕ → Round → List Round → Writer → Outcome Writer
writer_run snaplen first rs w = create_new_file snaplen first w >>= writer_loop snaplen rs
