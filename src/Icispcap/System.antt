-- ===== src/Icispcap/System.antt =====
-- The two threads of main.cc on their queue, an iteration of either at a time, and the handler that
-- stops them. The queue belongs to a library: what is taken from it is its front, and
-- `try_dequeue` fails where it is empty.
pub mod Invariant
pub mod Placed
pub mod Stopped
pub mod Finish
mod Tests
use testofdumping.Prelude.{
  ℕ, ◌^◌, ◌≤◌, ◌<◌, List, [], ◌∷◌, ◌++◌, Bool, true, false, ◌≡◌, none, some, if◌then◌else◌, length,
}
use testofdumping.Dump.Types.{PcapHdr, Env, next, exit}
use testofdumping.Icispcap.Reader.{Captured, capture, Reader, Call, packet, timeout, reader_step}
use testofdumping.Icispcap.Writer.{Writer, Round, writer_step}

-- What stays the same: the snapshot length that the interface was opened with, what libpcap says of
-- the link, and how much of n bytes the disk takes.
pub record Setup : Type 0 where
  pub snaplen : ℕ
  pub link : Env
  pub fwrite : ℕ → ℕ

-- Both objects, `buffer_`, the two flags `m_threadStop`, and whether a thread has ended. `reading`
-- is whether the reader has found its flag unset and waits in pcap_next_ex. For the statements:
-- `given`, the packets that the queue took, as libpcap gave them.
pub record System : Type 0 where
  pub reader : Reader
  pub buffer : List Captured
  pub writer : Writer
  pub reading : Bool
  pub reader_stop : Bool
  pub writer_stop : Bool
  pub reader_ended : Bool
  pub writer_ended : Bool
  pub given : List (PcapHdr × List ℕ)

-- What pcap_next_ex promises of a packet: no more bytes than the snapshot length, as many as its
-- header says, and lengths of 32 bits.
pub record IsGiven (k : Setup) (h : PcapHdr) (bytes : List ℕ) : Type 0 where
  pub short : h.caplen ≤ k.snaplen
  pub full : length bytes ≡ h.caplen
  pub word : h.len < 2 ^ 32

-- An iteration of a thread after which the process goes on, that of the reader in two parts, or a
-- line of the handler `cleanup`.
pub data Step (k : Setup) : System → System → Type 0 where
  read_begin :
      {s : System}
      → s.reader_ended ≡ false
      → s.reading ≡ false
      → s.reader_stop ≡ false
      → Step k s (record s { reading = true })
  read_packet :
      {s : System} (h : PcapHdr) (bytes : List ℕ) (enqueued : Bool) (r : Reader)
      → s.reading ≡ true
      → IsGiven k h bytes
      → reader_step k.link false (packet h bytes enqueued) s.reader ≡ next r
      → Step k s (record s {
        reader = r;
        reading = false;
        buffer = if enqueued then s.buffer ++ capture h bytes ∷ [] else s.buffer;
        given = if enqueued then s.given ++ (h, bytes) ∷ [] else s.given;
      })
  read_timeout :
      {s : System} (r : Reader)
      → s.reading ≡ true
      → reader_step k.link false timeout s.reader ≡ next r
      → Step k s (record s { reader = r; reading = false })
  read_end :
      {s : System} (call : Call) (r : Reader)
      → s.reader_ended ≡ false
      → s.reading ≡ false
      → s.reader_stop ≡ true
      → reader_step k.link true call s.reader ≡ exit 0 r
      → Step k s (record s { reader = r; reader_ended = true })
  write_packet :
      {s : System} (r : Round) (c : Captured) (rest : List Captured) (w : Writer)
      → s.writer_ended ≡ false
      → s.buffer ≡ c ∷ rest
      → writer_step k.snaplen
          (record r { got = some c; thread_stop = s.writer_stop; fwrite = k.fwrite })
          s.writer
        ≡ next w
      → Step k s (record s { buffer = rest; writer = w })
  write_idle :
      {s : System} (r : Round) (w : Writer)
      → s.writer_ended ≡ false
      → s.buffer ≡ []
      → writer_step k.snaplen
          (record r { got = none; thread_stop = s.writer_stop; fwrite = k.fwrite })
          s.writer
        ≡ next w
      → Step k s (record s { writer = w })
  write_end :
      {s : System} (r : Round) (w : Writer)
      → s.writer_ended ≡ false
      → s.buffer ≡ []
      → s.writer_stop ≡ true
      → writer_step k.snaplen
          (record r { got = none; thread_stop = s.writer_stop; fwrite = k.fwrite })
          s.writer
        ≡ exit 0 w
      → Step k s (record s { writer = w; writer_ended = true })
  stop_reader : {s : System} → Step k s (record s { reader_stop = true })
  stop_writer : {s : System} → s.reader_stop ≡ true → Step k s (record s { writer_stop = true })

-- From some state of the process.
pub data Reach (k : Setup) (s : System) : System → Type 0 where
  here : Reach k s s
  later : {t u : System} → Reach k s t → Step k t u → Reach k s u

-- The process once both threads run: nothing is read, and the writer has opened its first file.
abbrev pub at_start : Writer → System
at_start w = record {
  reader = record { count_pkt = 0; handed = []; refused = 0 };
  buffer = [];
  writer = w;
  reading = false;
  reader_stop = false;
  writer_stop = false;
  reader_ended = false;
  writer_ended = false;
  given = [];
}
