-- ===== src/Dump/System.antt =====
-- The two threads on their ring, one iteration of either at a time, and the pool of buffers.
pub mod Buffers
pub mod Held
pub mod Drains
use testofdumping.Prelude.{
  ℕ, ◌+◌, ◌-◌, ◌≤◌, ◌<◌, List, [], ◌∷◌, ◌++◌, Bool, true, ◌≡◌, none, some, length,
}
use testofdumping.Dump.Types.{Program, Text, Mbuf, Settings, Env, next}
use testofdumping.Dump.Consumer.{Consumer, consumer_step}
use testofdumping.Dump.Producer.{Producer, Read, producer_step}

-- What the start of the program fixes: the pool's buffers and their data room, and how many
-- buffers the ring takes.
pub record Setup : Type 0 where
  pub program : Program
  pub settings : Settings
  pub base : Text
  pub room : ℕ
  pub pool : ℕ
  pub ring_cap : ℕ

-- Both threads, the ring, and the number of buffers in the pool. For the statements: `queued`, all
-- that was put on the ring, and `lost`, all that the ring refused.
pub record System : Type 0 where
  pub prod : Producer
  pub ring : List Mbuf
  pub free : ℕ
  pub cons : Consumer
  pub queued : List Mbuf
  pub lost : List Mbuf

-- An iteration of either thread after which its process goes on, and in which no copy overruns its
-- buffer. The result of
-- `rte_ring_enqueue` is not looked at, so that a refused buffer is neither queued nor freed.
pub data Step (k : Setup) : System → System → Type 0 where
  read_none :
      {s : System} (r : Read) (got : Bool) (q : Producer)
      → producer_step k.program k.room got r s.prod ≡ next (q, none)
      → Step k s (record s { prod = q })
  read_queued :
      {s : System} (r : Read) (q : Producer) (m : Mbuf)
      → producer_step k.program k.room true r s.prod ≡ next (q, some m)
      → 0 < s.free
      → length s.ring < k.ring_cap
      → Step k s (record s {
        prod = q;
        ring = s.ring ++ m ∷ [];
        free = s.free - 1;
        queued = s.queued ++ m ∷ [];
      })
  read_refused :
      {s : System} (r : Read) (q : Producer) (m : Mbuf)
      → producer_step k.program k.room true r s.prod ≡ next (q, some m)
      → 0 < s.free
      → k.ring_cap ≤ length s.ring
      → Step k s (record s { prod = q; free = s.free - 1; lost = s.lost ++ m ∷ [] })
  written_out :
      {s : System} (env : Env) (m : Mbuf) (rest : List Mbuf) (c : Consumer)
      → s.ring ≡ m ∷ rest
      → consumer_step k.program k.settings k.base env m s.cons ≡ next c
      → Step k s (record s { ring = rest; cons = c; free = s.free + 1 })

-- From a start with an open consumer that has written nothing, a full pool and an empty ring.
pub data Reach (k : Setup) (c : Consumer) : System → Type 0 where
  start : Reach k c (record {
    prod = record { hdr = none; nb_captured_packets = 0 };
    ring = [];
    free = k.pool;
    cons = c;
    queued = [];
    lost = [];
  })
  later : {s t : System} → Reach k c s → Step k s t → Reach k c t
