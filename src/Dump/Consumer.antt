-- ===== src/Dump/Consumer.antt =====
-- `main_loop_consumer` and `packet_consumer`: rotation, the write, the limits, and the way out
-- through `sig_handler`. The counters wrap as `uint64_t` does; `nb_rotations` counts rotations,
-- of which 2^63 would be needed to wrap it.
pub mod Files
pub mod Written
pub mod Limits
pub mod Runs
pub mod Rotation
pub mod Numbering
pub mod Names
pub mod Start
pub mod Whole
use testofdumping.Prelude.{
  ℕ, ◌+◌, ◌-◌, ◌*◌, ◌%◌, ◌^◌, List, [], ◌∷◌, ◌++◌, Option, none, some, Bool, true, false, ◌&&◌,
  ◌||◌, not, text_eq, ltb, leb, ◌==◌, if◌then◌else◌, take,
}
use testofdumping.Prelude.Int.{pos, negsuc, ltb_ℤ, eq_ℤ}
use testofdumping.Dump.Types.{
  Program, lat_dump, lat_src_dump, l2_main, Text, Mbuf, Entry, OutFile, Settings, Env, Outcome,
  next, exit, fault, null_name, no_handle, ◌>>=◌, ready_suffix, file_name_rotated, file_name_first,
}

-- The consumer's globals, with the files: `closed`, all that were finished, oldest first, also those
-- that are replaced, and `current`, which `pcap_file_p` writes to while `is_open`.
pub record Consumer : Type 0 where
  pub last_rotation : ℕ
  pub nb_rotations : ℕ
  pub nb_dumped_packets : ℕ
  pub sz_dumped_file : ℕ
  pub do_shutdown : Bool
  pub is_open : Bool
  pub current : OutFile
  pub closed : List OutFile

-- sizeof (struct pcap_pkthdr): two 8-byte fields and two of 4 bytes.
abbrev pub sizeof_hdr : ℕ
sizeof_hdr = 24

abbrev pub sigint : ℕ
sigint = 2

-- `print_stats`: an unknown link type and failing statistics end the process.
unfoldable pub print_stats : Program → Env → Option ℕ
print_stats l2_main env = none
print_stats _ env =
    if eq_ℤ env.linktype (pos 0) then some 9 else if env.stats_ok then none else some 10

-- A name that is given to another file takes the files away that had it.
unfoldable pub replace : Text → List OutFile → List OutFile
replace name [] = []
replace name (f ∷ fs) = record f { replaced = f.replaced || text_eq f.name name } ∷ replace name fs

-- `pcap_dump_close`, and in some programs the rename that follows.
unfoldable pub close_file : Program → Env → Consumer → Consumer
close_file p env c =
    let finished : Text = elim (ready_suffix p) [
      | none ↦ c.current.name
      | some suffix ↦ if env.renamed then c.current.name ++ suffix else c.current.name
    ] in
    record c {
      is_open = false;
      closed = replace finished c.closed ++ record (c.current) { name = finished } ∷ [];
    }

-- `sig_handler`, once PcapStartUp has its handle. Before the first file is open, NULL is closed.
unfoldable pub sig_handler : Program → Env → ℕ → Consumer → Outcome Consumer
sig_handler p env signo c =
    let stopping = record c { do_shutdown = true } in
    if signo == sigint
    then if env.clock_ok
      then elim (print_stats p env) [
        | none ↦
            if stopping.is_open
            then exit 0 (close_file p env stopping)
            else fault no_handle stopping
        | some code ↦ exit code stopping
      ]
      else exit 1 stopping
    else next c

-- `alarm_routine`.
unfoldable pub alarm_routine : Program → Env → Consumer → Outcome Consumer
alarm_routine p env c =
    if c.do_shutdown
    then next c
    else elim (print_stats p env) [ none ↦ next c | some code ↦ exit code c ]

-- The subtraction is one of `uint64_t`.
unfoldable pub rotation_due : Settings → Consumer → ℕ → Bool
rotation_due set c sec =
    ltb 0 set.seconds_rotation
    && ltb set.seconds_rotation ((sec + 2 ^ 64 - c.last_rotation) % 2 ^ 64)

unfoldable pub rotations_over : Settings → ℕ → Bool
rotations_over set n = not (eq_ℤ set.max_rotations (negsuc 0)) && ltb_ℤ set.max_rotations (pos n)

-- `pcap_dump_open` where it gives a file: a new one, or an old one of that name, truncated.
unfoldable pub with_file : Text → ℕ → Consumer → Consumer
with_file name since c = record c {
  is_open = true;
  closed = replace name c.closed;
  current = record { name = name; replaced = false; since = since; entries = [] };
}

-- The branch of the loop that rotates.
unfoldable pub rotate : Program → Settings → Text → Env → ℕ → Consumer → Outcome Consumer
rotate p set base env sec c =
    let c1 = record c { last_rotation = sec; nb_rotations = c.nb_rotations + 1 } in
    let c2 = close_file p env c1 in
    let name = file_name_rotated p base c1.nb_rotations sec in
    if rotations_over set c1.nb_rotations
    then sig_handler p env sigint c1
    else if env.opened
    then next (with_file name sec c2)
    else exit 1 c2

-- The header that is written, and with it the bytes.
unfoldable pub entry_of : Program → Mbuf → Entry
entry_of p m = record {
  hdr = record {
    tv_sec = m.tx_offload;
    tv_usec = m.udata64;
    caplen = m.data_len;
    len = elim p [ Program.main_icispcap ↦ m.data_len | _ ↦ m.pkt_len ];
  };
  bytes = take m.data_len m.payload;
}

-- `pcap_dump` and the counters.
unfoldable pub write : Program → Mbuf → Consumer → Consumer
write p m c = record c {
  current = record (c.current) { entries = c.current.entries ++ entry_of p m ∷ [] };
  nb_dumped_packets = (c.nb_dumped_packets + 1) % 2 ^ 64;
  sz_dumped_file = (c.sz_dumped_file + m.data_len + sizeof_hdr) % 2 ^ 64;
}

unfoldable pub size_reached : Settings → Consumer → Bool
size_reached set c = not (set.max_size == 0) && leb (set.max_size * 1024 % 2 ^ 64) c.sz_dumped_file

unfoldable pub packets_reached : Settings → Consumer → Bool
packets_reached set c = not (set.max_packets == 0) && leb set.max_packets c.nb_dumped_packets

-- The two limits, checked once the packet is written.
unfoldable pub check_limits : Program → Settings → Env → Consumer → Outcome Consumer
check_limits p set env c =
    if size_reached set c
    then sig_handler p env sigint c
    else if packets_reached set c
    then sig_handler p env sigint c
    else next c

unfoldable pub rotate_if_due : Program → Settings → Text → Env → ℕ → Consumer → Outcome Consumer
rotate_if_due p set base env sec c =
    if rotation_due set c sec then rotate p set base env sec c else next c

-- The body of the loop for a packet that was dequeued.
unfoldable pub consumer_step : Program → Settings → Text → Env → Mbuf → Consumer → Outcome Consumer
consumer_step p set base env m c =
    rotate_if_due p set base env m.tx_offload c >>= λ c'. check_limits p set env (write p m c')

-- The loop, over the packets that the ring delivers and the system's answers at each.
unfoldable pub consumer_loop :
    Program → Settings → Text → List (Env × Mbuf) → Consumer → Outcome Consumer
consumer_loop p set base [] c = next c
consumer_loop p set base ((env, m) ∷ ms) c =
    consumer_step p set base env m c >>= consumer_loop p set base ms

-- The globals before the consumer starts.
abbrev pub blank : Consumer
blank = record {
  last_rotation = 0;
  nb_rotations = 0;
  nb_dumped_packets = 0;
  sz_dumped_file = 0;
  do_shutdown = false;
  is_open = false;
  current = record { name = []; replaced = false; since = 0; entries = [] };
  closed = [];
}

-- Up to the loop in the programs that open the file before they read the clock. `since` is
-- filled in with the time that the clock then gives.
unfoldable pub open_then_clock : Text → Env → ℕ → Outcome Consumer
open_then_clock name env now =
    let opened = with_file name now blank in
    if env.opened
    then if env.clock_ok then next (record opened { last_rotation = now }) else exit 1 opened
    else exit 1 blank

-- Up to the loop in the programs that put the time into the first file's name.
unfoldable pub clock_then_open : Text → Env → ℕ → Outcome Consumer
clock_then_open name env now =
    let timed = record blank { last_rotation = now } in
    if env.clock_ok
    then if env.opened then next (with_file name now timed) else exit 1 timed
    else exit 1 blank

-- `main_loop_consumer` and `packet_consumer` up to the loop. The last program prints statistics
-- and sets its alarm first.
unfoldable pub open_first : Program → Text → Env → ℕ → Outcome Consumer
open_first p base env now =
    let name = file_name_first p base now in
    elim p [
      | Program.lat_dump ↦ clock_then_open name env now
      | Program.lat_src_dump ↦ clock_then_open name env now
      | l2_main ↦ open_then_clock name env now >>= alarm_routine l2_main env
      | _ ↦ open_then_clock name env now
    ]

-- A file name that was never given is a null pointer for `pcap_dump_open`, and for `sprintf`, which
-- two of the programs reach only once they have read the clock.
unfoldable pub no_name : Program → Env → Outcome Consumer
no_name lat_dump env = if env.clock_ok then fault null_name blank else exit 1 blank
no_name lat_src_dump env = if env.clock_ok then fault null_name blank else exit 1 blank
no_name _ env = fault null_name blank

unfoldable pub with_name :
    Program → Env → Option Text → (Text → Outcome Consumer) → Outcome Consumer
with_name p env none run = no_name p env
with_name p env (some base) run = run base

-- A whole run of the consumer.
unfoldable pub consumer : Program → Settings → Env → ℕ → List (Env × Mbuf) → Outcome Consumer
consumer p set env now ms =
    with_name p env set.file_name
      (λ base. open_first p base env now >>= consumer_loop p set base ms)
