-- ===== src/Icispcap/Reader.antt =====
-- PacketReader.cc: the reading loop and `WritePKTtoBuf`.
use testofdumping.Prelude.{
  Option, none, some, ℕ, zero, suc, ◌+◌, ◌-◌, ◌%◌, ◌^◌, List, [], ◌∷◌, ◌++◌, Bool, true, false, leb,
  if◌then◌else◌, take,
}
use testofdumping.Prelude.Int.{pos, eq_ℤ}
use testofdumping.Dump.Types.{PcapHdr, Env, Outcome, next, exit, fault, overrun_array, ◌>>=◌}

-- PRACTICAL_LEN.
abbrev pub practical_len : ℕ
practical_len = 65535

-- `struct pcktPLUSEpcaphd`: the header with 32-bit times, and an array of PRACTICAL_LEN bytes.
pub record Captured : Type 0 where
  pub sf_hdr : PcapHdr
  pub pktdata : List ℕ

unfoldable pub zeros : ℕ → List ℕ
zeros zero = []
zeros (suc n) = 0 ∷ zeros n

-- What `WritePKTtoBuf` hands to the queue: the times narrowed to 32 bits, the array cleared and
-- the captured bytes copied to its front.
unfoldable pub capture : PcapHdr → List ℕ → Captured
capture h bytes = record {
  sf_hdr = record h { tv_sec = h.tv_sec % 2 ^ 32; tv_usec = h.tv_usec % 2 ^ 32 };
  pktdata = take h.caplen bytes ++ zeros (practical_len - h.caplen);
}

-- The reader's count, and what it handed over, with what the queue refused left out.
pub record Reader : Type 0 where
  pub count_pkt : ℕ
  pub handed : List Captured
  pub refused : ℕ

-- `enqueued` is the queue's answer. The copy is not checked against the size of the array.
unfoldable pub write_pkt_to_buf : PcapHdr → List ℕ → Bool → Reader → Outcome Reader
write_pkt_to_buf h bytes enqueued s =
    let counted = record s { count_pkt = (s.count_pkt + 1) % 2 ^ 32 } in
    if leb h.caplen practical_len
    then if enqueued
      then next (record counted { handed = s.handed ++ capture h bytes ∷ [] })
      else next (record counted { refused = s.refused + 1 })
    else fault overrun_array counted

-- What one call of `pcap_next_ex` gives, with the queue's answer.
pub data Call : Type 0 where
  packet : PcapHdr → List ℕ → Bool → Call
  timeout read_error no_more : Call

-- `PrintStat`: an unknown link type and failing statistics end the process.
unfoldable pub print_stat : Env → Option ℕ
print_stat env =
    if eq_ℤ env.linktype (pos 0) then some 9 else if env.stats_ok then none else some 10

-- `cleanup`, and the end of the thread.
unfoldable pub reader_end : Env → Reader → Outcome Reader
reader_end env s = elim (print_stat env) [ none ↦ exit 0 s | some code ↦ exit code s ]

-- One round of the loop in `Reader_Run`, with the stop flag. `exit(-1)` ends with code 255.
unfoldable pub reader_step : Env → Bool → Call → Reader → Outcome Reader
reader_step env true call s = reader_end env s
reader_step env false (packet h bytes enqueued) s = write_pkt_to_buf h bytes enqueued s
reader_step env false read_error s = exit 255 s
reader_step env false _ s = next s

-- The loop, over the calls and the stop flag at each.
unfoldable pub reader_loop : Env → List (Bool × Call) → Reader → Outcome Reader
reader_loop env [] s = next s
reader_loop env ((stop, call) ∷ rest) s = reader_step env stop call s >>= reader_loop env rest
