-- ===== src/Analyse/Reading/Handles.antt =====
-- When the thread of a file uses only objects that are there, and what it has done then.
use testofdumping.Prelude.{
  ℕ, ◌+◌, ◌%◌, ◌^◌, List, [], ◌∷◌, ◌++◌, true, false, ◌&&◌, if◌then◌else◌, ◌≡◌, ◌↔◌, refl, ap, ap₂,
  subst, sym, ◌⊎◌, ◌∙◌, length, map, append_assoc, append-nil, arith, Bool-cases, inl, inr,
}
use testofdumping.Prelude.Int.{negsuc, eq_ℤ}
use testofdumping.Dump.Types.{Text, codes}
use testofdumping.Analyse.Display.{Traced}
use testofdumping.Analyse.Display.Events.{Event, parsed, file_end}
use testofdumping.Analyse.Reading.{
  dirpath, live, destroyed, Answers, Reading, Progress, going, misused, ◌>>=◌, is_live, with_trace,
  with_both, destroy_trace, destroy_packet, libtrace_cleanup, cleanup_if, create_packet,
  create_trace, start_trace, per_packet, read_loop, give_stats, complete, unread, read_pcap_file,
}

-- What the thread leaves when it ends.
abbrev pub read_all : Answers → Text → Reading
read_all a file_name = record {
  trace = if a.read_err then destroyed else live;
  packet = if a.read_err then destroyed else live;
  count = length a.reads % 2 ^ 64;
  events = map parsed a.reads ++ file_end a.stats ∷ [];
  name = if a.renamed then (dirpath ++ file_name) ++ codes ".completed" else dirpath ++ file_name;
}

read_loop-both :
    (ts : List Traced) (n : ℕ) (events : List Event) (name : Text)
    → read_loop ts
        (record { trace = live; packet = live; count = n % 2 ^ 64; events = events; name = name })
      ≡ going (record {
        trace = live;
        packet = live;
        count = (n + length ts) % 2 ^ 64;
        events = events ++ map parsed ts;
        name = name;
      })
unfolding read_loop with_both per_packet is_live
read_loop-both [] n events name =
    ap₂
      (λ c es. going (record { trace = live; packet = live; count = c; events = es; name = name }))
      (omega arith) (sym (append-nil events))
read_loop-both (t ∷ ts) n events name =
    ap
      (λ c. read_loop ts (record {
        trace = live;
        packet = live;
        count = c;
        events = events ++ parsed t ∷ [];
        name = name;
      }))
      (omega arith)
    ∙ read_loop-both ts (n + 1) (events ++ parsed t ∷ []) name
    ∙ ap₂
        (λ c es.
          going (record { trace = live; packet = live; count = c; events = es; name = name }))
        (omega arith) (append_assoc events (parsed t ∷ []) (map parsed ts))

abbrev IsMisused : Progress → Type 0
IsMisused (going r) = ⊥
IsMisused (misused r) = Unit

>>=-IsMisused : (o : Progress) (f : Reading → Progress) → IsMisused o → IsMisused (o >>= f)
>>=-IsMisused (going r) f h = absurd h
>>=-IsMisused (misused r) f h = tt

read_loop-IsMisused :
    (ts : List Traced) (r : Reading) → is_live r.packet ≡ false → IsMisused (read_loop ts r)
unfolding read_loop with_both
read_loop-IsMisused ts r gone =
    let unusable : (is_live r.trace && is_live r.packet) ≡ false = ground (arith, gone) in
    go ts unusable
  where
    go :
        (ts : List Traced)
        → (is_live r.trace && is_live r.packet) ≡ false
        → IsMisused (read_loop ts r)
    go [] unusable = rw unusable tt
    go (t ∷ ts) unusable = rw unusable tt

abbrev IsFine : Answers → Type 0
IsFine a = (a.packet_made ≡ true) × (a.create_err ≡ false) × (eq_ℤ a.start (negsuc 0) ≡ false)

read_pcap_file-fine :
    (a : Answers) (file_name : Text)
    → IsFine a
    → read_pcap_file a file_name ≡ going (read_all a file_name)
unfolding read_pcap_file create_packet create_trace start_trace give_stats complete with_trace
    cleanup_if libtrace_cleanup destroy_trace destroy_packet is_live
read_pcap_file-fine a file_name (made, opens, starts) =
    let loop : read_loop a.reads (record (unread file_name) { trace = live; packet = live })
        ≡ going (record {
          trace = live;
          packet = live;
          count = length a.reads % 2 ^ 64;
          events = map parsed a.reads;
          name = dirpath ++ file_name;
        }) =
      read_loop-both a.reads 0 [] (dirpath ++ file_name)
      ∙ ap
          (λ c. going (record {
            trace = live;
            packet = live;
            count = c;
            events = map parsed a.reads;
            name = dirpath ++ file_name;
          }))
          (omega arith) in
    elim (Bool-cases a.read_err) [
      | inl failed ↦ elim (Bool-cases a.renamed) [
        | inl renamed ↦ rw (made, opens, starts, loop, failed, renamed)
        | inr kept ↦ rw (made, opens, starts, loop, failed, kept)
      ]
      | inr whole ↦ elim (Bool-cases a.renamed) [
        | inl renamed ↦ rw (made, opens, starts, loop, whole, renamed)
        | inr kept ↦ rw (made, opens, starts, loop, whole, kept)
      ]
    ]

read_pcap_file-IsMisused :
    (a : Answers) (file_name : Text) → IsFine a ⊎ IsMisused (read_pcap_file a file_name)
unfolding read_pcap_file create_packet create_trace start_trace give_stats with_trace cleanup_if
    libtrace_cleanup destroy_trace destroy_packet is_live
read_pcap_file-IsMisused a file_name = elim (Bool-cases a.packet_made) [
  | inl made ↦ elim (Bool-cases a.create_err) [
    | inl err ↦ inr (rw (made, err) tt)
    | inr opens ↦ elim (Bool-cases (eq_ℤ a.start (negsuc 0))) [
      | inl fails ↦ inr (rw (made, opens, fails) (rest _ refl))
      | inr starts ↦ inl (made, opens, starts)
    ]
  ]
  | inr unmade ↦ elim (Bool-cases a.create_err) [
    | inl err ↦ inr (rw (unmade, err) tt)
    | inr opens ↦ elim (Bool-cases (eq_ℤ a.start (negsuc 0))) [
      | inl fails ↦ inr (rw (unmade, opens, fails) (rest _ refl))
      | inr starts ↦ inr (rw (unmade, opens, starts) (rest _ refl))
    ]
  ]
]
  where
    rest :
        (r : Reading)
        → is_live r.packet ≡ false
        → IsMisused (
            read_loop a.reads r
            >>= give_stats a.stats
            >>= with_trace (cleanup_if a.read_err)
            >>= complete a.renamed)
    rest r gone = >>=-IsMisused _ (complete a.renamed) (
        >>=-IsMisused _ (with_trace (cleanup_if a.read_err))
          (>>=-IsMisused _ (give_stats a.stats) (read_loop-IsMisused a.reads r gone)))

going-injective : {r s : Reading} → going r ≡ going s → r ≡ s
going-injective e = cc

-- The thread of a file uses only objects of libtrace that are there exactly where the packet is
-- created, the trace opens without an error and starts: it then parses all packets that are read,
-- in order, hands over the counts, and adds ".completed" to the name of the file where rename
-- works. Where no error ended the reading, it leaves both objects undestroyed.
pub read_pcap_file_iff :
    (a : Answers) (file_name : Text) (r : Reading)
    → (read_pcap_file a file_name ≡ going r) ↔ (
        (a.packet_made ≡ true)
        × (a.create_err ≡ false)
        × (eq_ℤ a.start (negsuc 0) ≡ false)
        × (r ≡ read_all a file_name))
read_pcap_file_iff a file_name r = elim (read_pcap_file-IsMisused a file_name) [
  | inl fine ↦
      let e = read_pcap_file-fine a file_name fine in
      (
        λ h. (fine.0, fine.1, fine.2, going-injective (sym h ∙ e)),
        λ (_, _, _, same). e ∙ ap going (sym same),
      )
  | inr off ↦ (
    λ h. absurd (subst IsMisused h off),
    λ (made, opens, starts, _).
        absurd (subst IsMisused (read_pcap_file-fine a file_name (made, opens, starts)) off),
  )
]
