-- ===== src/Programs/Twins.antt =====
-- src_lat/main_dump.c and src_lat/src/main_dump.c: the two versions of packet_consumer.
use testofdumping.Prelude.{
  ℕ, ◌+◌, ◌%◌, ◌^◌, List, [], ◌∷◌, ◌++◌, Option, none, some, Bool, true, false, if◌then◌else◌, ◌≡◌,
  refl, ap, ap₂, sym, ◌∙◌, map, map-append,
}
use testofdumping.Dump.Types.{
  lat_dump, lat_src_dump, Mbuf, Entry, Text, OutFile, Env, no_handle, Outcome, next, exit, fault,
  ◌>>=◌,
}
use testofdumping.Dump.Consumer.{
  replace, Consumer, sigint, print_stats, close_file, sig_handler, entry_of, write,
}

-- A file without its name.
abbrev pub content_of : OutFile → ℕ × List Entry
content_of f = (f.since, f.entries)

-- The two are in the same state but for the names of their files.
pub record IsTwin (c d : Consumer) : Type 0 where
  pub last : c.last_rotation ≡ d.last_rotation
  pub rotations : c.nb_rotations ≡ d.nb_rotations
  pub dumped : c.nb_dumped_packets ≡ d.nb_dumped_packets
  pub size : c.sz_dumped_file ≡ d.sz_dumped_file
  pub shutdown : c.do_shutdown ≡ d.do_shutdown
  pub is_open : c.is_open ≡ d.is_open
  pub current : content_of c.current ≡ content_of d.current
  pub closed : map content_of c.closed ≡ map content_of d.closed

-- They end alike: both go on, end with the same code, or are undefined for the same reason.
abbrev pub AreTwins : Outcome Consumer → Outcome Consumer → Type 0
AreTwins (next c) (next d) = IsTwin c d
AreTwins (exit i c) (exit j d) = (i ≡ j) × IsTwin c d
AreTwins (fault x c) (fault y d) = (x ≡ y) × IsTwin c d
AreTwins (next c) (exit j d) = ⊥
AreTwins (next c) (fault y d) = ⊥
AreTwins (exit i c) (next d) = ⊥
AreTwins (exit i c) (fault y d) = ⊥
AreTwins (fault x c) (next d) = ⊥
AreTwins (fault x c) (exit j d) = ⊥

pub >>=-AreTwins :
    (o u : Outcome Consumer) (f g : Consumer → Outcome Consumer)
    → AreTwins o u
    → ((c d : Consumer) → IsTwin c d → AreTwins (f c) (g d))
    → AreTwins (o >>= f) (u >>= g)
>>=-AreTwins (next c) (next d) f g t k = k c d t
>>=-AreTwins (exit i c) (exit j d) f g t k = t
>>=-AreTwins (fault x c) (fault y d) f g t k = t
>>=-AreTwins (next c) (exit j d) f g t k = absurd t
>>=-AreTwins (next c) (fault y d) f g t k = absurd t
>>=-AreTwins (exit i c) (next d) f g t k = absurd t
>>=-AreTwins (exit i c) (fault y d) f g t k = absurd t
>>=-AreTwins (fault x c) (next d) f g t k = absurd t
>>=-AreTwins (fault x c) (exit j d) f g t k = absurd t

pub IsTwin-refl : (c : Consumer) → IsTwin c c
IsTwin-refl c = record {
  last = refl;
  rotations = refl;
  dumped = refl;
  size = refl;
  shutdown = refl;
  is_open = refl;
  current = refl;
  closed = refl;
}

-- A file that is replaced keeps its entries and its start.
pub content-replace :
    (name : Text) (fs : List OutFile) → map content_of (replace name fs) ≡ map content_of fs
unfolding replace
content-replace name [] = refl
content-replace name (f ∷ fs) = ap (λ cs. content_of f ∷ cs) (content-replace name fs)

pub close_file-IsTwin :
    (env : Env) (c d : Consumer)
    → IsTwin c d
    → IsTwin (close_file lat_dump env c) (close_file lat_src_dump env d)
unfolding close_file
close_file-IsTwin env c d t = record {
  last = t.last;
  rotations = t.rotations;
  dumped = t.dumped;
  size = t.size;
  shutdown = t.shutdown;
  is_open = refl;
  current = t.current;
  closed =
      map-append content_of (replace _ c.closed) _
      ∙ ap₂ (λ x y. x ++ y ∷ [])
          (content-replace _ c.closed ∙ t.closed ∙ sym (content-replace _ d.closed)) t.current
      ∙ sym (map-append content_of (replace _ d.closed) _);
}

pub sig_handler-AreTwins :
    (env : Env) (c d : Consumer)
    → IsTwin c d
    → AreTwins (sig_handler lat_dump env sigint c) (sig_handler lat_src_dump env sigint d)
unfolding sig_handler print_stats
sig_handler-AreTwins env c d t =
    go env.clock_ok (print_stats lat_dump env) c.is_open d.is_open t.is_open
  where
    both : IsTwin (record c { do_shutdown = true }) (record d { do_shutdown = true })
    both = record {
      last = t.last;
      rotations = t.rotations;
      dumped = t.dumped;
      size = t.size;
      shutdown = refl;
      is_open = t.is_open;
      current = t.current;
      closed = t.closed;
    }

    go :
        (b : Bool) (o : Option ℕ) (x y : Bool)
        → x ≡ y
        → AreTwins
            (if b
              then elim o [
                | none ↦
                    if x
                    then exit 0 (close_file lat_dump env (record c { do_shutdown = true }))
                    else fault no_handle (record c { do_shutdown = true })
                | some code ↦ exit code (record c { do_shutdown = true })
              ]
              else exit 1 (record c { do_shutdown = true }))
            (if b
              then elim o [
                | none ↦
                    if y
                    then exit 0 (close_file lat_src_dump env (record d { do_shutdown = true }))
                    else fault no_handle (record d { do_shutdown = true })
                | some code ↦ exit code (record d { do_shutdown = true })
              ]
              else exit 1 (record d { do_shutdown = true }))
    go true none true true e = (refl, close_file-IsTwin env _ _ both)
    go true none true false e = cc e
    go true none false true e = cc e
    go true none false false e = (refl, both)
    go true (some code) x y e = (refl, both)
    go false o x y e = (refl, both)

pub write-IsTwin :
    (m : Mbuf) (c d : Consumer) → IsTwin c d → IsTwin (write lat_dump m c) (write lat_src_dump m d)
unfolding write entry_of
write-IsTwin m c d t = record {
  last = t.last;
  rotations = t.rotations;
  dumped = ap (λ x. (x + 1) % 2 ^ 64) t.dumped;
  size = ap (λ x. (x + m.data_len + 24) % 2 ^ 64) t.size;
  shutdown = t.shutdown;
  is_open = t.is_open;
  current = ap (λ x. (x.0, x.1 ++ entry_of lat_dump m ∷ [])) t.current;
  closed = t.closed;
}
