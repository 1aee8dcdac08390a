-- ===== src/Analyse/Display/Nodes.antt =====
-- The entries of the map: what an entry holds, from the packets that it was given, and which entry a
-- change reaches.
use testofdumping.Prelude.{
  ℕ, ◌+◌, ◌%◌, ◌^◌, List, [], ◌∷◌, ◌++◌, Option, none, some, true, false, ◌==◌, if◌then◌else◌, ◌≡◌,
  refl, ap, ◌∙◌, length, length-append, text_eq, text_eq→eq, text_eq_refl, arith, Option-cases, inl,
  inr,
}
use testofdumping.Dump.Types.{Text}
use testofdumping.Analyse.Display.{
  ethertype_ip, ethertype_ip6, TcpPacket, ProtocolTcp, DisplayStats, new_protocol, add_tcp, find,
  make_entry, get_proto_base, change, add_to_node,
}

-- A sum over packets.
abbrev pub sum_of {ℓ} : {A : Type ℓ} → (A → ℕ) → List A → ℕ
sum_of f [] = 0
sum_of f (k ∷ ks) = f k + sum_of f ks

pub sum_of-append {ℓ} :
    {A : Type ℓ} (f : A → ℕ) (ks : List A) (k : A) → sum_of f (ks ++ k ∷ []) ≡ sum_of f ks + f k
sum_of-append f [] k = omega arith
sum_of-append f (j ∷ ks) k = omega (arith, sum_of-append f ks k)

abbrev pub bytes : List TcpPacket → ℕ
bytes = sum_of (λ k. k.data_len)

abbrev pub bytes_down : List TcpPacket → ℕ
bytes_down = sum_of (λ k. if k.downlink then k.data_len else 0)

abbrev pub bytes_up : List TcpPacket → ℕ
bytes_up = sum_of (λ k. if k.downlink then 0 else k.data_len)

abbrev pub of_type : ℕ → List TcpPacket → ℕ
of_type ethertype = sum_of (λ k. if k.ether_type == ethertype then 1 else 0)

-- What the entry of a node has to hold after these packets.
abbrev pub summary : ℕ → ℕ → List TcpPacket → ProtocolTcp
summary start end ks = record {
  m_starttime = start;
  m_endtime = end;
  m_totalpkts = length ks % 2 ^ 64;
  m_totaldata = bytes ks % 2 ^ 64;
  m_totaluplink = bytes_up ks % 2 ^ 64;
  m_totaldownlink = bytes_down ks % 2 ^ 64;
  m_totalipv4 = of_type ethertype_ip ks % 2 ^ 32;
  m_totalip6 = of_type ethertype_ip6 ks % 2 ^ 32;
  m_pkt = ks;
}

pub new_protocol-summary : (start end : ℕ) → new_protocol start end ≡ summary start end []
unfolding new_protocol
new_protocol-summary start end = refl

-- The packet as `addPkt` keeps it.
abbrev pub kept : ℕ → TcpPacket → TcpPacket
kept direction k = record k { downlink = direction == 0 }

pub add_tcp-summary :
    (start end direction : ℕ) (k : TcpPacket) (ks : List TcpPacket)
    → add_tcp direction k (summary start end ks) ≡ summary start end (ks ++ kept direction k ∷ [])
unfolding add_tcp
add_tcp-summary start end direction k ks =
    let new = kept direction k in
    let n = length-append ks (new ∷ []) in
    let all = sum_of-append (λ k. k.data_len) ks new in
    let up = sum_of-append (λ k. if k.downlink then 0 else k.data_len) ks new in
    let down = sum_of-append (λ k. if k.downlink then k.data_len else 0) ks new in
    let v4 = sum_of-append (λ k. if k.ether_type == ethertype_ip then 1 else 0) ks new in
    let v6 = sum_of-append (λ k. if k.ether_type == ethertype_ip6 then 1 else 0) ks new in
    let e_n : (length ks % 2 ^ 64 + 1) % 2 ^ 64 ≡ length (ks ++ new ∷ []) % 2 ^ 64 =
      omega (arith, n) in
    let e_data : (bytes ks % 2 ^ 64 + k.data_len) % 2 ^ 64 ≡ bytes (ks ++ new ∷ []) % 2 ^ 64 =
      omega (arith, all) in
    let e_up : (if direction == 0
          then bytes_up ks % 2 ^ 64
          else (bytes_up ks % 2 ^ 64 + k.data_len) % 2 ^ 64)
        ≡ bytes_up (ks ++ new ∷ []) % 2 ^ 64 =
      ground (arith, up) in
    let e_down : (if direction == 0
          then (bytes_down ks % 2 ^ 64 + k.data_len) % 2 ^ 64
          else bytes_down ks % 2 ^ 64)
        ≡ bytes_down (ks ++ new ∷ []) % 2 ^ 64 =
      ground (arith, down) in
    let e_v4 : (if k.ether_type == ethertype_ip
          then (of_type ethertype_ip ks % 2 ^ 32 + 1) % 2 ^ 32
          else of_type ethertype_ip ks % 2 ^ 32)
        ≡ of_type ethertype_ip (ks ++ new ∷ []) % 2 ^ 32 =
      ground (arith, v4) in
    let e_v6 : (if k.ether_type == ethertype_ip
          then of_type ethertype_ip6 ks % 2 ^ 32
          else if k.ether_type == ethertype_ip6
          then (of_type ethertype_ip6 ks % 2 ^ 32 + 1) % 2 ^ 32
          else of_type ethertype_ip6 ks % 2 ^ 32)
        ≡ of_type ethertype_ip6 (ks ++ new ∷ []) % 2 ^ 32 =
      ground (arith, v6) in
    λ i. record {
      m_starttime = start;
      m_endtime = end;
      m_totalpkts = e_n i;
      m_totaldata = e_data i;
      m_totaluplink = e_up i;
      m_totaldownlink = e_down i;
      m_totalipv4 = e_v4 i;
      m_totalip6 = e_v6 i;
      m_pkt = ks ++ new ∷ [];
    }

-- A change reaches the entry of its node and no other.
pub find-change :
    (node : Text) (f : ProtocolTcp → ProtocolTcp) (d : List (Text × ProtocolTcp)) (p : ProtocolTcp)
    → find node d ≡ some p
    → find node (change node f d) ≡ some (f p)
unfolding find change
find-change node f [] p e = absurd (cc)
find-change node f ((name, q) ∷ rest) p e = ground (arith, find-change node f rest p)

pub find-change_other :
    (node other : Text) (f : ProtocolTcp → ProtocolTcp) (d : List (Text × ProtocolTcp))
    → text_eq node other ≡ false
    → find other (change node f d) ≡ find other d
unfolding find change
find-change_other node other f [] apart = refl
find-change_other node other f ((name, q) ∷ rest) apart =
    let one : text_eq name node ≡ true → text_eq name other ≡ text_eq node other =
      λ e. ap (λ t. text_eq t other) (text_eq→eq name node e) in
    ground (arith, one, find-change_other node other f rest apart)

find-append :
    (node other : Text) (q : ProtocolTcp) (d : List (Text × ProtocolTcp))
    → find node d ≡ none
    → find node (d ++ (node, q) ∷ []) ≡ some q
unfolding find
find-append node other q [] e = ground (arith, text_eq_refl node)
find-append node other q ((name, p) ∷ rest) e = ground (arith, find-append node other q rest)

find-append_other :
    (node other : Text) (q : ProtocolTcp) (d : List (Text × ProtocolTcp))
    → text_eq node other ≡ false
    → find other (d ++ (node, q) ∷ []) ≡ find other d
unfolding find
find-append_other node other q [] apart = ground (arith, apart)
find-append_other node other q ((name, p) ∷ rest) apart =
    ground (arith, find-append_other node other q rest apart)

-- The entry that a node has to have after these packets.
abbrev pub entry : ℕ → ℕ → List TcpPacket → Option ProtocolTcp
entry start end [] = none
entry start end (k ∷ ks) = some (summary start end (k ∷ ks))

module _ (node : Text) (b : DisplayStats) where
  -- getProtoBase finds the entry of the node, or makes a new one.
  get_proto_base-entry :
      (ks : List TcpPacket)
      → find node b.dashboard ≡ entry b.cur_int_starttime b.cur_int_endtime ks
      → find node ((get_proto_base node b).dashboard)
        ≡ some (summary b.cur_int_starttime b.cur_int_endtime ks)
  unfolding get_proto_base make_entry new_protocol
  get_proto_base-entry [] e = rw e (find-append node node _ b.dashboard e)
  get_proto_base-entry (k ∷ ks) e = rw e e

  get_proto_base-other :
      (other : Text)
      → text_eq node other ≡ false
      → find other ((get_proto_base node b).dashboard) ≡ find other b.dashboard
  unfolding get_proto_base make_entry new_protocol
  get_proto_base-other other apart = elim (Option-cases (find node b.dashboard)) [
    | inl e ↦ rw e (find-append_other node other _ b.dashboard apart)
    | inr (p, e) ↦ rw e
  ]

  -- The packet reaches the entry of its node,
  pub add_to_node-entry :
      (direction : ℕ) (k : TcpPacket) (ks : List TcpPacket)
      → find node b.dashboard ≡ entry b.cur_int_starttime b.cur_int_endtime ks
      → find node ((add_to_node node direction k b).dashboard)
        ≡ entry b.cur_int_starttime b.cur_int_endtime (ks ++ kept direction k ∷ [])
  unfolding add_to_node
  add_to_node-entry direction k ks e =
      find-change node (add_tcp direction k) ((get_proto_base node b).dashboard) _
        (get_proto_base-entry ks e)
      ∙ ap some (add_tcp-summary _ _ direction k ks)
      ∙ entry-some ks
    where
      entry-some :
          (ks : List TcpPacket)
          → some (summary b.cur_int_starttime b.cur_int_endtime (ks ++ kept direction k ∷ []))
            ≡ entry b.cur_int_starttime b.cur_int_endtime (ks ++ kept direction k ∷ [])
      entry-some [] = refl
      entry-some (j ∷ js) = refl

  -- and no other.
  pub add_to_node-other :
      (direction : ℕ) (k : TcpPacket) (other : Text)
      → text_eq node other ≡ false
      → find other ((add_to_node node direction k b).dashboard) ≡ find other b.dashboard
  unfolding add_to_node
  add_to_node-other direction k other apart =
      find-change_other node other (add_tcp direction k) ((get_proto_base node b).dashboard) apart
      ∙ get_proto_base-other other apart
