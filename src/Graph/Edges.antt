-- ===== src/Graph/Edges.antt =====
-- `build` of src/aisb/insights/graph.py: the edges are the connections there are.
use aisb.Prelude.{
  ℕ, ◌+◌, String, ◌≡◌, refl, sym, ap, ◌∙◌, Bool, true, false, not, ◌&&◌, Option, none, some, List,
  [], ◌∷◌, ◌==◌, Dict, get, arith, eqb, eqb_iff, eq_iff, Bool-cases, inl, inr, if◌then◌else◌,
}
use aisb.Prelude.Results.{Result, ok}
use aisb.Graph.{
  Sock, Node, Key, same_key, Place, edge, client, outgoing, ignored, Counters, place_in, Error,
  listens_on, established, peer_listens, unless_edge, named_peer, listens_of, place_by, place_of,
  count_socks, count_nodes,
}
use aisb.Graph.Counts.{total, total-counted}

abbrev is_peer : Option String → String → Bool
is_peer none b = false
is_peer (some p) b = p == b

abbrev edge_count : Key → Place → ℕ
edge_count k (edge j) = if same_key j k then 1 else 0
edge_count k _ = 0

uncounted : (k x y : Key) (b : Bool) → edge_count k (if b then client x else outgoing y) ≡ 0
uncounted k x y true = refl
uncounted k x y false = refl

never : (b : Bool) → ◌≡◌ {A = ℕ} (if b && false then 1 else 0) 0
never true = refl
never false = refl

-- no container is its own peer
own_peer :
    (q name a b : String) (port listening : Bool)
    → q == name ≡ true
    → ◌≡◌ {A = ℕ} 0
        (if name == a && (q == b && (port && (not (a == b) && listening))) then 1 else 0)
own_peer q name a b port listening h =
    ground (arith, eq_iff q name, eq_iff name a, eq_iff q b, eq_iff a b)

talking :
    (from to port same found listening : Bool)
    → (from ≡ true → to ≡ true → same ≡ false)
    → (to ≡ true → port ≡ true → listening ≡ found)
    → (found && (from && to && port)) ≡ (from && (to && (port && (not same && listening))))
talking from to port same found listening h g = ground (arith, h, g)

other_peer :
    (q name a b : String) → q == name ≡ false → name == a ≡ true → q == b ≡ true → a == b ≡ false
other_peer q name a b h f g = ground (arith, eq_iff q name, eq_iff name a, eq_iff q b, eq_iff a b)

edge_if :
    (k : Key) (n : Node) (s : Sock) (q : String) (yes : Bool)
    → edge_count k (unless_edge n s (some q) yes)
      ≡ (if yes && same_key (n.name, q, s.remote.1) k then 1 else 0)
unfolding unless_edge
edge_if k n s q true = refl
edge_if k n s q false = refl

abbrev is_listening : Option Node → ℕ → Bool
is_listening none p = false
is_listening (some m) p = listens_on m p

abbrev one_if : Bool → ℕ
one_if b = if b then 1 else 0

module _ (is_loopback : String → Bool) (nodes : Dict Node) (owner : Dict String) where
  unfoldable listens_at : String → ℕ → Bool
  unfolding get listens_on
  listens_at b p = is_listening (get nodes b) p

  -- A socket of `n` is a connection to the port of a key: it is established, not over the loopback
  -- device, to an address of the other container, which listens on the port.
  is_talk : Key → Node → Sock → Bool
  unfolding get listens_at
  is_talk (a, b, p) n s =
      n.name == a
      && (s.state == established
          && (not (is_loopback s.remote.0)
              && (is_peer (named_peer (get owner s.remote.0)) b
                  && (eqb s.remote.1 p && (not (a == b) && listens_at b p)))))

  talks_of : Key → Node → List Sock → ℕ
  unfolding is_talk
  talks_of k n [] = 0
  talks_of k n (s ∷ socks) = (if is_talk k n s then 1 else 0) + talks_of k n socks

  -- how many sockets of the nodes are connections of a key
  unfoldable pub talks : Key → List Node → ℕ
  unfolding talks_of
  talks k [] = 0
  talks k (n ∷ ns) = talks_of k n n.socks + talks k ns

  -- Where an address is that of a peer, there is a node of that name.
  abbrev pub AreKnown : Type 0
  unfolding get
  AreKnown = (ip p : String) → get owner ip ≡ some p → (m : Node) × (get nodes p ≡ some m)

  -- A socket is placed, and counted for a key exactly if it is such a connection.
  abbrev Placed : Node → Sock → Type 0
  unfolding place_of is_talk
  Placed n s =
      (place : Place) × (place_of is_loopback nodes owner n s ≡ ok place)
      × ((k : Key) → edge_count k place ≡ (if is_talk k n s then 1 else 0))

  listens_same :
      (q b : String) (port p : ℕ) {m : Node}
      → get nodes q ≡ some m
      → q == b ≡ true
      → eqb port p ≡ true
      → listens_at b p ≡ listens_on m port
  unfolding listens_at
  listens_same q b port p found e f =
      rw (sym ((eq_iff q b).0 e), sym ((eqb_iff port p).0 f), found) refl

  by_peer :
      (n : Node) (s : Sock) (peer : Option String)
      → ((p : String) → peer ≡ some p → (m : Node) × (get nodes p ≡ some m))
      → (place : Place) × (place_by is_loopback nodes owner n s peer ≡ ok place)
        × ((k : Key)
            → edge_count k place ≡ (
                if n.name == k.0
                  && (is_peer peer k.1
                      && (eqb s.remote.1 k.2 && (not (k.0 == k.1) && listens_at k.1 k.2)))
                then 1
                else 0))
  unfolding place_by listens_at get unless_edge peer_listens listens_of
  by_peer n s none h = (
    unless_edge n s none false,
    refl,
    λ k.
        uncounted k (s.remote.0, n.name, s.local.1) (n.name, s.remote.0, s.remote.1)
          (listens_on n s.local.1)
        ∙ sym (never (n.name == k.0)),
  )
  by_peer n s (some q) h = elim (Bool-cases (q == n.name)) [
    | inl e ↦ (
      ignored,
      rw e refl,
      λ k. own_peer q n.name k.0 k.1 (eqb s.remote.1 k.2) (listens_at k.1 k.2) e,
    )
    | inr e ↦
        let (m, found) = h q refl in
        let yes = listens_on m s.remote.1 in
        (
          unless_edge n s (some q) yes,
          rw (e, found) refl,
          λ k.
              edge_if k n s q yes
              ∙ ap one_if (
                  talking (n.name == k.0) (q == k.1) (eqb s.remote.1 k.2) (k.0 == k.1) yes
                    (listens_at k.1 k.2) (other_peer q n.name k.0 k.1 e)
                    (listens_same q k.1 s.remote.1 k.2 found)),
        )
  ]

  -- Where an address has an owner, there is a node of that name.
  AreKnown-named_peer :
      AreKnown
      → (ip p : String) → named_peer (get owner ip) ≡ some p
      → (m : Node) × (get nodes p ≡ some m)
  unfolding AreKnown
  AreKnown-named_peer h ip p e = h ip p (whole (get owner ip) e)
    where
      whole : (o : Option String) → named_peer o ≡ some p → o ≡ some p
      whole none e = cc
      whole (some q) e = elim (Bool-cases (q == "")) [
        | inl f ↦ absurd (nothing (rw f at e))
        | inr f ↦ rw f at e
      ]
        where
          nothing : {x : String} → none ≡ some x → ⊥
          nothing h = cc

  place_of-Placed : (n : Node) (s : Sock) → AreKnown → Placed n s
  unfolding place_of is_talk Placed
  place_of-Placed n s h = elim (Bool-cases (s.state == established)) [
    | inr e ↦ (ignored, rw e refl, λ k. rw e (sym (never (n.name == k.0))))
    | inl e ↦ elim (Bool-cases (is_loopback s.remote.0)) [
      | inl f ↦ (ignored, rw (e, f) refl, λ k. rw (e, f) (sym (never (n.name == k.0))))
      | inr f ↦
          let found =
            by_peer n s (named_peer (get owner s.remote.0)) (AreKnown-named_peer h s.remote.0) in
          (found.0, rw (e, f) found.1, λ k. rw (e, f) (found.2 k))
    ]
  ]

  total-place_in :
      (k : Key) (place : Place) (c : Counters)
      → total k (place_in place c).edges ≡ edge_count k place + total k c.edges
  unfolding place_in
  total-place_in k (edge j) c = total-counted k j c.edges
  total-place_in k (client j) c = omega arith
  total-place_in k (outgoing j) c = omega arith
  total-place_in k ignored c = omega arith

  -- what counting gives: a result, in which each key has so many more edges
  abbrev pub Counts : Result Error Counters → Counters → (Key → ℕ) → Type 0
  Counts r before more =
      (after : Counters) × (r ≡ ok after)
      × ((k : Key) → total k after.edges ≡ more k + total k before.edges)

  count_socks-Counts :
      (n : Node) (socks : List Sock) (c : Counters)
      → AreKnown
      → Counts (count_socks is_loopback nodes owner n socks c) c (λ k. talks_of k n socks)
  unfolding count_socks talks_of
  count_socks-Counts n [] c h = (c, refl, λ k. omega arith)
  count_socks-Counts n (s ∷ socks) c h =
      let (place, placed, one) = place_of-Placed n s h in
      let (after, ran, rest) = count_socks-Counts n socks (place_in place c) h in
      (after, rw (placed, ran) refl, λ k. omega (arith, one k, rest k, total-place_in k place c))

  pub count_nodes-Counts :
      (ns : List Node) (c : Counters)
      → AreKnown
      → Counts (count_nodes is_loopback nodes owner ns c) c (λ k. talks k ns)
  unfolding count_nodes talks
  count_nodes-Counts [] c h = (c, refl, λ k. omega arith)
  count_nodes-Counts (n ∷ ns) c h =
      let (next, first, one) = count_socks-Counts n n.socks c h in
      let (after, ran, rest) = count_nodes-Counts ns next h in
      (after, rw (first, ran) refl, λ k. omega (arith, one k, rest k))
