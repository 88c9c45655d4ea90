-- ===== src/Graph/Built.antt =====
-- `build` of src/aisb/insights/graph.py as a whole: it returns, and its edges are the connections.
use aisb.Prelude.{
  ℕ, ◌+◌, String, ◌≡◌, refl, sym, ◌∙◌, Bool, true, some, List, [], ◌∷◌, ◌==◌, Dict, get, put,
  get-put, keys, contains, arith, eq_iff, Bool-cases, inl, inr, if◌then◌else◌, All,
}
use aisb.Prelude.Results.{ok}
use aisb.Graph.{Node, Key, own_ips, owners, values, Graph, graph_of, none_counted, build}
use aisb.Graph.Counts.{total, total-sorted_entries}
use aisb.Graph.Edges.{talks, AreKnown, count_nodes-Counts}

-- Every owner of an address is one of these names.
abbrev Owns : List String → Dict String → Type 0
unfolding get contains
Owns names d = (ip p : String) → get d ip ≡ some p → contains names p ≡ true

own_ips-Owns :
    (names ips : List String) (name : String) (d : Dict String)
    → contains names name ≡ true
    → Owns names d
    → Owns names (own_ips ips name d)
unfolding own_ips Owns
own_ips-Owns names [] name d known h = h
own_ips-Owns names (ip ∷ ips) name d known h =
    own_ips-Owns names ips name (put d ip name) known
      (λ i p e. added i p (sym (get-put d ip i name) ∙ e))
  where
    added :
        (i p : String) → (if ip == i then some name else get d i) ≡ some p → contains names p ≡ true
    added i p e = elim (Bool-cases (ip == i)) [
      | inl f ↦ rw (sym (same (rw f at e))) known
      | inr f ↦ h i p (rw f at e)
    ]
      where
        same : {a b : String} → some a ≡ some b → a ≡ b
        same h = cc

owners-Owns :
    (names : List String) (ns : List Node) (d : Dict String)
    → All (λ n. contains names n.name ≡ true) ns
    → Owns names d
    → Owns names (owners ns d)
unfolding owners
owners-Owns names [] d known h = h
owners-Owns names (n ∷ ns) d (k, known) h =
    owners-Owns names ns (own_ips n.ips n.name d) known (own_ips-Owns names n.ips n.name d k h)

-- Each node stands under its own name.
abbrev pub AreNamed : Dict Node → Type 0
AreNamed = All (λ e. e.0 ≡ e.1.name)

values_known :
    (names : List String) (d : Dict Node)
    → AreNamed d
    → ((k : String) → contains (keys d) k ≡ true → contains names k ≡ true)
    → All (λ n. contains names n.name ≡ true) (values d)
unfolding contains
values_known names [] named h = tt
values_known names ((k, n) ∷ d) (same, named) h = (
  rw (sym same) (h k (ground (arith, eq_iff k k))),
  values_known names d named (λ j e. h j (ground (arith, e))),
)

get_known :
    (d : Dict Node) (k : String) → contains (keys d) k ≡ true → (m : Node) × (get d k ≡ some m)
unfolding get contains
get_known [] k h = cc
get_known ((j, n) ∷ d) k h = elim (Bool-cases (j == k)) [
  | inl e ↦ (n, rw e refl)
  | inr e ↦ let (m, found) = get_known d k (rw e at h) in (m, rw (e, found) refl)
]

no_owners : (names : List String) → Owns names []
unfolding Owns
no_owners names ip p e = cc

-- Where each node stands under its own name, `build` returns a graph, and the connections of its
-- edges from one container to a port of another are as many as the first one's sockets that are
-- established, not over the loopback device, with that port at an address of the other container,
-- which is not the first and listens on the port.
pub build_exact :
    (is_loopback : String → Bool) (nodes : Dict Node)
    → AreNamed nodes
    → (g : Graph) × (build is_loopback nodes ≡ ok g)
      × ((k : Key)
          → total k g.edges ≡ talks is_loopback nodes (owners (values nodes) []) k (values nodes))
unfolding build graph_of Owns total talks
build_exact is_loopback nodes named =
    let names = keys nodes in
    let owns =
      owners-Owns names (values nodes) [] (values_known names nodes named (λ k e. e))
        (no_owners names) in
    let (after, ran, counts) =
      count_nodes-Counts is_loopback nodes (owners (values nodes) []) (values nodes) none_counted
        (known owns) in
    (
      graph_of (values nodes) after,
      rw ran refl,
      λ k. total-sorted_entries k after.edges ∙ counts k ∙ at_start _,
    )
  where
    known :
        Owns (keys nodes) (owners (values nodes) [])
        → AreKnown is_loopback nodes (owners (values nodes) [])
    known owns ip p e = get_known nodes p (owns ip p e)

    at_start : (n : ℕ) → n + 0 ≡ n
    at_start n = omega arith
