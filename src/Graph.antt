-- ===== src/Graph.antt =====
-- src/aisb/insights/graph.py: `build` makes the graph of who talks to whom from the sockets of
-- each container, and `depends_on` reads it. Whether an address is a loopback one is a parameter.
-- A socket's addresses are a text and a port; Sockets has `parse_sockets`.
pub mod Sockets
pub mod Counts
pub mod Edges
pub mod Built
mod Tests
use aisb.Prelude.{
  ℕ, ◌+◌, String, Bool, true, false, not, ◌&&◌, ◌||◌, Option, none, some, List, [], ◌∷◌, ◌++◌, ◌==◌,
  Dict, get, put, contains, map, keep, eqb, leb, str_le, sorted, or_else, if◌then◌else◌,
}
use aisb.Prelude.Results.{Result, ok, err, ◌>>=◌}

pub record Sock : Type 0 where
  pub local : String × ℕ
  pub remote : String × ℕ
  pub state : String

-- LISTEN and ESTABLISHED
abbrev pub listen : String
listen = "0A"

abbrev pub established : String
established = "01"

pub record Node : Type 0 where
  pub name : String
  pub ips : List String
  pub socks : List Sock
  pub observed : Bool

-- order of tuples
abbrev pub address_le : String × ℕ → String × ℕ → Bool
address_le (a, p) (b, q) = if a == b then leb p q else str_le a b

abbrev pub same_address : String × ℕ → String × ℕ → Bool
same_address (a, p) (b, q) = a == b && eqb p q

-- x in xs, and an insertion that keeps a sorted list a set
abbrev pub insert_address : String × ℕ → List (String × ℕ) → List (String × ℕ)
insert_address x [] = x ∷ []
insert_address x (y ∷ ys) =
    let rest = insert_address x ys in
    if same_address x y then y ∷ ys else if address_le x y then x ∷ y ∷ ys else y ∷ rest

-- `listeners`
listeners : List Sock → List (String × ℕ)
listeners [] = []
listeners (s ∷ socks) =
    let rest = listeners socks in if s.state == listen then insert_address s.local rest else rest

abbrev pub has_port : List (String × ℕ) → ℕ → Bool
has_port [] p = false
has_port ((a, q) ∷ rest) p = eqb q p || has_port rest p

-- p in n.ports
unfoldable pub listens_on : Node → ℕ → Bool
unfolding listeners
listens_on n p = has_port (listeners n.socks) p

-- What a `Counter` counts, and the counter.
abbrev pub Key : Type 0
Key = String × String × ℕ

abbrev pub Counter : Type 0
Counter = List (Key × ℕ)

abbrev pub same_key : Key → Key → Bool
same_key (a, b, p) (c, d, q) = a == c && b == d && eqb p q

-- counter[key] += 1
unfoldable pub counted : Key → Counter → Counter
counted k [] = (k, 1) ∷ []
counted k ((j, n) ∷ c) =
    let rest = counted k c in if same_key j k then (j, n + 1) ∷ c else (j, n) ∷ rest

abbrev pub key_le : Key → Key → Bool
key_le (a, b, p) (c, d, q) = if a == c then (if b == d then leb p q else str_le b d) else str_le a c

unfoldable pub insert_entry : Key × ℕ → Counter → Counter
insert_entry x [] = x ∷ []
insert_entry x (y ∷ c) =
    let rest = insert_entry x c in if key_le x.0 y.0 then x ∷ y ∷ c else y ∷ rest

-- sorted(counter.items()), whose keys are distinct
unfoldable pub sorted_entries : Counter → Counter
unfolding insert_entry
sorted_entries [] = []
sorted_entries (x ∷ c) = insert_entry x (sorted_entries c)

-- What a socket is counted as.
pub data Place : Type 0 where
  edge client outgoing : Key → Place
  ignored : Place

pub record Counters : Type 0 where
  pub edges : Counter
  pub egress : Counter
  pub clients : Counter

unfoldable pub place_in : Place → Counters → Counters
unfolding counted
place_in (edge k) c = record c { edges = counted k c.edges }
place_in (client k) c = record c { clients = counted k c.clients }
place_in (outgoing k) c = record c { egress = counted k c.egress }
place_in ignored c = c

-- {ip: n.name for n in nodes.values() for ip in n.ips}
unfoldable pub own_ips : List String → String → Dict String → Dict String
unfolding put
own_ips [] name d = d
own_ips (ip ∷ ips) name d = own_ips ips name (put d ip name)

unfoldable pub owners : List Node → Dict String → Dict String
unfolding own_ips
owners [] d = d
owners (n ∷ nodes) d = owners nodes (own_ips n.ips n.name d)

abbrev pub values : Dict Node → List Node
values = map (λ e. e.1)

pub record Graph : Type 0 where
  pub nodes : List Node
  pub edges : Counter
  pub egress : Counter
  pub clients : Counter
  pub isolated : List String

pub data Error : Type 0 where
  key_error : String → Error

unfoldable pub unless_edge : Node → Sock → Option String → Bool → Place
unfolding listens_on
unless_edge n s (some peer) true = edge (n.name, peer, s.remote.1)
unless_edge n s (some peer) false = ignored
unless_edge n s none _ =
    if listens_on n s.local.1
    then client (s.remote.0, n.name, s.local.1)
    else outgoing (n.name, s.remote.0, s.remote.1)

-- a peer whose name is empty is none
abbrev pub named_peer : Option String → Option String
named_peer none = none
named_peer (some p) = if p == "" then none else some p

-- rport in nodes[peer].ports
unfoldable pub listens_of : String → Option Node → ℕ → Result Error Bool
unfolding listens_on
listens_of peer none p = err (key_error peer)
listens_of peer (some n) p = ok (listens_on n p)

module _ (is_loopback : String → Bool) (nodes : Dict Node) (owner : Dict String) where
  unfoldable pub peer_listens : String → ℕ → Result Error Bool
  unfolding get listens_of
  peer_listens peer p = listens_of peer (get nodes peer) p

  unfoldable pub place_by : Node → Sock → Option String → Result Error Place
  unfolding peer_listens unless_edge
  place_by n s none = ok (unless_edge n s none false)
  place_by n s (some peer) =
      if peer == n.name
      then ok ignored
      else peer_listens peer s.remote.1 >>= λ yes. ok (unless_edge n s (some peer) yes)

  -- the body of the loop over the sockets
  unfoldable pub place_of : Node → Sock → Result Error Place
  unfolding place_by get
  place_of n s =
      if not (s.state == established)
      then ok ignored
      else if is_loopback s.remote.0
      then ok ignored
      else place_by n s (named_peer (get owner s.remote.0))

  unfoldable pub count_socks : Node → List Sock → Counters → Result Error Counters
  unfolding place_of place_in
  count_socks n [] c = ok c
  count_socks n (s ∷ socks) c = place_of n s >>= λ place. count_socks n socks (place_in place c)

  unfoldable pub count_nodes : List Node → Counters → Result Error Counters
  unfolding count_socks
  count_nodes [] c = ok c
  count_nodes (n ∷ ns) c = count_socks n n.socks c >>= λ next. count_nodes ns next

-- an end of an edge
is_connected : Counter → String → Bool
is_connected [] name = false
is_connected (((a, b, p), n) ∷ c) name = a == name || b == name || is_connected c name

abbrev pub none_counted : Counters
none_counted = record { edges = []; egress = []; clients = [] }

unfoldable pub graph_of : List Node → Counters → Graph
unfolding is_connected sorted_entries sorted
graph_of nodes c = record {
  nodes = nodes;
  edges = sorted_entries c.edges;
  egress = sorted_entries c.egress;
  clients = sorted_entries c.clients;
  isolated =
      sorted
        (map (λ n. n.name) (keep (λ n. n.observed && not (is_connected c.edges n.name)) nodes));
}

-- `build`; of a node the graph shows its name, its ports and whether it was observed
unfoldable pub build : (String → Bool) → Dict Node → Result Error Graph
unfolding graph_of owners count_nodes
build is_loopback nodes =
    count_nodes is_loopback nodes (owners (values nodes) []) (values nodes) none_counted >>= λ c.
    ok (graph_of (values nodes) c)

abbrev pub added_to : List String → String → List String
added_to xs x = if contains xs x then xs else xs ++ (x ∷ [])

-- for e in graph["edges"]: deps.setdefault(e["from"], set()).add(e["to"])
depends_from : Counter → Dict (List String) → Dict (List String)
unfolding get put contains
depends_from [] deps = deps
depends_from (((a, b, p), n) ∷ c) deps =
    depends_from c (put deps a (added_to (or_else (get deps a) []) b))

-- `depends_on`
unfoldable pub depends_on : Graph → Dict (List String)
unfolding depends_from
depends_on g = depends_from g.edges []
