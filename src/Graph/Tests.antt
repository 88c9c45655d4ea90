-- ===== src/Graph/Tests.antt =====
-- An API that talks to a database twice, to an address outside, and over the loopback device.
use aisb.Prelude.{
  ℕ, String, ◌≡◌, refl, Bool, true, [], ◌∷◌, ◌==◌, Dict, get, put, contains, sorted, some, none,
}
use aisb.Prelude.Results.{ok}
use aisb.Graph.{Sock, Node, Key, Graph, build, owners, values, depends_on}
use aisb.Graph.Counts.{total}
use aisb.Graph.Edges.{talks}
use aisb.Graph.Built.{build_exact}
use aisb.Graph.Sockets.{World, parse_sockets}

abbrev open_to : String × ℕ → Sock
open_to a = record { local = a; remote = ("0.0.0.0", 0); state = "0A" }

abbrev connected : String × ℕ → String × ℕ → Sock
connected a b = record { local = a; remote = b; state = "01" }

abbrev nodes : Dict Node
nodes =
    (
      "db",
      record {
        name = "db";
        ips = "10.0.0.2" ∷ [];
        socks = open_to ("0.0.0.0", 5432) ∷ connected ("10.0.0.2", 5432) ("10.0.0.3", 40000) ∷ [];
        observed = true;
      },
    )
    ∷ (
      "api",
      record {
        name = "api";
        ips = "10.0.0.3" ∷ [];
        socks =
            connected ("10.0.0.3", 40000) ("10.0.0.2", 5432)
            ∷ connected ("10.0.0.3", 40001) ("10.0.0.2", 5432)
            ∷ connected ("10.0.0.3", 40002) ("93.184.216.34", 443)
            ∷ connected ("127.0.0.1", 40003) ("127.0.0.1", 8080)
            ∷ [];
        observed = true;
      },
    )
    ∷ []

abbrev loopback : String → Bool
loopback ip = ip == "127.0.0.1"

abbrev drawn : Graph
drawn = record {
  nodes = values nodes;
  edges = (("api", "db", 5432), 2) ∷ [];
  egress = (("api", "93.184.216.34", 443), 1) ∷ [];
  clients = [];
  isolated = [];
}

runs : Unit {0}
unfolding build get put contains sorted depends_on
runs = tt

built : build loopback nodes ≡ ok drawn
unfolding runs
built = refl

dependencies : depends_on drawn ≡ ("api", "db" ∷ []) ∷ []
unfolding runs
dependencies = refl

two_connections : total ("api", "db", 5432) drawn.edges ≡ 2
unfolding total
two_connections = refl

build_exact_example :
    (g : Graph) × (build loopback nodes ≡ ok g)
    × ((k : Key)
        → total k g.edges ≡ talks loopback nodes (owners (values nodes) []) k (values nodes))
build_exact_example = build_exact loopback nodes (refl, (refl, tt))

-- a line of /proc/net/tcp, its bytes given
abbrev world : World
world = record {
  lines = λ t. "header" ∷ t ∷ [];
  fields = λ t. "0:" ∷ "0200000A:1538" ∷ "0300000A:9C40" ∷ "01" ∷ [];
  bytes = λ t. some (2 ∷ 0 ∷ 0 ∷ 10 ∷ []);
  hexadecimal = λ t. some 5432;
  v4 = λ bs. "10.0.0.2";
  v6 = λ bs. none;
}

two_sockets :
    parse_sockets world "line"
    ≡ connected ("10.0.0.2", 5432) ("10.0.0.2", 5432)
      ∷ connected ("10.0.0.2", 5432) ("10.0.0.2", 5432)
      ∷ []
unfolding parse_sockets
two_sockets = refl
