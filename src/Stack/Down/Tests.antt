-- ===== src/Stack/Down/Tests.antt =====
-- A stack of two containers, on a network of its own and on one that another container is attached to.
use aisb.Prelude.{
  all, String, ◌≡◌, refl, Bool, true, not, none, some, List, [], ◌∷◌, ◌++◌, ◌==◌, map, keep,
  contains, if◌then◌else◌,
}
use aisb.Prelude.Results.{ok}
use aisb.Transport.{Kind, Request, Answer, answered}
use aisb.Stack.Up.{Payload}
use aisb.Stack.Down.{Listed, Network, World, down, shown_name, container_path, network_path}
use aisb.Stack.Down.Serves.{at, deleted, Serves}
use aisb.Stack.Down.Deletes.{down_exact}

abbrev listed : String → String → Listed
listed id name = record {
  id = id;
  names = name ∷ [];
  labels = some (("aisb.stack", "shop") ∷ ("aisb.service", name) ∷ []);
  state = some "running";
  status = none;
  ports = [];
}

abbrev rows : List Listed
rows = listed "c1" "/shop-db" ∷ listed "c2" "/shop-api" ∷ []

abbrev own : Network
own = record { id = "n1"; name = "shop_default" }

abbrev shared : Network
shared = record { id = "n2"; name = "shop_shared" }

-- an answer is the path that was asked for
abbrev path_of : Answer String → String
path_of (answered p) = p
path_of _ = ""

abbrev world : World String String
world = record {
  daemon = λ sent kind r. ok r.path;
  quote = λ s. s;
  listed_rows = λ a. rows;
  networks_of = λ a. own ∷ shared ∷ [];
  attached_of =
      λ a. if path_of a == "/networks/n2" then ("c9", some "other") ∷ [] else ("c1", none) ∷ [];
  listed_volumes = λ a. "shop_pgdata" ∷ [];
}

abbrev is_free : Network → Bool
unfolding contains
is_free n =
    all (λ e. contains ("c1" ∷ "c2" ∷ []) e.0) (world.attached_of (answered (network_path world n)))

serves :
    Serves world "shop" rows ("c1" ∷ "c2" ∷ []) (own ∷ shared ∷ []) is_free ("shop_pgdata" ∷ [])
unfolding is_free
serves = record {
  deletes = λ sent path payload. (path, refl);
  lists = λ sent. ("/containers/json", refl, refl);
  joins = λ sent. ("/networks", refl, refl);
  inspects = λ sent n. (network_path world n, refl, refl);
  keeps = λ sent. ("/volumes", refl, refl);
}

which_free : keep is_free (own ∷ shared ∷ []) ≡ own ∷ []
unfolding is_free contains
which_free = refl

down_exact_example :
    (kept : List (String × List String)) × (later : List (Kind × Request Payload)) × (down world
        "shop" [] true
        (at [])
      ≡ (
        ok (record {
          stack = "shop";
          containers = map shown_name rows;
          networks = some (map (λ n. n.name) (keep is_free (own ∷ shared ∷ [])), kept);
          volumes = some ("shop_pgdata" ∷ []);
        }),
        at later,
      ))
    × (map (λ k. k.0) kept ≡ map (λ n. n.name) (keep (λ n. not (is_free n)) (own ∷ shared ∷ [])))
    × (deleted later
        ≡ map (container_path world) rows
          ++ (map (network_path world) (keep is_free (own ∷ shared ∷ []))
              ++ ("/volumes/shop_pgdata" ∷ [])))
down_exact_example =
    down_exact world "shop" rows (own ∷ shared ∷ []) is_free ("shop_pgdata" ∷ []) true [] serves
