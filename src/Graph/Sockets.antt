-- ===== src/Graph/Sockets.antt =====
-- `parse_sockets` and `_addr` of src/aisb/insights/graph.py. `splitlines`, `split`, `bytes.fromhex`,
-- `int(…, 16)` and the texts of addresses are parameters.
use Prim.Native.Char.{code}
use aisb.Prelude.{
  ℕ, String, not, ◌||◌, Option, none, some, List, [], ◌∷◌, ◌++◌, ◌==◌, length, take, drop, has_code,
  eqb, if◌then◌else◌,
}
use aisb.Graph.{Sock}

pub record World : Type 0 where
  pub lines : String → List String
  pub fields : String → List String
  pub bytes : String → Option (List ℕ)
  pub hexadecimal : String → Option ℕ
  pub v4 : List ℕ → String
  pub v6 : List ℕ → Option String

-- s.rsplit(c, 1), where c is there
rsplit : ℕ → String → Option (String × String)
rsplit k String.[] = none
rsplit k (String.◌∷◌ c s) =
    let rest = rsplit k s in
    elim rest [
      | some p ↦ some (String.◌∷◌ c p.0, p.1)
      | none ↦ if eqb (code c) k then some ("", s) else none
    ]

abbrev pub reversed : List ℕ → List ℕ
reversed [] = []
reversed (b ∷ bs) = reversed bs ++ (b ∷ [])

-- raw[i:i + 4][::-1]
abbrev pub word : ℕ → List ℕ → List ℕ
word i raw = reversed (take 4 (drop i raw))

module _ (w : World) where
  abbrev pub address_text : List ℕ → Option String
  address_text raw =
      if eqb (length raw) 4
      then some (w.v4 (reversed raw))
      else w.v6 (word 0 raw ++ (word 4 raw ++ (word 8 raw ++ word 12 raw)))

  abbrev pub both : Option String → Option ℕ → Option (String × ℕ)
  both none p = none
  both (some a) none = none
  both (some a) (some p) = some (a, p)

  abbrev pub address_of : Option (List ℕ) → Option ℕ → Option (String × ℕ)
  address_of none port = none
  address_of (some raw) port = both (address_text raw) port

  abbrev pub addr_of : Option (String × String) → Option (String × ℕ)
  addr_of none = none
  addr_of (some (ip, port)) = address_of (w.bytes ip) (w.hexadecimal port)

  -- `_addr`; none stands for a ValueError
  addr : String → Option (String × ℕ)
  unfolding rsplit
  addr text = addr_of (rsplit 58 text)

  abbrev pub socket_of : Option (String × ℕ) → Option (String × ℕ) → String → List Sock
  socket_of none remote state = []
  socket_of (some local) none state = []
  socket_of (some local) (some remote) state =
      record { local = local; remote = remote; state = state } ∷ []

  -- the body of the loop: no socket for a line that is skipped
  unfoldable pub socket : List String → List Sock
  unfolding addr has_code
  socket (first ∷ local ∷ remote ∷ state ∷ more) =
      if not (has_code 58 local) || first == "sl"
      then []
      else socket_of (addr local) (addr remote) state
  socket _ = []

  sockets_of : List String → List Sock
  unfolding socket
  sockets_of [] = []
  sockets_of (line ∷ lines) = socket (w.fields line) ++ sockets_of lines

  -- `parse_sockets`
  unfoldable pub parse_sockets : String → List Sock
  unfolding sockets_of
  parse_sockets text = sockets_of (w.lines text)
