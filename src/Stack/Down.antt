-- ===== src/Stack/Down.antt =====
-- `down` of src/aisb/api/stack.py, with `_containers`, for the name that `_name` finds. What
-- is read from an answer of the daemon is a parameter.
pub mod Serves
pub mod Deletes
mod Tests
use Prim.Native.Char.{code}
use Prim.Native.String
use aisb.Prelude.{
  ℕ, zero, suc, String, Bool, true, false, not, Option, none, some, List, [], ◌∷◌, ◌++◌, Dict, get,
  contains, map, keep, all, eqb, sorted, if◌then◌else◌,
}
use aisb.Transport.{json, Answer, Daemon, exchange}
use aisb.Transport.Actions.{Action, ◌▷◌, give}
use aisb.Stack.{stack_key, service_key, dict_or}
use aisb.Stack.Up.{Payload, no_payload, forced, labelled, path3}

-- A container of the list, as far as `down` and `ps` read it. A port is the public and the private one.
pub record Listed : Type 0 where
  pub id : String
  pub names : List String
  pub labels : Option (Dict String)
  pub state : Option String
  pub status : Option String
  pub ports : List (Option String × String)

pub record Network : Type 0 where
  pub id : String
  pub name : String

-- `attached_of`: the containers of a network by id, each with its name.
pub record World (A E : Type 0) : Type 0 where
  pub daemon : Daemon Payload A E
  pub quote : String → String
  pub listed_rows : Answer A → List Listed
  pub networks_of : Answer A → List Network
  pub attached_of : Answer A → Dict (Option String)
  pub listed_volumes : Answer A → List String

pub record Removed : Type 0 where
  pub stack : String
  pub containers : List String
  pub networks : Option (List String × List (String × List String))
  pub volumes : Option (List String)

-- (r.get("Labels") or {}).get(key)
unfoldable pub label_of : Listed → String → Option String
unfolding get
label_of r key = get (dict_or r.labels []) key

unfoldable pub member : Option String → List String → Bool
unfolding contains
member none names = false
member (some n) names = contains names n

-- not service or label in service
unfoldable pub is_chosen : List String → Listed → Bool
unfolding member label_of
is_chosen [] r = true
is_chosen (s ∷ ss) r = member (label_of r service_key) (s ∷ ss)

-- s.lstrip("/")
abbrev pub without_slashes : String → String
without_slashes String.[] = ""
without_slashes (String.◌∷◌ c s) = if eqb (code c) 47 then without_slashes s else String.◌∷◌ c s

-- (r.get("Names") or ["?"])[0].lstrip("/")
abbrev pub shown_name : Listed → String
shown_name r = elim r.names [ [] ↦ "?" | n ∷ ns ↦ without_slashes n ]

-- s[:n]
abbrev pub first_chars : ℕ → String → String
first_chars zero s = ""
first_chars (suc n) String.[] = ""
first_chars (suc n) (String.◌∷◌ c s) = String.◌∷◌ c (first_chars n s)

abbrev pub name_or_id : String → Option String → String
name_or_id cid none = first_chars 12 cid
name_or_id cid (some n) = n

-- sorted(c.get("Name", cid[:12]) for cid, c in attached.items() if cid not in ours)
unfoldable pub foreign : List String → Dict (Option String) → List String
unfolding contains sorted
foreign ours attached =
    sorted (map (λ e. name_or_id e.0 e.1) (keep (λ e. not (contains ours e.0)) attached))

module _ {A E : Type 0} (w : World A E) where
  abbrev pub ask : String → String → Payload → Action Payload E (Answer A)
  ask method path payload =
      exchange w.daemon json (record { method = method; path = path; payload = payload })

  abbrev pub label_filter : String → Payload
  label_filter name = labelled (path3 stack_key "=" name)

  -- `_containers`
  unfoldable pub containers : String → Action Payload E (List Listed)
  unfolding exchange
  containers name = ask "GET" "/containers/json" (label_filter name) ▷ λ a. give (w.listed_rows a)

  abbrev pub container_path : Listed → String
  container_path r = String.◌++◌ "/containers/" r.id

  abbrev pub network_path : Network → String
  network_path n = String.◌++◌ "/networks/" n.id

  abbrev pub volume_path : String → String
  volume_path v = String.◌++◌ "/volumes/" (w.quote v)

  unfoldable pub remove_containers : List Listed → Action Payload E (List String)
  unfolding exchange
  remove_containers [] = give []
  remove_containers (r ∷ rows) = ask "DELETE" (container_path r) forced ▷ λ _.
      remove_containers rows ▷ λ names. give (shown_name r ∷ names)

  -- the networks that are removed, and those that are kept with what is attached to them
  abbrev pub network_step :
      List String
      → Network
      → Action Payload E (List String × List (String × List String))
      → Action Payload E (List String × List (String × List String))
  network_step [] n rest =
      ask "DELETE" (network_path n) no_payload ▷ λ _. rest ▷ λ out. give (n.name ∷ out.0, out.1)
  network_step (f ∷ fs) n rest = rest ▷ λ out. give (out.0, (n.name, f ∷ fs) ∷ out.1)

  unfoldable pub remove_networks :
      List String → List Network → Action Payload E (List String × List (String × List String))
  unfolding foreign exchange
  remove_networks ours [] = give ([], [])
  remove_networks ours (n ∷ nets) = ask "GET" (network_path n) no_payload ▷ λ a.
      network_step (foreign ours (w.attached_of a)) n (remove_networks ours nets)

  unfoldable pub remove_volumes : List String → Action Payload E (Unit {0})
  unfolding exchange
  remove_volumes [] = give tt
  remove_volumes (v ∷ vols) = ask "DELETE" (volume_path v) no_payload ▷ λ _. remove_volumes vols

  unfoldable pub volumes_if : Bool → String → Action Payload E (Option (List String))
  unfolding remove_volumes exchange
  volumes_if false name = give none
  volumes_if true name = ask "GET" "/volumes" (label_filter name) ▷ λ a.
      remove_volumes (w.listed_volumes a) ▷ λ _. give (some (w.listed_volumes a))

  -- if not service
  unfoldable pub rest_of :
      List String → Bool → String → List Listed → List String → Action Payload E Removed
  unfolding remove_networks volumes_if exchange
  rest_of (s ∷ ss) volumes name rows removed =
      give (record { stack = name; containers = removed; networks = none; volumes = none })
  rest_of [] volumes name rows removed = ask "GET" "/networks" (label_filter name) ▷ λ a.
      remove_networks (map (λ r. r.id) rows) (w.networks_of a) ▷ λ nets.
      volumes_if volumes name ▷ λ vols.
      give (record { stack = name; containers = removed; networks = some nets; volumes = vols })

  -- `down`
  unfoldable pub down : String → List String → Bool → Action Payload E Removed
  unfolding containers is_chosen remove_containers rest_of
  down name service volumes = containers name ▷ λ all.
      remove_containers (keep (is_chosen service) all) ▷ λ removed.
      rest_of service volumes name (keep (is_chosen service) all) removed
