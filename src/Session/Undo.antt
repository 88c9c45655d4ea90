-- ===== src/Session/Undo.antt =====
-- The inverses of changes, and `_undo`, `_ensure_volume` and `_remove_volume` of
-- src/aisb/api/session.py. What they send is sent by the transport of the endpoint; creating a
-- container from its spec, restoring a volume and running a script in a database are parameters, as
-- are the quoting of a path and the classes of an exception.
use Prim.Native.String
use aisb.Prelude.{
  String, Bool, true, false, not, ◌||◌, Option, none, some, List, [], ◌∷◌, ◌==◌, map, keep, keys,
  get, Dict, codes, length, or_else, eqb, if◌then◌else◌,
}
use aisb.Prelude.Results.{Result, ok, err}
use aisb.Transport.{json, Transport, Answer, Daemon, exchange}
use aisb.Session.Snapshot.{Snapshot}

-- The query or the body of a request.
pub data Payload : Type 0 where
  no_payload forced : Payload
  new_network : String → String → Bool → Dict String → Payload
  new_volume : String → String → Dict String → Dict String → Payload
  joined : String → List String → Payload
  labelled : String → Payload

abbrev pub Endpoint : Type 0
Endpoint = Transport Payload

-- A call that sends requests and may raise.
abbrev pub Action : (E R : Type 0) → Type 0
Action E R = Endpoint → Result E R × Endpoint

-- What `_volume_meta` keeps, and an anonymous volume of a container.
pub record Meta : Type 0 where
  pub driver : String
  pub options : Dict String
  pub labels : Dict String

pub record Mount : Type 0 where
  pub name : String
  pub destination : String
  pub meta : Option Meta
  pub backup : String

-- A RunSpec: what is changed in it here, and the text of the rest.
pub record Spec : Type 0 where
  pub image : String
  pub network : Option String
  pub aliases : List String
  pub volumes : List String
  pub rest : String

pub record Container : Type 0 where
  pub name : String
  pub spec : Spec
  pub image_id : Option String
  pub is_running : Bool
  pub networks : Dict (List String)
  pub volumes : List Mount

pub data Inverse : Type 0 where
  recreate_container : Container → Inverse
  recreate_network : String → String → Bool → Dict String → Inverse
  restore_volume : String → Option Meta → String → Inverse
  remove_volume : String → Inverse
  restore_db : String → Option String → String → Inverse
  set_running : String → Option String → Bool → Inverse
  not_undoable capture_failed : String → Inverse

pub record World (A E : Type 0) : Type 0 where
  pub daemon : Daemon Payload A E
  pub quote : String → String
  pub is_not_found : E → Bool
  pub is_caught : E → Bool
  pub snapshot : Action E Snapshot
  pub create_from : Spec → Action E String
  pub restore : String → String → Bool → Action E (Unit {0})
  pub run_script : String → Option String → String → Action E (Unit {0})

abbrev pub after :
    {E R S : Type 0} → Result E R × Endpoint → (R → Action E S) → Result E S × Endpoint
after (ok r, t) next = next r t
after (err e, t) next = (err e, t)

infixl 5 ◌▷◌
abbrev pub ◌▷◌ : {E R S : Type 0} → Action E R → (R → Action E S) → Action E S
(first ▷ next) t = after (first t) next

abbrev pub give : {E R : Type 0} → R → Action E R
give r t = (ok r, t)

abbrev join3 : String → String → String → String
join3 a b c = String.◌++◌ a (String.◌++◌ b c)

module _ {A E : Type 0} (w : World A E) where
  abbrev pub ask : String → String → Payload → Action E (Answer A)
  ask method path payload =
      exchange w.daemon json (record { method = method; path = path; payload = payload })

  abbrev pub tell : String → String → Payload → Action E (Unit {0})
  tell method path payload = ask method path payload ▷ λ _. give tt

  -- try: GET path; return -- except NotFound: what follows
  abbrev missing_then :
      Action E (Unit {0}) → Result E (Answer A) × Endpoint → Result E (Unit {0}) × Endpoint
  missing_then next (ok a, t) = (ok tt, t)
  missing_then next (err e, t) = if w.is_not_found e then next t else (err e, t)

  unfoldable pub if_missing : String → Action E (Unit {0}) → Action E (Unit {0})
  if_missing path next t = missing_then next (ask "GET" path no_payload t)

  -- a or b, for a text
  abbrev pub or_text : String → String → String
  or_text a b = if a == "" then b else a

  abbrev create_volume : String → Meta → Action E (Unit {0})
  create_volume name meta =
      tell "POST" "/volumes/create"
        (new_volume name (or_text meta.driver "local") meta.options meta.labels)

  -- `_ensure_volume`
  unfoldable pub ensure_volume : String → Option Meta → Action E (Unit {0})
  unfolding if_missing
  ensure_volume name none = give tt
  ensure_volume name (some meta) =
      if_missing (String.◌++◌ "/volumes/" (w.quote name)) (create_volume name meta)

  abbrev gone_is_fine : Result E (Unit {0}) × Endpoint → Result E (Unit {0}) × Endpoint
  gone_is_fine (ok r, t) = (ok r, t)
  gone_is_fine (err e, t) = if w.is_not_found e then (ok tt, t) else (err e, t)

  -- `_remove_volume`
  unfoldable pub drop_volume : String → Action E (Unit {0})
  drop_volume name t =
      gone_is_fine (tell "DELETE" (String.◌++◌ "/volumes/" (w.quote name)) no_payload t)

  -- [a for a in aliases if len(a) != 12]
  abbrev own_aliases : List String → List String
  own_aliases = keep (λ a. not (eqb (length (codes a)) 12))

  abbrev is_special : String → Bool
  is_special n = n == "bridge" || n == "host" || n == "none"

  abbrev primary_of : List String → Option String
  primary_of [] = none
  primary_of (n ∷ ns) = if is_special n then primary_of ns else some n

  -- RunSpec.merge: what is empty is not given
  abbrev given : List String → List String → List String
  given old [] = old
  given old (x ∷ xs) = x ∷ xs

  abbrev with_network : Dict (List String) → Option String → Spec → Spec
  with_network networks none spec = spec
  with_network networks (some n) spec = record spec {
    network = some n;
    aliases = given spec.aliases (own_aliases (or_else (get networks n) []));
  }

  abbrev volume_at : List Mount → String → Option String
  volume_at [] v = none
  volume_at (m ∷ ms) v =
      or_else_name (volume_at ms v) (if m.destination == v then some m.name else none)
    where
      or_else_name : Option String → Option String → Option String
      or_else_name none o = o
      or_else_name (some n) o = some n

  abbrev mounted : List Mount → String → String
  mounted ms v = elim (volume_at ms v) [ none ↦ v | some name ↦ join3 name ":" v ]

  abbrev with_volumes : List Mount → Spec → Spec
  with_volumes [] spec = spec
  with_volumes (m ∷ ms) spec = record spec { volumes = map (mounted (m ∷ ms)) spec.volumes }

  abbrev image_for : Option String → String → String
  image_for none image = image
  image_for (some i) image = or_text i image

  -- the spec that a container is made of again
  spec_of : Container → Spec
  unfolding get
  spec_of c = with_volumes c.volumes (
      with_network c.networks (primary_of (keys c.networks))
        (record c.spec { image = image_for c.image_id c.spec.image }))

  restore_mounts : List Mount → Action E (Unit {0})
  unfolding ensure_volume
  restore_mounts [] = give tt
  restore_mounts (m ∷ ms) =
      ensure_volume m.name m.meta ▷ λ _. w.restore m.name m.backup false ▷ λ _. restore_mounts ms

  abbrev is_joined : Option String → String → Bool
  is_joined none n = is_special n
  is_joined (some p) n = n == p || n == "host" || n == "none"

  -- the networks that creating the container did not join
  join_networks : Option String → String → Dict (List String) → Action E (Unit {0})
  join_networks primary cid [] = give tt
  join_networks primary cid ((n, aliases) ∷ rest) =
      let others = join_networks primary cid rest in
      if is_joined primary n
      then others
      else (tell "POST" (join3 "/networks/" (w.quote n) "/connect")
            (joined cid (own_aliases aliases))
          ▷ λ _. others)

  abbrev start_if : Bool → String → Action E (Unit {0})
  start_if false cid = give tt
  start_if true cid = tell "POST" (join3 "/containers/" cid "/start") no_payload

  -- `recreate` of `_undo`
  unfoldable pub recreate : Container → Action E (Unit {0})
  unfolding if_missing restore_mounts join_networks spec_of
  recreate c = if_missing (join3 "/containers/" (w.quote c.name) "/json") (
      restore_mounts c.volumes ▷ λ _. w.create_from (spec_of c) ▷ λ cid.
      join_networks (primary_of (keys c.networks)) cid c.networks ▷ λ _. start_if c.is_running cid)
