-- ===== src/Session/Inspect.antt =====
-- What `capture` of src/aisb/api/session.py reads of the objects that a change is about. What the
-- answers of the daemon hold, the backup of a volume, the dump of a database and the containers of a
-- stack are parameters, as are the pattern of secret names and the classes of an exception.
use Prim.Native.String
use aisb.Prelude.{
  String, Bool, true, false, not, ◌&&◌, ◌||◌, Option, none, some, List, [], ◌∷◌, ◌++◌, ◌==◌, Dict,
  map, keep, if◌then◌else◌,
}
use aisb.Prelude.Results.{Result, ok, err}
use aisb.Transport.{Answer}
use aisb.Session.Undo.{
  no_payload, labelled, Endpoint, Action, Meta, Mount, Spec, Inverse, recreate_container,
  recreate_network, restore_volume, remove_volume, World, ask, give, ◌▷◌,
}
use aisb.Session.Rollback.{Undo, group}

-- What is read of a container, of a volume and of a network.
pub record ContainerInfo : Type 0 where
  pub name : Option String
  pub spec : Spec
  pub image : Option String
  pub is_running : Bool
  pub networks : Dict (List String)
  pub mounts : List (String × String × String)

pub record VolumeInfo : Type 0 where
  pub name : String
  pub driver : Option String
  pub options : Dict String
  pub labels : Dict String

pub record NetworkInfo : Type 0 where
  pub name : String
  pub driver : Option String
  pub is_internal : Bool
  pub labels : Dict String

-- The arguments of an operation that `capture` reads, and all of them, for the entry.
pub record Arguments : Type 0 where
  pub ref : String
  pub takes_volumes : Bool
  pub database : Option String
  pub stack : String
  pub has_service : Bool
  pub all_args : Dict String

pub record Client (A E : Type 0) : Type 0 where
  pub world : World A E
  pub container_info : Answer A → ContainerInfo
  pub volume_info : Answer A → VolumeInfo
  pub network_info : Answer A → NetworkInfo
  pub networks_in : Answer A → List NetworkInfo
  pub volumes_in : Answer A → List String
  pub backup : String → Action E String
  pub dump : String → Option String → String → Action E String
  pub stack_name : String → Action E String
  pub stack_containers : String → Action E (List String)
  pub text_of_error : E → String
  pub is_docker_error : E → Bool
  pub is_rescued : E → Bool
  pub is_secret : String → Bool

abbrev text_or_local : String → String → String
text_or_local d default = if d == "" then default else d

abbrev driver_or : Option String → String → String
driver_or none default = default
driver_or (some d) default = text_or_local d default

abbrev pub join2 : String → String → String
join2 = String.◌++◌

-- s.lstrip("/")
unfoldable pub strip_slashes : String → String
strip_slashes String.[] = ""
strip_slashes (String.◌∷◌ c s) = if String.◌∷◌ c "" == "/" then strip_slashes s else String.◌∷◌ c s

abbrev pub each : {E R S : Type 0} → (R → Action E S) → List R → Action E (List S)
each f [] = give []
each f (x ∷ xs) = f x ▷ λ y. each f xs ▷ λ ys. give (y ∷ ys)

-- `_redacted`
unfoldable pub redacted : (String → Bool) → Dict String → Dict String
redacted is_secret [] = []
redacted is_secret ((k, v) ∷ kwargs) =
    (k, if is_secret k then "***" else v) ∷ redacted is_secret kwargs

-- `_network_state`
abbrev pub network_state : NetworkInfo → Inverse
network_state n = recreate_network n.name (driver_or n.driver "bridge") n.is_internal n.labels

abbrev is_volume : String × String × String → Bool
is_volume (kind, name, destination) = kind == "volume" && not (name == "")

abbrev volumes_of : List (String × String × String) → List (String × String × String)
volumes_of = keep is_volume

abbrev name_or : Option String → String → String
name_or none ref = ref
name_or (some n) ref = text_or_local n ref

abbrev pub named_container : Option String → Option String
named_container none = none
named_container (some n) = let name = strip_slashes n in if name == "" then none else some name

abbrev pub is_running_op : String → Bool
is_running_op op = op == "containers.stop" || op == "containers.start" || op == "containers.restart"

module _ {A E : Type 0} (client : Client A E) where
  abbrev pub path_of : String → String → String
  path_of kind name = join2 kind (client.world.quote name)

  -- `_volume_meta`
  unfoldable pub volume_meta : String → Action E Meta
  volume_meta name = ask client.world "GET" (path_of "/volumes/" name) no_payload ▷ λ a.
      let v = client.volume_info a in
      give (record { driver = driver_or v.driver "local"; options = v.options; labels = v.labels })

  abbrev mount_of : String × String × String → Action E Mount
  mount_of (kind, name, destination) = volume_meta name ▷ λ meta. client.backup name ▷ λ path.
      give (record { name = name; destination = destination; meta = some meta; backup = path })

  -- `_container_state`
  unfoldable pub container_state : String → Bool → Action E Inverse
  unfolding volume_meta strip_slashes
  container_state ref takes_volumes =
      ask client.world "GET" (join2 (path_of "/containers/" ref) "/json") no_payload ▷ λ a.
      let info = client.container_info a in
      each mount_of (if takes_volumes then volumes_of info.mounts else []) ▷ λ mounts. give (
        recreate_container (record {
          name = strip_slashes (name_or info.name ref);
          spec = info.spec;
          image_id = info.image;
          is_running = info.is_running;
          networks = info.networks;
          volumes = mounts;
        }))

  abbrev pub restoring : String → Action E Inverse
  restoring name = volume_meta name ▷ λ meta.
      client.backup name ▷ λ path. give (restore_volume name (some meta) path)

  -- the branch for a volume, where NotFound means that it is made by the change
  abbrev unless_new : String → Result E Inverse × Endpoint → Result E Inverse × Endpoint
  unless_new name (ok inverse, t) = (ok inverse, t)
  unless_new name (err e, t) =
      if client.world.is_not_found e then (ok (remove_volume name), t) else (err e, t)

  abbrev pub volume_state : String → Action E Inverse
  volume_state name t =
      unless_new name
        ((ask client.world "GET" (path_of "/volumes/" name) no_payload ▷ λ _. restoring name) t)

  abbrev stack_volumes : Bool → String → Action E (List Inverse)
  stack_volumes false label = give []
  stack_volumes true label =
      ask client.world "GET" "/volumes" (labelled label) ▷ λ a. each restoring (client.volumes_in a)

  abbrev stack_objects : Bool → Bool → String → Action E (List Inverse)
  stack_objects true takes_volumes label = give []
  stack_objects false takes_volumes label =
      ask client.world "GET" "/networks" (labelled label) ▷ λ a.
      stack_volumes takes_volumes label ▷ λ volumes.
      give (map network_state (client.networks_in a) ++ volumes)

  -- the branch for `stack.down`; `key` is STACK_KEY
  unfoldable pub stack_state : String → Arguments → Action E Undo
  unfolding container_state
  stack_state key args = client.stack_name args.stack ▷ λ name.
      client.stack_containers name ▷ λ rows.
      stack_objects args.has_service args.takes_volumes (join2 key (join2 "=" name)) ▷ λ steps.
      each (λ id. container_state id false) rows ▷ λ states. give (group (steps ++ states))
