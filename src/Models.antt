-- ===== src/Models.antt =====
-- src/aisb/models.py: `RunSpec`, read from a mapping by `from_dict` and written as the body of
-- `POST /containers/create` by `to_api`, with `parse_port`, `parse_restart` and `parse_size`. A field
-- that `from_dict` does not convert holds whatever the mapping holds, where a list or an object holds
-- texts. `shlex.split`, `str.isdigit`, `int`, the size of a text and the product of `cpus`, in
-- floating point, are parameters.
pub mod Ports
pub mod Api
use Prim.Native.String
use aisb.Prelude.{
  ℕ, String, Bool, true, false, not, Option, none, some, List, [], ◌∷◌, ◌++◌, ◌==◌, map, Dict, get,
  keys, minus, sorted, or_else, eqb, if◌then◌else◌,
}
use aisb.Prelude.Results.{Result, ok, err, ◌>>=◌, ◌>>◌}
use aisb.Ops.Binding.{
  Value, null, flag, number, text, texts, table, letters, kv, Error as BindError,
}
use aisb.Yaml.Text.{ℤ}

pub data Error : Type 0 where
  unknown_keys : List String → Error
  in_labels : BindError → Error
  bad_split bad_port bad_restart bad_size : String → Error
  no_image type_error : Error

pub record World : Type 0 where
  pub split : String → Option (List String)
  pub is_digits : String → Bool
  pub parse_int : String → Option ℤ
  pub bytes_of : String → Option ℕ
  pub nanos_of : Value → Result Error ℤ

pub record RunSpec : Type 0 where
  pub image : Value
  pub cmd : List String
  pub entrypoint : Value
  pub name : Value
  pub env : List String
  pub ports : List String
  pub volumes : List String
  pub labels : Dict String
  pub restart : Value
  pub network : Value
  pub workdir : Value
  pub user : Value
  pub memory : Value
  pub cpus : Value
  pub tty : Value
  pub rm : Value
  pub health_cmd : Value
  pub aliases : List String
  pub pid : Value
  pub hostname : Value
  pub cap_add : List String
  pub privileged : Value

-- the names of its fields
abbrev pub field_names : List String
field_names =
    "image" ∷ "cmd" ∷ "entrypoint" ∷ "name" ∷ "env" ∷ "ports" ∷ "volumes" ∷ "labels" ∷ "restart"
    ∷ "network" ∷ "workdir" ∷ "user" ∷ "memory" ∷ "cpus" ∷ "tty" ∷ "rm" ∷ "health_cmd" ∷ "aliases"
    ∷ "pid" ∷ "hostname" ∷ "cap_add" ∷ "privileged" ∷ []

-- whether a value counts as true
abbrev pub truthy : Value → Bool
truthy null = false
truthy (flag b) = b
truthy (number n) = not (eqb n 0)
truthy (text t) = not (t == "")
truthy (texts []) = false
truthy (texts (t ∷ ts)) = true
truthy (table []) = false
truthy (table (e ∷ es)) = true

-- tuple(v)
abbrev pub items : Value → Result Error (List String)
items null = err type_error
items (flag b) = err type_error
items (number n) = err type_error
items (text t) = ok (letters t)
items (texts ts) = ok ts
items (table d) = ok (keys d)

abbrev pub joined : String → String → String → String
joined a b c = String.◌++◌ a (String.◌++◌ b c)

-- [f"{k}={v}" for k, v in norm["env"].items()], if it is a mapping
abbrev pub env_list : Value → Value
env_list (table d) = texts (map (λ e. joined e.0 "=" e.1) d)
env_list v = v

abbrev pub or_error : {A : Type 0} → Error → Option A → Result Error A
or_error e none = err e
or_error e (some a) = ok a

-- shlex.split(norm["cmd"]), if it is a text
abbrev pub command : World → Value → Result Error Value
command w (text t) = or_error (bad_split t) (w.split t) >>= λ parts. ok (texts parts)
command w v = ok v

-- norm[key] = tuple(norm[key]), if it is there
abbrev pub items_of : Option Value → Result Error (List String)
items_of none = ok []
items_of (some v) = items v

spec_labels : Option Value → Result Error (Dict String)
unfolding kv
spec_labels none = ok []
spec_labels (some v) = elim (kv v) [ ok d ↦ ok d | err e ↦ err (in_labels e) ]

field_or : Dict Value → String → Value → Value
unfolding get
field_or entries k d = or_else (get entries k) d

abbrev pub command_of : World → Option Value → Result Error (Option Value)
command_of w none = ok none
command_of w (some v) = command w v >>= λ c. ok (some c)

abbrev pub env_of : Option Value → Option Value
env_of none = none
env_of (some v) = some (env_list v)

abbrev pub is_any : List String → Bool
is_any [] = false
is_any (x ∷ xs) = true

module _ (w : World) where
  -- cls(**norm), after the fields that are converted
  unfoldable pub made :
      Dict Value
      → (cmd env ports volumes aliases cap_add : List String) → Dict String
      → Option Value
      → Result Error RunSpec
  unfolding field_or
  made d cmd env ports volumes aliases cap_add labels none = err no_image
  made d cmd env ports volumes aliases cap_add labels (some image) = ok (record {
    image = image;
    cmd = cmd;
    entrypoint = field_or d "entrypoint" null;
    name = field_or d "name" null;
    env = env;
    ports = ports;
    volumes = volumes;
    labels = labels;
    restart = field_or d "restart" null;
    network = field_or d "network" null;
    workdir = field_or d "workdir" null;
    user = field_or d "user" null;
    memory = field_or d "memory" null;
    cpus = field_or d "cpus" null;
    tty = field_or d "tty" (flag false);
    rm = field_or d "rm" (flag false);
    health_cmd = field_or d "health_cmd" null;
    aliases = aliases;
    pid = field_or d "pid" null;
    hostname = field_or d "hostname" null;
    cap_add = cap_add;
    privileged = field_or d "privileged" (flag false);
  })

  -- `from_dict`
  unfoldable pub from_dict : Dict Value → Result Error RunSpec
  unfolding get minus sorted spec_labels made
  from_dict d =
      if is_any (minus (keys d) field_names)
      then err (unknown_keys (sorted (minus (keys d) field_names)))
      else command_of w (get d "cmd") >>= λ command. items_of command >>= λ cmd.
          items_of (env_of (get d "env")) >>= λ env. items_of (get d "ports") >>= λ ports.
          items_of (get d "volumes") >>= λ volumes. items_of (get d "aliases") >>= λ aliases.
          items_of (get d "cap_add") >>= λ cap_add. spec_labels (get d "labels") >>= λ labels.
          made d cmd env ports volumes aliases cap_add labels (get d "image")
