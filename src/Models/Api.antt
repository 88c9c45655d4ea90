-- ===== src/Models/Api.antt =====
-- src/aisb/models.py: `to_api`. Where the body leaves out what is None, the record holds none.
use aisb.Prelude.{
  String, Bool, true, not, Option, none, some, List, [], ◌∷◌, ◌==◌, ◌||◌, Dict, put, keep, has_code,
  partition, if◌then◌else◌,
}
use aisb.Prelude.Results.{Result, ok, err, ◌>>=◌}
use aisb.Ops.Binding.{Value, null, flag, number, text, texts, table}
use aisb.Yaml.Text.{ℤ}
use aisb.Models.{
  Error, bad_split, bad_restart, bad_size, type_error, World, RunSpec, truthy, or_error,
}
use aisb.Models.Ports.{Binding, publish_all}

pub record Restart : Type 0 where
  pub name : String
  pub maximum_retry_count : ℤ

-- `HostConfig`
pub record HostConfig : Type 0 where
  pub binds : Option (List String)
  pub port_bindings : Option (Dict (List Binding))
  pub restart_policy : Option Restart
  pub network_mode : Option Value
  pub memory : Option Value
  pub nano_cpus : Option ℤ
  pub auto_remove : Option Bool
  pub pid_mode : Option Value
  pub cap_add : Option (List String)
  pub privileged : Option Value

-- the body; `networking` is the network and the aliases on it
pub record Body : Type 0 where
  pub image : Option Value
  pub cmd : Option (List String)
  pub entrypoint : Option (List String)
  pub env : Option (List String)
  pub labels : Dict String
  pub working_dir : Option Value
  pub user : Option Value
  pub tty : Option Value
  pub exposed_ports : Option (Dict (Unit {0}))
  pub volumes : Option (Dict (Unit {0}))
  pub health : Option Value
  pub hostname : Option Value
  pub host : HostConfig
  pub networking : Option (Value × List String)

-- MANAGED_KEY
abbrev pub managed_key : String
managed_key = "aisb.managed"

-- x or None, for a list or a dict
abbrev pub or_none : {A : Type 0} → List A → Option (List A)
or_none [] = none
or_none (x ∷ xs) = some (x ∷ xs)

-- v or None
abbrev pub value_or_none : Value → Option Value
value_or_none v = if truthy v then some v else none

-- what `compact` keeps
abbrev pub compacted : Value → Option Value
compacted null = none
compacted (flag b) = some (flag b)
compacted (number n) = some (number n)
compacted (text t) = some (text t)
compacted (texts ts) = some (texts ts)
compacted (table d) = some (table d)

-- {v: {} for v in volumes}
as_keys : List String → Dict (Unit {0}) → Dict (Unit {0})
unfolding put
as_keys [] d = d
as_keys (v ∷ vs) d = as_keys vs (put d v tt)

-- f(v) if v else None
abbrev pub if_given : {A : Type 0} → Value → Result Error A → Result Error (Option A)
if_given v r = if truthy v then (r >>= λ a. ok (some a)) else ok none

abbrev pub or_zero : String → String
or_zero count = if count == "" then "0" else count

module _ (w : World) where
  -- `parse_restart`
  unfoldable pub parse_restart : String → Result Error Restart
  unfolding partition
  parse_restart policy =
      let p = partition 58 policy in
      if p.before == "no"
        || p.before == "always"
        || p.before == "unless-stopped"
        || p.before == "on-failure"
      then (or_error (bad_restart policy) (w.parse_int (or_zero p.after)) >>= λ count.
          ok (record { name = p.before; maximum_retry_count = count }))
      else err (bad_restart policy)

  restart_of : Value → Result Error Restart
  unfolding parse_restart
  restart_of (text t) = parse_restart t
  restart_of _ = err type_error

  -- `parse_size`
  unfoldable pub parse_size : Value → Result Error Value
  parse_size (number n) = ok (number n)
  parse_size (flag b) = ok (flag b)
  parse_size (text t) = or_error (bad_size t) (w.bytes_of t) >>= λ n. ok (number n)
  parse_size _ = err type_error

  abbrev pub split_text : Value → Result Error (List String)
  split_text (text t) = or_error (bad_split t) (w.split t)
  split_text _ = err type_error

  -- `to_api`
  unfoldable pub to_api : RunSpec → Bool → Result Error Body
  unfolding publish_all parse_size has_code put as_keys restart_of
  to_api s auto_remove =
      publish_all w s.ports (record { exposed = []; bindings = [] }) >>= λ published.
      if_given s.restart (restart_of s.restart) >>= λ restart.
      if_given s.memory (parse_size s.memory) >>= λ memory.
      if_given s.cpus (w.nanos_of s.cpus) >>= λ nano_cpus.
      if_given s.entrypoint (split_text s.entrypoint) >>= λ entrypoint. ok (record {
        image = compacted s.image;
        cmd = or_none s.cmd;
        entrypoint = entrypoint;
        env = or_none s.env;
        labels = put s.labels managed_key "true";
        working_dir = compacted s.workdir;
        user = compacted s.user;
        tty = value_or_none s.tty;
        exposed_ports = or_none published.exposed;
        volumes = or_none (as_keys (keep (λ v. not (has_code 58 v)) s.volumes) []);
        health = value_or_none s.health_cmd;
        hostname = compacted s.hostname;
        host = record {
          binds = or_none (keep (has_code 58) s.volumes);
          port_bindings = or_none published.bindings;
          restart_policy = restart;
          network_mode = compacted s.network;
          memory = memory;
          nano_cpus = nano_cpus;
          auto_remove = if auto_remove then some true else none;
          pid_mode = compacted s.pid;
          cap_add = or_none s.cap_add;
          privileged = value_or_none s.privileged;
        };
        networking =
            if truthy s.network
            then (elim s.aliases [ [] ↦ none | a ∷ rest ↦ some (s.network, a ∷ rest) ])
            else none;
      })
