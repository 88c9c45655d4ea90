-- ===== src/Fleet/Runner.antt =====
-- src/aisb/fleet/runner.py: one function run over many hosts, with retries, batches and `fail_fast`.
-- What the function does on a host, attempt by attempt, and the clock, are parameters; threads,
-- tunnels and durations are left out, since a batch's results stand in the order of its hosts.
pub mod Laws
mod Tests
use Prim.Native.String
use Prim.Native.Char.{code}
use aisb.Prelude.{
  ℕ, zero, suc, ◌+◌, String, Bool, true, false, not, ◌&&◌, ◌||◌, Option, none, some, List, [], ◌∷◌,
  ◌++◌, ◌==◌, map, any, keep, length, take, drop, eqb, if◌then◌else◌,
}
use aisb.Fleet.Inventory.{Host}
use aisb.Yaml.Text.{ℤ, pos, negsuc}

-- What `fn` returns, as far as `_one` looks: a dict, with its "ok", "reason" and "error".
pub data Reply : Type 0 where
  table : (ok : Option Bool) (reason error : Option String) → Reply
  other : Reply

-- How `fn` ends on a host. `unavailable` is DockerUnavailable or ConnectionError; any other exception
-- that `_one` lets pass is left out.
pub data Ending : Type 0 where
  returned : Reply → Ending
  unreachable failed unavailable : String → Ending

pub record HostResult : Type 0 where
  pub host : String
  pub ok : Bool
  pub result : Option Reply
  pub error : Option String
  pub transient : Bool
  pub attempts : ℕ

-- isinstance(res, dict) and res.get("ok") is False
abbrev pub is_unmet : Reply → Bool
is_unmet (table (some false) r e) = true
is_unmet (table (some true) r e) = false
is_unmet (table none r e) = false
is_unmet other = false

-- x or y, for texts
abbrev pub or_else_text : Option String → String → String
or_else_text none d = d
or_else_text (some t) d = if t == "" then d else t

abbrev pub unmet_reason : Reply → String
unmet_reason (table o reason error) = or_else_text reason (or_else_text error "condition not met")
unmet_reason other = "condition not met"

abbrev pub plain_failure : Host → String → Bool → HostResult
plain_failure h message transient = record {
  host = h.name;
  ok = false;
  result = none;
  error = some message;
  transient = transient;
  attempts = 1;
}

infixr 5 ◌⋅◌
abbrev ◌⋅◌ : String → String → String
s ⋅ t = String.◌++◌ s t

abbrev pub docker_hint : Host → String → Option String → String
docker_hint h path none = ""
docker_hint h path (some ssh) =
    if ssh == ""
    then ""
    else " (is Docker running on " ⋅ h.name ⋅ ", and may " ⋅ ssh ⋅ " open " ⋅ path
      ⋅ "? docker group)"

-- s.removeprefix(p), as what follows the prefix
abbrev pub after_prefix : String → String → Option String
after_prefix String.[] s = some s
after_prefix (String.◌∷◌ c p) String.[] = none
after_prefix (String.◌∷◌ c p) (String.◌∷◌ d s) =
    if eqb (code c) (code d) then after_prefix p s else none

-- DEFAULT_SOCKET
abbrev pub default_socket : String
default_socket = "/var/run/docker.sock"

-- `socket` of `Host`
unfoldable pub socket : Host → String
socket h =
    let path = or_else_text h.docker default_socket in
    elim (after_prefix "unix://" path) [ some rest ↦ rest | none ↦ path ]

-- `_one`
unfoldable pub one : Host → Ending → HostResult
unfolding socket
one h (returned r) = record {
  host = h.name;
  ok = not (is_unmet r);
  result = some r;
  error = if is_unmet r then some (unmet_reason r) else none;
  transient = false;
  attempts = 1;
}
one h (unreachable message) = plain_failure h message true
one h (failed message) = plain_failure h message false
one h (unavailable message) = plain_failure h (message ⋅ docker_hint h (socket h) h.ssh) false

-- What runs on a host: how the n-th attempt ends, if it ends in time, and whether the deadline has
-- passed then; `timed_out` is the message for an attempt that does not end in time.
pub record Job : Type 0 where
  pub ending : ℕ → Option Ending
  pub is_late : ℕ → Bool
  pub timed_out : String

abbrev pub ended : Host → Job → ℕ → Option Ending → HostResult
ended h job n (some e) = record (one h e) { attempts = n }
ended h job n none = record (plain_failure h job.timed_out false) { attempts = n }

-- the result of attempt n
abbrev pub result_of : Host → Job → ℕ → HostResult
result_of h job n = ended h job n (job.ending n)

-- the loop of `_attempt`, from attempt n on; `left` attempts may still follow it
unfoldable pub attempt_from : Host → Job → (left n : ℕ) → HostResult
unfolding one
attempt_from h job zero n = result_of h job n
attempt_from h job (suc left) n =
    let res = result_of h job n in
    let next = attempt_from h job left (n + 1) in
    if res.ok || not res.transient || job.is_late n then res else next

-- `_attempt`
unfoldable pub attempt : Host → Job → (retries : ℕ) → HostResult
unfolding attempt_from
attempt h job retries = attempt_from h job retries 1

-- batch or len(hosts) or 1
unfoldable pub size_of_batch : Option ℤ → List Host → ℤ
size_of_batch none [] = pos 1
size_of_batch none (h ∷ hosts) = pos (length (h ∷ hosts))
size_of_batch (some (pos zero)) [] = pos 1
size_of_batch (some (pos zero)) (h ∷ hosts) = pos (length (h ∷ hosts))
size_of_batch (some (pos (suc n))) hosts = pos (suc n)
size_of_batch (some (negsuc n)) hosts = negsuc n

-- The results in host order, and the hosts that were skipped.
pub record Fanned : Type 0 where
  pub results : List HostResult
  pub skipped : List String

abbrev pub names_of : List Host → List String
names_of hosts = map (λ h. h.name) hosts

-- one round of the loop, on a batch
unfoldable pub batch_step : (Host → HostResult) → Bool → List Host → Fanned → Fanned
batch_step run fail_fast chunk f =
    if fail_fast && any (λ r. not r.ok) f.results
    then record f { skipped = f.skipped ++ names_of chunk }
    else record f { results = f.results ++ map run chunk }

-- the loop; every round takes a host at least, so that one round for each host is enough
unfoldable pub fan_from : (Host → HostResult) → Bool → ℕ → ℕ → List Host → Fanned → Fanned
unfolding batch_step
fan_from run fail_fast size zero hosts f = f
fan_from run fail_fast size (suc rounds) [] f = f
fan_from run fail_fast size (suc rounds) (h ∷ hosts) f =
    fan_from run fail_fast size rounds (drop size (h ∷ hosts))
      (batch_step run fail_fast (take size (h ∷ hosts)) f)

-- range(0, len(hosts), size): with a negative size, no round
abbrev pub fan_rounds : (Host → HostResult) → Bool → ℤ → List Host → Fanned → Fanned
fan_rounds run fail_fast (pos size) hosts f = fan_from run fail_fast size (length hosts) hosts f
fan_rounds run fail_fast (negsuc n) hosts f = f

-- `fan_out`
unfoldable pub fan_out :
    List Host → (Host → Job) → Option ℤ → (fail_fast : Bool) → (retries : ℕ) → Fanned
unfolding fan_from size_of_batch attempt
fan_out hosts job batch fail_fast retries =
    fan_rounds (λ h. attempt h (job h) retries) fail_fast (size_of_batch batch hosts) hosts
      (record { results = []; skipped = [] })

pub record Summary : Type 0 where
  pub hosts : ℕ
  pub ok : ℕ
  pub failed : List String
  pub skipped : List String

unfoldable pub summary : List HostResult → List String → Summary
summary results skipped = record {
  hosts = length results + length skipped;
  ok = length (keep (λ r. r.ok) results);
  failed = map (λ r. r.host) (keep (λ r. not r.ok) results);
  skipped = skipped;
}
