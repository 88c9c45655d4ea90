-- ===== src/Stack/Parse/Placed.antt =====
-- `parse` of src/aisb/stack.py: what it makes of each service.
use Prim.Native.String
use mathlib.Core.Path.{subst}
use aisb.Prelude.{
  String, ◌≡◌, refl, ◌∙◌, false, not, some, List, [], ◌∷◌, Dict, get, put, get-put, All, keys,
  or_else, inter, sorted,
}
use aisb.Prelude.Results.{ok, ◌>>◌, >>=-eq-ok, ok_injective}
use aisb.Ops.Binding.{Value, text}
use aisb.Models.{RunSpec, joined, items_of, from_dict, is_any}
use aisb.Models.Api.{to_api}
use aisb.Stack.{Ready, Service, stack_key, service_key, hash_key}
use aisb.Stack.Parse.{
  Error, World, parse_service, parse_services, made, placed, hashed, prefix_volume, in_service,
  fail_if, popped, ready_of, managed, managed_keys, bad_service_name, is_name,
}

-- The container of a service: its name, its network and alias, and the labels it is found by.
pub record IsPlaced (name svc : String) (s : Service) : Type 0 where
  pub same_name : s.name ≡ svc
  pub container : s.spec.name ≡ text (joined name "-" svc)
  pub network : s.spec.network ≡ text (String.◌++◌ name "_default")
  pub aliases : s.spec.aliases ≡ svc ∷ []
  pub of_stack : get s.spec.labels stack_key ≡ some name
  pub of_service : get s.spec.labels service_key ≡ some svc
  pub of_digest : get s.spec.labels hash_key ≡ some s.digest

-- the labels that `parse` adds are read back, whatever labels a service has
module _ (d : Dict String) (name svc digest : String) where
  abbrev labelled : Dict String
  unfolding put
  labelled = put (put (put d stack_key name) service_key svc) hash_key digest

  get-labelled :
      (get labelled stack_key ≡ some name)
      × (get labelled service_key ≡ some svc)
      × (get labelled hash_key ≡ some digest)
  unfolding labelled put
  get-labelled = (
    get-put (put (put d stack_key name) service_key svc) hash_key stack_key digest
        ∙ get-put (put d stack_key name) service_key stack_key svc
        ∙ get-put d stack_key stack_key name,
    get-put (put (put d stack_key name) service_key svc) hash_key service_key digest
        ∙ get-put (put d stack_key name) service_key service_key svc,
    get-put (put (put d stack_key name) service_key svc) hash_key hash_key digest,
  )

module _ (w : World) where
  made-IsPlaced :
      (name svc : String) (declared deps : List String) (ready : Ready) (spec : RunSpec)
      {s : Service}
      → made w svc deps ready (placed name svc declared spec) ≡ ok s
      → IsPlaced name svc s
  unfolding to_api put prefix_volume made placed hashed
  made-IsPlaced name svc declared deps ready spec h =
      let found =
        >>=-eq-ok (in_service svc (to_api w.models (placed name svc declared spec) false)) _ h in
      let labels = get-labelled spec.labels name svc (w.digest found.0) in
      subst (IsPlaced name svc) (ok_injective {E = Error} found.2) (record {
        same_name = refl;
        container = refl;
        network = refl;
        aliases = refl;
        of_stack = labels.0;
        of_service = labels.1;
        of_digest = labels.2;
      })

  parse_service-IsPlaced :
      (name : String) (declared : List String) (svc : String) (conf : Dict Value) {s : Service}
      → parse_service w name declared svc conf ≡ ok s
      → IsPlaced name svc s
  unfolding parse_service
  parse_service-IsPlaced name declared svc conf h =
      let depending =
        >>=-eq-ok
          (fail_if (not (is_name svc)) (bad_service_name svc)
            >> in_service svc (items_of (get conf "depends_on")))
          _ h in
      let ready =
        >>=-eq-ok (ready_of svc (or_else (get conf "ready") (text "probe"))) _ depending.2 in
      let spec =
        >>=-eq-ok
          (fail_if (is_any (inter managed (keys (popped conf))))
              (managed_keys svc (sorted (inter managed (keys (popped conf)))))
            >> in_service svc (from_dict w.models (popped conf)))
          _ ready.2 in
      made-IsPlaced name svc declared depending.0 ready.0 spec.0 spec.2

  pub parse_services-IsPlaced :
      (name : String) (declared : List String) (raw : Dict (Dict Value)) {services : Dict Service}
      → parse_services w name declared raw ≡ ok services
      → All (λ e. IsPlaced name e.0 e.1) services
  unfolding parse_services
  parse_services-IsPlaced name declared [] h =
      subst (All (λ e. IsPlaced name e.0 e.1)) (ok_injective {E = Error} h) tt
  parse_services-IsPlaced name declared ((svc, conf) ∷ raw) h =
      let first = >>=-eq-ok (parse_service w name declared svc conf) _ h in
      let rest = >>=-eq-ok (parse_services w name declared raw) _ first.2 in
      subst (All (λ e. IsPlaced name e.0 e.1)) (ok_injective {E = Error} rest.2) (
        parse_service-IsPlaced name declared svc conf first.1,
        parse_services-IsPlaced name declared raw rest.1,
      )
