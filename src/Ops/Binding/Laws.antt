-- ===== src/Ops/Binding/Laws.antt =====
-- What `Op.call` refuses.
use aisb.Prelude.{
  String, ◌≡◌, refl, sym, ap, ◌∙◌, inl, inr, Bool, true, false, not, ◌&&◌, none, List, [], ◌∷◌,
  arith, Dict, get, keys, contains, contains-minus, All, Bool-cases,
}
use aisb.Prelude.Results.{Result, ok, err, >>=-eq-ok}
use aisb.Ops.Binding.{
  Value, Param, Arguments, Error, Default, no_default, given, missing_argument, is_variadic,
  is_required, bind_one, bind_all, bind, refuse_unknown, names_of,
}

get-none : {V : Type 0} (d : Dict V) (k : String) → contains (keys d) k ≡ false → get d k ≡ none
unfolding get contains
get-none [] k h = refl
get-none ((j, v) ∷ d) k h = ground (arith, h, get-none d k)

refuse_unknown-ok :
    (unknown : List String) (bound : Result Error Arguments) (a : Arguments)
    → refuse_unknown unknown bound ≡ ok a
    → (unknown ≡ []) × (bound ≡ ok a)
refuse_unknown-ok [] bound a h = (refl, h)
refuse_unknown-ok (x ∷ xs) bound a h = cc

required_default :
    (d : Default) (b : Bool)
    → elim d [ no_default ↦ not b | given _ ↦ false ] ≡ true
    → (d ≡ no_default) × (b ≡ false)
required_default no_default b h = (refl, ground (arith, h))
required_default (given v) b h = cc

required_parts :
    (p : Param) → is_required p ≡ true → (p.default ≡ no_default) × (is_variadic p ≡ false)
unfolding is_required
required_parts p h = required_default p.default (is_variadic p) h

known : {a b : Bool} → a ≡ true → (a && not b) ≡ false → b ≡ true
known {a} {b} h e = ground (arith, h, e)

module _ (kwargs : Dict Value) where
  bind_one-missing :
      (p : Param) (a b : Arguments)
      → is_required p ≡ true
      → contains (keys kwargs) p.name ≡ false
      → bind_one kwargs p a ≡ ok b
      → ⊥
  unfolding bind_one
  bind_one-missing p a b r absent h =
      let (open_one, single) = required_parts p r in
      let missing : bind_one kwargs p a ≡ err (missing_argument p.name) =
        rw (single, get-none kwargs p.name absent, open_one) refl in
      cc

  bind_all-required :
      (params : List Param) (a b : Arguments)
      → bind_all kwargs params a ≡ ok b
      → All (λ p. is_required p ≡ true → contains (keys kwargs) p.name ≡ true) params
  unfolding bind_all
  bind_all-required [] a b h = tt
  bind_all-required (p ∷ params) a b h =
      let (c, f, g) = >>=-eq-ok (bind_one kwargs p a) _ h in
      (
        (λ r. elim (Bool-cases (contains (keys kwargs) p.name)) [
          | inl e ↦ e
          | inr e ↦ elim (bind_one-missing p a c r e f) [ ]
        ]),
        bind_all-required params c b g,
      )

  -- If a call's arguments are bound to the parameters, then every one of them names a parameter, and
  -- every parameter that is required is among them.
  pub bind_checks :
      (params : List Param) (a : Arguments)
      → bind params kwargs ≡ ok a
      → ((x : String) → contains (keys kwargs) x ≡ true → contains (names_of params) x ≡ true)
        × All (λ p. is_required p ≡ true → contains (keys kwargs) p.name ≡ true) params
  unfolding bind contains
  bind_checks params a h =
      let (none_unknown, bound) = refuse_unknown-ok _ _ a h in
      (
        (λ x e. known e (
            sym (contains-minus (keys kwargs) (names_of params) x)
            ∙ ap (λ xs. contains xs x) none_unknown)),
        bind_all-required params _ a bound,
      )
