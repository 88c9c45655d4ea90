-- ===== src/Ops/Binding.antt =====
-- How `Op.call` (src/aisb/ops.py) binds the arguments of a call to an operation's parameters, with
-- `Param.coerce` and the `kv` of src/aisb/util.py that it asks.
pub mod Laws
use Prim.Native.String
use aisb.Prelude.{
  ℕ, zero, suc, String, ◌≡◌, refl, sym, ap, ◌∙◌, ◌⊎◌, inl, inr, Bool, true, false, not, ◌&&◌, ◌||◌,
  Option, none, some, List, [], ◌∷◌, ◌++◌, ◌==◌, arith, Dict, get, put, keys, minus, contains,
  sorted, partition, if◌then◌else◌, map,
}
use aisb.Prelude.Results.{Result, ok, err, ◌>>=◌}

-- What an argument holds.
pub data Value : Type 0 where
  null : Value
  flag : Bool → Value
  number : ℕ → Value
  text : String → Value
  texts : List String → Value
  table : Dict String → Value

-- POSITIONAL_ONLY and POSITIONAL_OR_KEYWORD are `positional`.
pub data ParamKind : Type 0 where
  positional variadic keyword : ParamKind

-- `no_default` is `EMPTY`.
pub data Default : Type 0 where
  no_default : Default
  given : Value → Default

pub record Param : Type 0 where
  pub name : String
  pub kind : ParamKind
  pub default : Default
  pub mapping : Bool

pub data Error : Type 0 where
  unknown_arguments : List String → Error
  missing_argument : String → Error
  expected_pair : String → Error
  not_iterable : Error

-- `variadic`
unfoldable pub is_variadic : Param → Bool
is_variadic p = elim p.kind [ variadic ↦ true | _ ↦ false ]

-- `required`
unfoldable pub is_required : Param → Bool
unfolding is_variadic
is_required p = elim p.default [ no_default ↦ not (is_variadic p) | given _ ↦ false ]

-- what iterating over a text gives
abbrev pub letters : String → List String
letters String.[] = []
letters (String.◌∷◌ c s) = String.◌∷◌ c "" ∷ letters s

-- the loop of `kv`; "=" is code 61
unfoldable pub pairs_of : List String → Dict String → Result Error (Dict String)
unfolding partition
pairs_of [] out = ok out
pairs_of (item ∷ items) out =
    let p = partition 61 item in
    let rest = pairs_of items (put out p.before p.after) in
    if not p.found || p.before == "" then err (expected_pair item) else rest

unfoldable pub kv : Value → Result Error (Dict String)
unfolding pairs_of
kv null = ok []
kv (table d) = ok d
kv (texts items) = pairs_of items []
kv (text t) = pairs_of (letters t) []
kv (flag b) = err not_iterable
kv (number n) = err not_iterable

abbrev pub as_table : Result Error (Dict String) → Result Error Value
as_table (ok d) = ok (table d)
as_table (err e) = err e

-- `Param.coerce`
unfoldable pub coerce : Param → Value → Result Error Value
unfolding kv
coerce p null = ok null
coerce p v = if p.mapping then as_table (kv v) else ok v

-- args.extend(v or ()): what an argument for `*args` adds
abbrev pub spread : Option Value → Result Error (List Value)
spread none = ok []
spread (some null) = ok []
spread (some (flag b)) = if b then err not_iterable else ok []
spread (some (number zero)) = ok []
spread (some (number (suc n))) = err not_iterable
spread (some (text t)) = ok (map text (letters t))
spread (some (texts ts)) = ok (map text ts)
spread (some (table d)) = ok (map text (keys d))

abbrev pub value_or_default : Param → Option Value → Result Error Value
value_or_default p (some v) = coerce p v
value_or_default p none = elim p.default [
  | no_default ↦ err (missing_argument p.name)
  | given v ↦ ok v
]

-- What the function is called with: `*args` and `**kw`.
pub record Arguments : Type 0 where
  pub args : List Value
  pub kw : Dict Value

abbrev pub pass : Param → Value → Arguments → Arguments
pass p v a = elim p.kind [
  | keyword ↦ record a { kw = put a.kw p.name v }
  | _ ↦ record a { args = a.args ++ (v ∷ []) }
]

-- one round of the loop over the parameters
unfoldable pub bind_one : Dict Value → Param → Arguments → Result Error Arguments
unfolding is_variadic get coerce
bind_one kwargs p a =
    let many = (spread (get kwargs p.name)) >>= (λ vs. ok (record a { args = a.args ++ vs })) in
    let one = (value_or_default p (get kwargs p.name)) >>= (λ v. ok (pass p v a)) in
    if is_variadic p then many else one

unfoldable pub bind_all : Dict Value → List Param → Arguments → Result Error Arguments
unfolding bind_one
bind_all kwargs [] a = ok a
bind_all kwargs (p ∷ params) a = bind_one kwargs p a >>= (λ b. bind_all kwargs params b)

abbrev pub names_of : List Param → List String
names_of params = map (λ p. p.name) params

abbrev pub refuse_unknown : List String → Result Error Arguments → Result Error Arguments
refuse_unknown [] bound = bound
refuse_unknown (x ∷ xs) bound = err (unknown_arguments (sorted (x ∷ xs)))

unfoldable pub bind : List Param → Dict Value → Result Error Arguments
unfolding bind_all minus sorted
bind params kwargs =
    refuse_unknown (minus (keys kwargs) (names_of params))
      (bind_all kwargs params (record { args = []; kw = [] }))
