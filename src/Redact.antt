-- ===== src/Redact.antt =====
-- src/aisb/redact.py: secrets in arguments, labels and health checks are replaced by placeholders,
-- and put back. The regular expressions, upper case and `shlex` are parameters.
pub mod Fill
pub mod Blind
mod Tests
use aisb.Prelude.{
  ℕ, suc, Bool, true, false, not, ◌&&◌, Option, none, some, List, [], ◌∷◌, ◌++◌, map, codes,
  decimal, eqb, if◌then◌else◌,
}
use aisb.Yaml.Text.{Text, begins, is_empty, lstrip_of, text_eq}

-- An entry of TOKEN_PATTERNS: its pattern, and `sub` of it.
pub record Token : Type 0 where
  pub pattern : Text
  pub sub : Text → Text → Text

-- SECRET_KEY.search, str.upper, the replacement of the password of a URL, and shlex.
pub record Patterns : Type 0 where
  pub is_secret : Text → Bool
  pub upper : Text → Text
  pub hide_password : Text → Text → Text
  pub tokens : List Token
  pub split : Text → Option (List Text)
  pub join : List Text → Text

unfoldable pub placeholder : Text → Text
placeholder name = codes "<redacted:" ++ name ++ codes ">"

-- s.replace(c, "_"), for one character
abbrev underscored : ℕ → Text → Text
underscored k = map (λ c. if eqb c k then b'_' else c)

unfoldable pub secret_flag : Patterns → Text → Bool
unfolding lstrip_of
secret_flag p flag =
    begins flag (codes "-")
    && p.is_secret (p.upper (underscored b'-' (lstrip_of (λ c. eqb c b'-') flag)))

-- the pattern of the URLs, which is left out of the loop
abbrev is_url : Text → Bool
is_url pattern = begins pattern (codes "\\b[a-z][a-z0-9+.-]*://")

hide_tokens : List Token → Text → Text → Text
hide_tokens [] name out = out
hide_tokens (t ∷ ts) name out =
    hide_tokens ts name (if is_url t.pattern then out else t.sub (placeholder name) out)

-- `_tokens`
unfoldable pub tokens : Patterns → Text → Text → Text × Bool
unfolding hide_tokens placeholder
tokens p value name =
    let out = hide_tokens p.tokens name (p.hide_password name value) in
    (out, not (text_eq out value))

-- a.partition("=")
pub record Parts : Type 0 where
  pub flag : Text
  pub has_eq : Bool
  pub value : Text

unfoldable pub parts_of : Text → Parts
parts_of [] = record { flag = []; has_eq = false; value = [] }
parts_of (c ∷ s) =
    let rest = parts_of s in
    if eqb c b'='
    then record { flag = []; has_eq = true; value = s }
    else record { flag = c ∷ rest.flag; has_eq = rest.has_eq; value = rest.value }

-- argv[i + 1], if there is one and it starts with no dash
abbrev pub has_value : List Text → Bool
has_value [] = false
has_value (a ∷ argv) = not (begins a (codes "-"))

abbrev pub named : Text → Text → Text
named prefix name = prefix ++ b':' ∷ name

-- The masked arguments, and the names of the placeholders.
abbrev pub Masked : Type 0
Masked = List Text × List Text

abbrev pub put_masked : Text → Text → Masked → Masked
put_masked a name (out, names) = (a ∷ out, name ∷ names)

abbrev pub put_plain : Text → Masked → Masked
put_plain a (out, names) = (a ∷ out, names)

abbrev put_token : Text × Bool → Text → Masked → Masked
put_token (a, hit) name m = if hit then put_masked a name m else put_plain a m

-- What the loop of `args` does at the argument `i` that is not masked, where `rest` and `masking`
-- are what comes of the arguments after it, and `valued` tells whether the next can be a value.
unfoldable pub at_argument : Patterns → Text → ℕ → Text → Bool → Masked → Masked → Masked
unfolding tokens parts_of secret_flag placeholder
at_argument p prefix i a valued rest masking =
    let parts = parts_of a in
    let name = named prefix parts.flag in
    let here = named prefix (codes (decimal i)) in
    if parts.has_eq && not (is_empty parts.value) && secret_flag p parts.flag
    then put_masked (parts.flag ++ b'=' ∷ placeholder name) name rest
    else if not parts.has_eq && secret_flag p a && valued
    then put_plain a masking
    else put_token (tokens p a here) here rest

unfoldable pub args_from : Patterns → Text → ℕ → Option Text → List Text → Masked
unfolding at_argument placeholder
args_from p prefix i mask_next [] = ([], [])
args_from p prefix i (some name) (a ∷ argv) =
    put_masked (placeholder name) name (args_from p prefix (suc i) none argv)
args_from p prefix i none (a ∷ argv) =
    let rest = args_from p prefix (suc i) none argv in
    let masking = args_from p prefix (suc i) (some (named prefix a)) argv in
    at_argument p prefix i a (has_value argv) rest masking

unfoldable pub args : Patterns → List Text → Text → Masked
unfolding args_from
args p argv prefix = args_from p prefix 0 none argv

-- a text that does not parse is masked as one word
abbrev hit_name : Text × Bool → Text → Text × List Text
hit_name (out, hit) prefix = (out, if hit then prefix ∷ [] else [])

abbrev joined_if : Patterns → Text → Masked → Text × List Text
joined_if p text (words, []) = (text, [])
joined_if p text (words, n ∷ names) = (p.join words, n ∷ names)

unfoldable pub shell : Patterns → Option Text → Text → Option Text × List Text
unfolding tokens args
shell p none prefix = (none, [])
shell p (some []) prefix = (some [], [])
shell p (some (c ∷ s)) prefix = elim (p.split (c ∷ s)) [
  | none ↦ (let (out, names) = hit_name (tokens p (c ∷ s) prefix) prefix in (some out, names))
  | some words ↦ (let (out, names) = joined_if p (c ∷ s) (args p words prefix) in (some out, names))
]

abbrev or_nothing : Option Text → Text
or_nothing none = []
or_nothing (some t) = t

abbrev health_prefix : Text
health_prefix = codes "health"

abbrev health_shell : Text → Option Text × List Text → Masked
health_shell first (text, names) = (first ∷ or_nothing text ∷ [], names)

abbrev health_args : Patterns → Text → List Text → Masked
health_args p first rest =
    if text_eq first (codes "CMD")
    then put_plain first (args p rest health_prefix)
    else (first ∷ rest, [])

unfoldable pub healthcheck : Patterns → List Text → Masked
unfolding args shell
healthcheck p [] = ([], [])
healthcheck p (first ∷ text ∷ []) =
    if text_eq first (codes "CMD-SHELL")
    then health_shell first (shell p (some text) health_prefix)
    else health_args p first (text ∷ [])
healthcheck p (first ∷ rest) = health_args p first rest

abbrev pub Labels : Type 0
Labels = List (Text × Text)

abbrev label_key : Text → Text
label_key k = underscored b'-' (underscored b'.' k)

abbrev masked_label : Patterns → Text → Text → Text → Text × Bool
masked_label p k v name =
    if not (is_empty v) && p.is_secret (p.upper (label_key k))
    then (placeholder name, true)
    else tokens p v name

abbrev put_label : Text → Text × Bool → Text → Labels × List Text → Labels × List Text
put_label k (v, hit) name (out, names) = ((k, v) ∷ out, if hit then name ∷ names else names)

unfoldable pub labels : Patterns → Labels → Labels × List Text
unfolding tokens placeholder
labels p [] = ([], [])
labels p ((k, v) ∷ rest) =
    let name = codes "label:" ++ k in put_label k (masked_label p k v name) name (labels p rest)
