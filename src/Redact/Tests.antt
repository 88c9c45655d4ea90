-- ===== src/Redact/Tests.antt =====
-- A command line with secrets, masked, and put back.
use aisb.Prelude.{◌≡◌, refl, some, List, [], ◌∷◌, codes}
use aisb.Yaml.Text.{begins}
use aisb.Redact.{Patterns, Labels, args, labels, healthcheck}
use aisb.Redact.Fill.{Piece, plain, masked, fill, written, filled}
use aisb.Redact.Blind.{stop, assigned, next, args-blind}

abbrev patterns : Patterns
patterns = record {
  is_secret = λ s. begins s (codes "pw");
  upper = λ s. s;
  hide_password = λ name s. s;
  tokens = [];
  split = λ s. some (s ∷ []);
  join = λ words. codes "joined";
}

redact_runs : Unit {0}
unfolding args labels healthcheck fill written filled
redact_runs = tt

masked_args :
    args patterns
      (codes "run" ∷ codes "--pw=a" ∷ codes "--pw2" ∷ codes "b" ∷ codes "--pw" ∷ codes "-v" ∷ [])
      (codes "arg")
    ≡ (
      codes "run"
          ∷ codes "--pw=<redacted:arg:--pw>"
          ∷ codes "--pw2"
          ∷ codes "<redacted:arg:--pw2>"
          ∷ codes "--pw"
          ∷ codes "-v"
          ∷ [],
      codes "arg:--pw" ∷ codes "arg:--pw2" ∷ [],
    )
unfolding redact_runs
masked_args = refl

masked_labels : labels patterns ((codes "pw.db", codes "x") ∷ (codes "tier", codes "y") ∷ []) ≡ (
  (codes "pw.db", codes "<redacted:label:pw.db>") ∷ (codes "tier", codes "y") ∷ [],
  codes "label:pw.db" ∷ [],
)
unfolding redact_runs
masked_labels = refl

abbrev supplied : Labels
supplied = (codes "arg:--pw", codes "s3") ∷ []

abbrev parts : List Piece
parts =
    plain (codes "--pw=") ∷ masked (codes "arg:--pw") ∷ plain (codes ">") ∷ masked (codes "x") ∷ []

put_back :
    fill (codes "--pw=<redacted:arg:--pw>><redacted:x><redacted:>") supplied
    ≡ (codes "--pw=s3><redacted:x><redacted:>", codes "x" ∷ [])
unfolding redact_runs
put_back = refl

args-blind_example :
    args patterns (codes "--pw=a" ∷ codes "--pw" ∷ codes "b" ∷ []) (codes "arg")
    ≡ args patterns (codes "--pw=c" ∷ codes "--pw" ∷ codes "d" ∷ []) (codes "arg")
unfolding redact_runs
args-blind_example = args-blind patterns (codes "arg") (
    assigned (codes "--pw") (codes "a") (codes "c") refl refl refl refl
      (next (codes "--pw") (codes "b") (codes "d") refl refl refl refl stop))
