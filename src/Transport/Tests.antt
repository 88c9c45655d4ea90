-- ===== src/Transport/Tests.antt =====
-- An operation under a plan, at work.
use aisb.Prelude.{ℕ, String, ◌≡◌, refl, none, List, [], ◌∷◌, has_text, All, ◌++◌}
use aisb.Prelude.Results.{Result, ok}
use aisb.Transport.{
  Kind, json, head, Request, request, note, Transport, Prog, done, send, take_note, run, dry_run,
}
use aisb.Transport.Preview.{IsRead, IsHeld, dry_run-only_reads}

abbrev Step : Type 0
Step = Prog String ℕ String ℕ

abbrev get_list : Request String
get_list = record { method = "GET"; path = "/containers/json"; payload = "" }

abbrev remove : Request String
remove = record { method = "DELETE"; path = "/containers/web"; payload = "force" }

abbrev probe : Request String
probe = record { method = "HEAD"; path = "/containers/web/archive"; payload = "" }

abbrev removal : Step
removal =
    send json get_list
      (λ a. take_note "warned" (send json remove (λ b. send head probe (λ c. done 3))))

abbrev idle : Transport String
idle = record { plan = none; sent = [] }

abbrev docker : List (Kind × Request String) → Kind → Request String → Result String ℕ
docker sent k r = ok 7

runs : Unit {0}
unfolding run dry_run has_text
runs = tt

removal_planned : dry_run docker removal idle ≡ (
  ok 3,
  note "warned" ∷ request remove ∷ [],
  record { plan = none; sent = (head, probe) ∷ (json, get_list) ∷ [] },
)
unfolding runs
removal_planned = refl

removal_done :
    run docker removal idle
    ≡ (ok 3, record { plan = none; sent = (head, probe) ∷ (json, remove) ∷ (json, get_list) ∷ [] })
unfolding runs
removal_done = refl

dry_run-only_reads_example :
    (news : List (Kind × Request String)) × ((dry_run docker removal idle).2.sent ≡ news ++ [])
    × All IsRead news
    × All IsHeld (dry_run docker removal idle).1
    × ((dry_run docker removal idle).2.plan ≡ none)
dry_run-only_reads_example = dry_run-only_reads docker removal idle
