-- ===== src/Fleet/Health/Tests.antt =====
-- A host that went down, and one that is new.
use aisb.Prelude.{◌≡◌, refl, [], ◌∷◌, Dict, get, sorted, union, minus, contains, All}
use aisb.Fleet.Inventory.{dedupe}
use aisb.Fleet.Health.{healthy, degraded, down, Health, went_down, added, change, changes, only_in}
use aisb.Fleet.Health.Events.{IsTrue, changes-IsTrue}

abbrev calm : Dict Health
calm = ("web", record { verdict = degraded; reasons = "disk / 81%" ∷ [] }) ∷ []

abbrev alarm : Dict Health
alarm =
    ("web", record { verdict = down; reasons = "no route" ∷ [] })
    ∷ ("db", record { verdict = healthy; reasons = [] })
    ∷ []

events :
    changes calm alarm
    ≡ added "db" ∷ change "web" went_down degraded down ("no route" ∷ []) ("disk / 81%" ∷ []) ∷ []
unfolding changes only_in sorted union minus contains get dedupe
events = refl

changes-IsTrue_example : All (IsTrue calm alarm) (changes calm alarm)
changes-IsTrue_example = changes-IsTrue calm alarm
