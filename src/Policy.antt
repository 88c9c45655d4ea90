-- ===== src/Policy.antt =====
-- src/aisb/policy.py: the rules that `invoke` asks before an operation runs. A rule's tables are
-- records here: what TOML holds in a field is given in the form that the code brings it to.
pub mod Matching
pub mod Window
pub mod Conditions
pub mod Check
mod Tests
use aisb.Prelude.{ℕ, String, Option, Bool, List, [], ◌∷◌}
use aisb.Fleet.Inventory.{Host, Inventory}

-- src/aisb/context.py: who acts, from where, and on which host of the fleet
pub record Ctx : Type 0 where
  pub user : String
  pub source : String
  pub host : Option Host
  pub ticket : Option String
  pub run_id : Option String

-- A field that holds nothing, one value or several.
pub data Values : Type 0 where
  absent : Values
  value : String → Values
  values : List String → Values

-- `_many`
unfoldable pub many : Values → List String
many absent = []
many (value v) = v ∷ []
many (values vs) = vs
