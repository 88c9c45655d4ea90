-- ===== src/Stack/Plan.antt =====
-- `plan`: every service is in one class, and which.
use aisb.Prelude.{String, ◌≡◌, refl, Bool, true, false, List, [], ◌∷◌, ◌++◌, if◌then◌else◌}
use aisb.Stack.{Stack, Class, missing, stopped, drift, fine, Classified, added}

abbrev pub same_class : Class → Class → Bool
same_class missing missing = true
same_class stopped stopped = true
same_class drift drift = true
same_class fine fine = true
same_class _ _ = false

-- the list of a class
abbrev pub listed : Class → Classified → List String
listed missing c = c.missing
listed stopped c = c.stopped
listed drift c = c.drift
listed fine c = c.fine

-- a service joins the list of its class, and no other
pub listed-added :
    (k c : Class) (n : String) (x : Classified)
    → listed k (added c n x) ≡ (if same_class k c then listed k x ++ (n ∷ []) else listed k x)
listed-added missing missing n x = refl
listed-added missing stopped n x = refl
listed-added missing drift n x = refl
listed-added missing fine n x = refl
listed-added stopped missing n x = refl
listed-added stopped stopped n x = refl
listed-added stopped drift n x = refl
listed-added stopped fine n x = refl
listed-added drift missing n x = refl
listed-added drift stopped n x = refl
listed-added drift drift n x = refl
listed-added drift fine n x = refl
listed-added fine missing n x = refl
listed-added fine stopped n x = refl
listed-added fine drift n x = refl
listed-added fine fine n x = refl
