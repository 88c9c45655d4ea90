-- ===== src/Glob/Tests.antt =====
-- Runs of `fnmatch`.
use aisb.Prelude.{◌≡◌, refl, true, false}
use aisb.Glob.{fnmatch}

matching :
    (fnmatch "web1" "web*" ≡ true)
    × (fnmatch "web1" "web[!2-9]" ≡ true)
    × (fnmatch "db" "d?" ≡ true)
    × (fnmatch "x-1" "x[-a]1" ≡ true)
    × (fnmatch "a]" "a[]]" ≡ true)
    × (fnmatch "[a" "[a" ≡ true)
unfolding fnmatch
matching = (refl, refl, refl, refl, refl, refl)

missing :
    (fnmatch "web1" "web" ≡ false) × (fnmatch "web2" "web[!2-9]" ≡ false) × (fnmatch "" "?" ≡ false)
unfolding fnmatch
missing = (refl, refl, refl)
