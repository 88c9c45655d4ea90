-- ===== src/Fleet/Selector/Tests.antt =====
-- Runs of the scanner.
use aisb.Prelude.{◌≡◌, refl, [], ◌∷◌}
use aisb.Fleet.Selector.{either, both, except, and_not, terms_of}

readme_selector :
    terms_of "web*,@db,&region=eu, !web2"
    ≡ record { op = either; atom = "web*" }
      ∷ record { op = either; atom = "@db" }
      ∷ record { op = both; atom = "region=eu" }
      ∷ record { op = except; atom = "web2" }
      ∷ []
unfolding terms_of
readme_selector = refl

no_commas :
    terms_of "@web&region=eu&!web2& ,"
    ≡ record { op = either; atom = "@web" }
      ∷ record { op = both; atom = "region=eu" }
      ∷ record { op = and_not; atom = "web2" }
      ∷ []
unfolding terms_of
no_commas = refl
