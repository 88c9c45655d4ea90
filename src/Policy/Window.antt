-- ===== src/Policy/Window.antt =====
-- `in_window` of src/aisb/policy.py: days of the week and hours of the day. The bounds of `hours`
-- are whole hours here, in the digits that `float` reads; a fraction is not modelled.
use Prim.Native.Char.{code}
use Prim.Native.String.{String}
use aisb.Prelude.{
  ℕ, ◌+◌, ◌-◌, ◌*◌, ◌%◌, ◌<◌, ◌≡◌, Bool, true, false, ◌&&◌, ◌||◌, Option, none, some, List, [], ◌∷◌,
  ◌==◌, arith, leb, ltb, eqb, any, take, map, codes, strip, partition, if◌then◌else◌,
}
use aisb.Prelude.Results.{Result, ok, err, ◌>>=◌}
use aisb.Policy.{Values, many}

pub record Window : Type 0 where
  pub tz : Option String
  pub days : Values
  pub hours : Option String

-- what of a `datetime` is read; Monday is 0
pub record Moment : Type 0 where
  pub weekday : ℕ
  pub hour : ℕ
  pub minute : ℕ

-- `ValueError` of `float`
pub data Error : Type 0 where
  bad_hours : String → Error

-- str.lower, of one ASCII letter
lower : ℕ → ℕ
lower c = if leb b'A' c && leb c b'Z' then c + 32 else c

same_codes : List ℕ → List ℕ → Bool
same_codes [] [] = true
same_codes (a ∷ as') (b ∷ bs) = eqb a b && same_codes as' bs
same_codes _ _ = false

-- DAYS[n]
unfoldable pub day_name : ℕ → String
day_name n =
    if eqb n 0
    then "mon"
    else if eqb n 1
    then "tue"
    else if eqb n 2
    then "wed"
    else if eqb n 3
    then "thu"
    else if eqb n 4
    then "fri"
    else if eqb n 5
    then "sat"
    else "sun"

-- DAYS[now.weekday()] == d.lower()[:3]
unfoldable pub is_day : ℕ → String → Bool
unfolding lower same_codes day_name
is_day n d = same_codes (take 3 (map lower (codes d))) (codes (day_name n))

digits_from : ℕ → String → Option ℕ
digits_from n String.[] = some n
digits_from n (String.◌∷◌ c s) =
    if leb b'0' (code c) && leb (code c) b'9' then digits_from (n * 10 + (code c - 48)) s else none

-- `float`, of whole hours
unfoldable pub hour_of : String → Result Error ℕ
unfolding digits_from
hour_of t =
    let bare = strip t in
    if bare == ""
    then err (bad_hours t)
    else (elim (digits_from 0 bare) [ none ↦ err (bad_hours t) | some n ↦ ok n ])

-- the test on the hours, in minutes; a window may wrap midnight
unfoldable pub in_hours : (lo hi : ℕ) → Moment → Bool
in_hours lo hi now =
    let h = 60 * now.hour + now.minute in
    if leb lo hi then leb (60 * lo) h && ltb h (60 * hi) else leb (60 * lo) h || ltb h (60 * hi)

abbrev pub hours_allow : Option String → Moment → Result Error Bool
hours_allow none now = ok true
hours_allow (some hours) now =
    let p = partition b'-' hours in
    if hours == "" then ok true else do
      lo ← hour_of p.before
      hi ← hour_of (if p.after == "" then "24" else p.after)
      ok (in_hours lo hi now)

abbrev pub day_allows : List String → Moment → Bool
day_allows [] now = true
day_allows (d ∷ ds) now = any (is_day now.weekday) (d ∷ ds)

-- `now.astimezone(ZoneInfo(tz))`, or the moment itself where the zone is not known
abbrev pub in_zone : (String → Moment → Moment) → Option String → Moment → Moment
in_zone astimezone none now = now
in_zone astimezone (some tz) now = if tz == "" then now else astimezone tz now

unfoldable pub in_window : (String → Moment → Moment) → Window → Moment → Result Error Bool
unfolding is_day hour_of in_hours
in_window astimezone w given =
    let now = in_zone astimezone w.tz given in
    if day_allows (many w.days) now then hours_allow w.hours now else ok false

-- A window between two whole hours below 24 is an arc of the clock: a moment is inside exactly if it
-- comes sooner after the start, going round midnight, than the end does.
pub in_hours_cyclic :
    (lo hi : ℕ) (now : Moment)
    → lo < 24
    → hi < 24
    → now.hour < 24
    → now.minute < 60
    → in_hours lo hi now
      ≡ ltb
          ((60 * now.hour + now.minute + 1440 - 60 * lo) % 1440)
          ((60 * hi + 1440 - 60 * lo) % 1440)
unfolding in_hours
in_hours_cyclic lo hi now a b c d = ground arith
