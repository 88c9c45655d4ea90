-- ===== src/Sql/Client.antt =====
-- `mysql_client_command` and `_mysql_comment_end` of src/aisb/services/sql.py. The index into the text
-- is the text behind it, and a jump of the index is a number of characters still to skip. The
-- expression for the commands that are words, and `isspace`, are parameters.
use aisb.Prelude.{
  ℕ, zero, suc, ◌+◌, ◌-◌, Bool, true, false, not, ◌&&◌, ◌||◌, Option, none, some, [], ◌∷◌, eqb,
  take, if◌then◌else◌,
}
use aisb.Yaml.Text.{Text}
use aisb.Sql.{single, double, backtick, backslash}

-- `long_command` is what `_MYSQL_LONG_CMD` matches where a text starts: its first group.
pub record World : Type 0 where
  pub long_command : Text → Option Text
  pub is_space : ℕ → Bool

-- the characters up to a line feed, or to the end
abbrev pub to_line_end : Text → ℕ
to_line_end [] = 0
to_line_end (c ∷ s) = let rest = to_line_end s in if eqb c 10 then 0 else suc rest

-- the characters up to `*/` and with it, or to the end
abbrev pub to_close : Text → ℕ
to_close [] = 0
to_close (c ∷ []) = 1
to_close (c ∷ d ∷ s) = let rest = to_close (d ∷ s) in if eqb c 42 && eqb d 47 then 2 else suc rest

-- sql[i + 2:i + 3] not in ("!", "+")
abbrev pub is_plain : Text → Bool
is_plain [] = true
is_plain (c ∷ s) = not (eqb c 33 || eqb c 43)

-- What a turn of the loop does: it returns, or goes on with a quote, `idle` and a number of
-- characters to skip.
pub data Turn : Type 0 where
  command : Text → Turn
  go_on : Option ℕ → Bool → ℕ → Turn

abbrev pub contains_code : ℕ → Text → Bool
contains_code k [] = false
contains_code k (c ∷ s) = eqb c k || contains_code k s

-- sql[i + 1:i + 2] == "N"
abbrev pub is_null : Text → Bool
is_null [] = false
is_null (c ∷ s) = eqb c 78

abbrev pub is_quote : ℕ → Bool
is_quote c = eqb c single || eqb c double || eqb c backtick

abbrev pub or_next : Option Text → Option Text → Option Text
or_next (some m) o = some m
or_next none o = o

module _ (w : World) where
  abbrev pub at_space : Text → Bool
  at_space [] = true
  at_space (c ∷ s) = w.is_space c

  -- `_mysql_comment_end`, as the length of the comment
  unfoldable pub comment_end : Text → Option ℕ
  comment_end [] = none
  comment_end (c ∷ []) = if eqb c 35 then some 1 else none
  comment_end (c ∷ d ∷ s) =
      if eqb c 47 && eqb d 42 && is_plain s
      then some (2 + to_close s)
      else if eqb c 35 || (eqb c 45 && eqb d 45 && at_space s)
      then some (to_line_end (c ∷ d ∷ s))
      else none

  abbrev pub plain_turn : Bool → ℕ → Text → Turn
  plain_turn idle c s =
      if eqb c backslash && not (is_null s)
      then command (take 2 (c ∷ s))
      else go_on (if is_quote c then some c else none) (eqb c 59 || (idle && w.is_space c)) 0

  abbrev pub comment_turn : Bool → ℕ → Text → Option ℕ → Turn
  comment_turn idle c s none = plain_turn idle c s
  comment_turn idle c s (some n) =
      if contains_code backslash (take n (c ∷ s))
      then command (take n (c ∷ s))
      else go_on none idle (n - 1)

  unfoldable pub word_turn : Bool → ℕ → Text → Option Text → Turn
  unfolding comment_end
  word_turn idle c s (some m) = command m
  word_turn idle c s none = comment_turn idle c s (comment_end (c ∷ s))

  -- the body of the loop, at a character: inside a quote, or outside
  unfoldable pub turn : Bool → Option ℕ → Bool → ℕ → Text → Turn
  unfolding word_turn
  turn escapes (some q) idle c s =
      go_on (if eqb c q then none else some q) idle (if eqb c backslash && escapes then 1 else 0)
  turn escapes none idle c s = word_turn idle c s (if idle then w.long_command (c ∷ s) else none)

  -- the loop, with the characters to skip
  unfoldable pub scan : Bool → Option ℕ → Bool → ℕ → Text → Option Text
  unfolding turn
  scan escapes quote idle k [] = none
  scan escapes quote idle (suc k) (c ∷ s) = scan escapes quote idle k s
  scan escapes quote idle zero (c ∷ s) = elim (turn escapes quote idle c s) [
    | command m ↦ some m
    | go_on quote_next idle_next k ↦ scan escapes quote_next idle_next k s
  ]

  -- `mysql_client_command`
  unfoldable pub mysql_client_command : Text → Option Text
  unfolding scan
  mysql_client_command sql = or_next (scan true none true 0 sql) (scan false none true 0 sql)
