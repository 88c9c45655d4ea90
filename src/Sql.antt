-- ===== src/Sql.antt =====
-- How src/aisb/services/sql.py and src/aisb/services/roles.py write texts into SQL: `lit`, `ident` and
-- `literal`, `pg_ident` and `my_ident`, and the statements for read-only roles. Client has
-- `mysql_client_command`. A text is the list of its code points.
pub mod Reading
pub mod Client
pub mod Literals
mod Tests
use Prim.Native.Nat.{ℕ}
use aisb.Prelude.{ℕ, Bool, true, false, List, [], ◌∷◌, ◌++◌, codes, eqb, leb, map, if◌then◌else◌}
use aisb.Yaml.Text.{Text}

-- s.replace(c, c + c)
unfoldable pub doubled : ℕ → Text → Text
doubled q [] = []
doubled q (c ∷ s) = let rest = doubled q s in if eqb c q then q ∷ q ∷ rest else c ∷ rest

-- a text between quotes, with the quotes in it doubled
unfoldable pub quoted : ℕ → Text → Text
unfolding doubled
quoted q s = q ∷ (doubled q s ++ (q ∷ []))

-- the single and the double quote, the backtick and the backslash
abbrev pub single : ℕ
single = 39

abbrev pub double : ℕ
double = 34

abbrev pub backtick : ℕ
backtick = 96

abbrev pub backslash : ℕ
backslash = 92

-- `lit`; the flag is `backslash`
unfoldable pub lit : Bool → Text → Text
unfolding quoted doubled
lit true s = quoted single (doubled backslash s)
lit false s = quoted single s

-- `pg_ident` and `my_ident`
unfoldable pub pg_ident : Text → Text
unfolding quoted
pg_ident name = quoted double name

unfoldable pub my_ident : Text → Text
unfolding quoted
my_ident name = quoted backtick name

abbrev pub before_part : ℕ → List Text → List Text
before_part c [] = (c ∷ []) ∷ []
before_part c (p ∷ ps) = (c ∷ p) ∷ ps

-- name.split(".")
unfoldable pub parts : Text → List Text
parts [] = [] ∷ []
parts (c ∷ s) = let rest = parts s in if eqb c 46 then [] ∷ rest else before_part c rest

-- ".".join(parts)
abbrev pub joined : List Text → Text
joined [] = []
joined (p ∷ []) = p
joined (p ∷ q ∷ ps) = p ++ (46 ∷ joined (q ∷ ps))

-- `ident`
unfoldable pub ident : Text → Text
unfolding quoted parts
ident name = joined (map (quoted double) (parts name))

-- A value of a row; `number` has the text that `repr` gives, `bytes` the one that `hex` gives.
pub data Value : Type 0 where
  null : Value
  flag : Bool → Value
  number bytes other : Text → Value

-- `literal`
unfoldable pub literal : Bool → Value → Text
unfolding lit
literal is_mysql null = codes "NULL"
literal is_mysql (flag b) = codes (if b then "TRUE" else "FALSE")
literal is_mysql (number t) = t
literal is_mysql (bytes t) = codes "X'" ++ (t ++ (single ∷ []))
literal is_mysql (other t) = lit is_mysql t

-- `mysql_account`
mysql_account : Text → Text
unfolding lit
mysql_account user = lit true user ++ codes "@'localhost'"

-- `mysql_grant`
granted : Text → Text → Text
unfolding my_ident
granted account db =
    codes "GRANT SELECT, SHOW VIEW ON " ++ (my_ident db ++ (codes ".* TO " ++ account))

unfoldable pub mysql_grant : Text → Text → List Text → List Text
unfolding mysql_account lit granted
mysql_grant user password databases =
    let account = mysql_account user in
    let pw = lit true password in
    (codes "CREATE USER IF NOT EXISTS "
      ++ (account ++ (codes " IDENTIFIED BY " ++ (pw ++ codes " WITH MAX_USER_CONNECTIONS 10"))))
    ∷ (codes "ALTER USER " ++ (account ++ (codes " IDENTIFIED BY " ++ pw)))
    ∷ (codes "REVOKE ALL PRIVILEGES, GRANT OPTION FROM " ++ account)
    ∷ map (granted account) databases

-- `mysql_revoke`
unfoldable pub mysql_revoke : Text → List Text
unfolding mysql_account
mysql_revoke user = (codes "DROP USER IF EXISTS " ++ mysql_account user) ∷ []

-- the statements for the server of `postgres_grant`
role_head : Bool → Text → Text → List Text
unfolding lit
role_head exists role password =
    (codes (if exists then "ALTER" else "CREATE")
      ++ (codes " ROLE "
          ++ (role
              ++ (codes
                    " WITH LOGIN NOSUPERUSER NOCREATEDB NOCREATEROLE NOREPLICATION NOBYPASSRLS CONNECTION LIMIT 10 PASSWORD "
                  ++ lit false password))))
    ∷ (codes "ALTER ROLE " ++ (role ++ codes " SET default_transaction_read_only = on"))
    ∷ []

for_schema : Text → Text → List Text
unfolding pg_ident
for_schema role s =
    (codes "GRANT USAGE ON SCHEMA " ++ (pg_ident s ++ (codes " TO " ++ role)))
    ∷ (codes "GRANT SELECT ON ALL TABLES IN SCHEMA " ++ (pg_ident s ++ (codes " TO " ++ role)))
    ∷ (codes "GRANT SELECT ON ALL SEQUENCES IN SCHEMA " ++ (pg_ident s ++ (codes " TO " ++ role)))
    ∷ (codes "ALTER DEFAULT PRIVILEGES IN SCHEMA "
        ++ (pg_ident s ++ (codes " GRANT SELECT ON TABLES TO " ++ role)))
    ∷ []

for_schemas : Text → List Text → List Text
unfolding for_schema
for_schemas role [] = []
for_schemas role (s ∷ names) = for_schema role s ++ for_schemas role names

for_database : Text → Text × List Text → Text × List Text
unfolding for_schemas pg_ident
for_database role (db, names) = (
  db,
  (codes "GRANT CONNECT ON DATABASE " ++ (pg_ident db ++ (codes " TO " ++ role)))
      ∷ for_schemas role names,
)

-- `postgres_grant`, the statements of each database in order; the empty name is any database, and
-- no database has it
unfoldable pub postgres_grant :
    Text → Text → Bool → ℕ → List (Text × List Text) → List (Text × List Text)
unfolding pg_ident role_head for_database
postgres_grant user password exists version schemas =
    let role = pg_ident user in
    let head = role_head exists role password in
    if leb 14 version
    then ([], head ++ ((codes "GRANT pg_read_all_data TO " ++ role) ∷ [])) ∷ []
    else ([], head) ∷ map (for_database role) schemas
