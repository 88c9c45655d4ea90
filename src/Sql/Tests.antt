-- ===== src/Sql/Tests.antt =====
-- Texts with quotes and backslashes, a client command behind one, and one in a comment.
use Prim.Native.Nat.{ℕ}
use aisb.Prelude.{
  ℕ, ◌≡◌, refl, true, false, ◌||◌, Option, none, some, [], ◌∷◌, ◌++◌, codes, eqb, ◌&&◌,
  if◌then◌else◌,
}
use aisb.Yaml.Text.{Text}
use aisb.Sql.{lit, ident, pg_ident, single, postgres_grant, mysql_revoke, mysql_grant}
use aisb.Sql.Reading.{read_quoted, lit-read}
use aisb.Sql.Client.{World, mysql_client_command, scan, or_next}
use aisb.Sql.Literals.{mysql_client_command-lit}

-- the only command that is a word is `tee`
abbrev long_command : Text → Option Text
long_command (a ∷ b ∷ c ∷ s) =
    if eqb a 116 && eqb b 101 && eqb c 101 then some (codes "tee") else none
long_command _ = none

abbrev world : World
world = record { long_command = long_command; is_space = λ c. eqb c 32 || eqb c 10 }

abbrev itself : ℕ → ℕ
itself c = c

runs : Unit {0}
unfolding lit ident read_quoted mysql_client_command postgres_grant mysql_revoke pg_ident
runs = tt

written : lit true (codes "it's \\") ≡ codes "'it''s \\\\'"
unfolding runs
written = refl

dotted : ident (codes "public.a\"b") ≡ codes "\"public\".\"a\"\"b\""
unfolding runs
dotted = refl

found_shell : mysql_client_command world (codes "select ';tee'; tee f") ≡ some (codes "tee")
unfolding runs
found_shell = refl

no_shell : mysql_client_command world (codes "select ';tee f', tee") ≡ none
unfolding runs
no_shell = refl

in_comment :
    mysql_client_command world (codes "/* \\! sh */ select 1") ≡ some (codes "/* \\! sh */")
unfolding runs
in_comment = refl

newer_server :
    postgres_grant (codes "ro") (codes "p") false 16 []
    ≡ (
      [],
      codes
            "CREATE ROLE \"ro\" WITH LOGIN NOSUPERUSER NOCREATEDB NOCREATEROLE NOREPLICATION NOBYPASSRLS CONNECTION LIMIT 10 PASSWORD 'p'"
          ∷ codes "ALTER ROLE \"ro\" SET default_transaction_read_only = on"
          ∷ codes "GRANT pg_read_all_data TO \"ro\""
          ∷ [],
    )
      ∷ []
unfolding runs
newer_server = refl

revoked : mysql_revoke (codes "ro") ≡ codes "DROP USER IF EXISTS 'ro'@'localhost'" ∷ []
unfolding runs
revoked = refl

lit-read_example :
    read_quoted itself single true (lit true (codes "'; drop table t; -- \\") ++ codes ";")
    ≡ some (codes "'; drop table t; -- \\", codes ";")
lit-read_example = lit-read itself true (codes "'; drop table t; -- \\") (codes ";") refl refl

granted_one :
    mysql_grant (codes "ro") (codes "p") (codes "a`b" ∷ [])
    ≡ codes
        "CREATE USER IF NOT EXISTS 'ro'@'localhost' IDENTIFIED BY 'p' WITH MAX_USER_CONNECTIONS 10"
      ∷ codes "ALTER USER 'ro'@'localhost' IDENTIFIED BY 'p'"
      ∷ codes "REVOKE ALL PRIVILEGES, GRANT OPTION FROM 'ro'@'localhost'"
      ∷ codes "GRANT SELECT, SHOW VIEW ON `a``b`.* TO 'ro'@'localhost'"
      ∷ []
unfolding runs mysql_grant
granted_one = refl

no_tee : (t : Text) → long_command (single ∷ t) ≡ none
no_tee [] = refl
no_tee (c ∷ []) = refl
no_tee (c ∷ d ∷ t) = refl

mysql_client_command-lit_example :
    (mysql_client_command world (lit true (codes "\\! sh")) ≡ none)
    × (mysql_client_command world (lit true (codes "\\! sh") ++ codes ";tee f")
        ≡ or_next
            (scan world true none false 0 (codes ";tee f"))
            (scan world false none false 0 (codes ";tee f")))
mysql_client_command-lit_example =
    mysql_client_command-lit world (codes "\\! sh") (codes ";tee f") no_tee refl
