-- ===== src/Examples/Migrating.antt =====
-- Two migrations, one of which is interrupted, and two of one version.
use keypooler.Base.{ℕ, ◌≡◌, refl, true, false, Option, none, some, List, [], ◌∷◌, arith}
use keypooler.Base.Int.{pos}
use keypooler.Crypto.{Bytes}
use keypooler.Strconv.{digits_from, digits, atoi}
use keypooler.Api.Auth.{same_bytes}
use keypooler.Db.Store.{order_by, place}
use keypooler.Db.Postgres.Spend.{Ending, loses_reply}
use keypooler.Db.Migrations.{
  Migration, Entry, migration_suffix, has_suffix, trim_suffix, cut, parse_migration_name,
  read_entries, load_migrations, contains, Schema, failed_at, execute_migration, run_all,
  run_migrations,
}
use keypooler.Db.Migrations.Names.{parse_migration_name-print}
use keypooler.Db.Migrations.Resume.{calm, catch_up, run_migrations-resumes}

parse_migration_name-print_example :
    parse_migration_name (b'0' ∷ b'1' ∷ b'2' ∷ b'_' ∷ b'a' ∷ b'_' ∷ b'b' ∷ migration_suffix)
    ≡ some (pos 12, b'a' ∷ b'_' ∷ b'b' ∷ [])
parse_migration_name-print_example =
    parse_migration_name-print b'0' (b'1' ∷ b'2' ∷ []) b'a' (b'_' ∷ b'b' ∷ [])
      (refl, (refl, (refl, tt))) (omega arith)

abbrev file : ℕ → ℕ → Entry
file digit letter = record {
  name = digit ∷ b'_' ∷ letter ∷ migration_suffix;
  is_dir = false;
  content = some (letter ∷ []);
}

-- A script is added to the database.
abbrev script : List Bytes → Bytes → Option (List Bytes)
script done sql = some (sql ∷ done)

abbrev empty_schema : Schema (List Bytes)
empty_schema = record { tables = []; versions = [] }

abbrev two_files : Option (List Entry)
two_files = some (file b'2' b'b' ∷ file b'1' b'a' ∷ [])

abbrev in_order : List Migration
in_order =
    record { version = pos 1; name = b'a' ∷ []; sql = b'a' ∷ [] }
    ∷ record { version = pos 2; name = b'b' ∷ []; sql = b'b' ∷ [] }
    ∷ []

two_loaded : load_migrations two_files ≡ some in_order
unfolding load_migrations read_entries has_suffix same_bytes parse_migration_name trim_suffix cut
    atoi digits digits_from order_by place
two_loaded = refl

-- The first transaction is committed, but its answer is lost.
abbrev broken : ℕ → Ending
broken n = loses_reply

abbrev left : Schema (List Bytes)
left = (run_migrations script true true broken empty_schema two_files).0

run_migrations-resumes_example :
    (run_migrations script true true calm empty_schema two_files
      ≡ catch_up script empty_schema in_order)
    × (run_migrations script true true calm left two_files
        ≡ run_migrations script true true calm empty_schema two_files)
run_migrations-resumes_example =
    run_migrations-resumes script two_files in_order broken empty_schema two_loaded
      ((refl, tt), (tt, tt))

-- Of two files with one version the second fails at the first start, and is passed over at the next.
abbrev clashing : List Migration
clashing =
    record { version = pos 1; name = b'a' ∷ []; sql = b'a' ∷ [] }
    ∷ record { version = pos 1; name = b'b' ∷ []; sql = b'b' ∷ [] }
    ∷ []

abbrev once : Schema (List Bytes)
once = record { tables = (b'a' ∷ []) ∷ []; versions = pos 1 ∷ [] }

clash_fails : run_all script calm 0 [] empty_schema clashing ≡ (once, some (failed_at (pos 1)))
unfolding run_all execute_migration contains
clash_fails = refl

clash_ignored : run_all script calm 0 (pos 1 ∷ []) once clashing ≡ (once, none)
unfolding run_all execute_migration contains
clash_ignored = refl
