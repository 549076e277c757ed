-- ===== src/Db/Migrations.antt =====
-- internal/db/migrations.go. A file name is a list of bytes. What a script does to a database is a parameter, none
-- where it fails; a migration's transaction ends as any other.
pub mod Names
pub mod Resume
use keypooler.Base.{
  ℕ, suc, ◌+◌, Bool, true, false, not, ◌||◌, ◌&&◌, Option, none, some, List, [], ◌∷◌, ◌++◌, ◌==◌,
  if◌then◌else◌,
}
use keypooler.Base.Int.{ℤ, pos, leb_ℤ}
use keypooler.Crypto.{Bytes}
use keypooler.Strconv.{atoi}
use keypooler.Api.Auth.{same_bytes}
use keypooler.Db.Store.{order_by}
use keypooler.Db.Postgres.Spend.{Ending, works, refuses, loses_reply}

pub record Migration : Type 0 where
  pub version : ℤ
  pub name : Bytes
  pub sql : Bytes

-- ".sql"
abbrev pub migration_suffix : Bytes
migration_suffix = b'.' ∷ b's' ∷ b'q' ∷ b'l' ∷ []

-- `strings.HasSuffix` and `strings.TrimSuffix`, for a suffix that is not empty.
unfoldable pub has_suffix : Bytes → Bytes → Bool
has_suffix [] suffix = false
has_suffix (c ∷ cs) suffix = same_bytes (c ∷ cs) suffix || has_suffix cs suffix

unfoldable pub trim_suffix : Bytes → Bytes → Bytes
trim_suffix [] suffix = []
trim_suffix (c ∷ cs) suffix =
    let rest = trim_suffix cs suffix in if same_bytes (c ∷ cs) suffix then [] else c ∷ rest

abbrev cons_front : ℕ → Option (Bytes × Bytes) → Option (Bytes × Bytes)
cons_front c none = none
cons_front c (some (front, back)) = some (c ∷ front, back)

-- `strings.Cut` at one byte, none where it is not there.
unfoldable pub cut : ℕ → Bytes → Option (Bytes × Bytes)
cut sep [] = none
cut sep (c ∷ cs) = let rest = cut sep cs in if c == sep then some ([], cs) else cons_front c rest

abbrev named : Option ℤ → Bytes → Option (ℤ × Bytes)
named none name = none
named (some version) [] = none
named (some version) (c ∷ name) = some (version, c ∷ name)

abbrev parse_cut : Option (Bytes × Bytes) → Option (ℤ × Bytes)
parse_cut none = none
parse_cut (some (prefix, name)) = named (atoi prefix) name

unfoldable pub parse_migration_name : Bytes → Option (ℤ × Bytes)
parse_migration_name filename = parse_cut (cut b'_' (trim_suffix filename migration_suffix))

-- A directory's entry, with what reading it gives.
pub record Entry : Type 0 where
  pub name : Bytes
  pub is_dir : Bool
  pub content : Option Bytes

abbrev with_content : ℤ × Bytes → Option Bytes → Option Migration
with_content (version, name) none = none
with_content (version, name) (some sql) =
    some (record { version = version; name = name; sql = sql })

abbrev load_entry : Option (ℤ × Bytes) → Option Bytes → Option Migration
load_entry none content = none
load_entry (some parsed) content = with_content parsed content

abbrev and_then : Option Migration → Option (List Migration) → Option (List Migration)
and_then none ms = none
and_then (some m) none = none
and_then (some m) (some ms) = some (m ∷ ms)

-- The loop of `loadMigrations`: the first entry that offends fails it.
unfoldable pub read_entries : List Entry → Option (List Migration)
unfolding parse_migration_name has_suffix
read_entries [] = some []
read_entries (e ∷ es) =
    let rest = read_entries es in
    if e.is_dir || not (has_suffix e.name migration_suffix)
    then rest
    else and_then (load_entry (parse_migration_name e.name) e.content) rest

-- `cmp.Compare` of the versions; files of one version keep the order of the directory.
abbrev sorted : Option (List Migration) → Option (List Migration)
sorted none = none
sorted (some ms) = some (order_by (λ (a b : Migration). leb_ℤ a.version b.version) ms)

unfoldable pub load_migrations : Option (List Entry) → Option (List Migration)
load_migrations none = none
load_migrations (some entries) = sorted (read_entries entries)

unfoldable pub contains : ℤ → List ℤ → Bool
contains v [] = false
contains v (x ∷ xs) = (leb_ℤ v x && leb_ℤ x v) || contains v xs

-- The database and its table `schema_migrations`.
pub record Schema (D : Type 0) : Type 0 where
  pub tables : D
  pub versions : List ℤ

pub data RunError : Type 0 where
  no_table not_loaded not_listed : RunError
  failed_at : ℤ → RunError

module _ {D : Type 0} (script : D → Bytes → Option D) where
  -- The row of a version that is there offends against the primary key.
  abbrev recorded : Ending → Schema D → ℤ → Option D → Bool → Schema D × Bool
  recorded refuses s v d taken = (s, false)
  recorded works s v none taken = (s, false)
  recorded works s v (some d) true = (s, false)
  recorded works s v (some d) false = (record { tables = d; versions = v ∷ s.versions }, true)
  recorded loses_reply s v none taken = (s, false)
  recorded loses_reply s v (some d) true = (s, false)
  recorded loses_reply s v (some d) false =
      (record { tables = d; versions = v ∷ s.versions }, false)

  unfoldable pub execute_migration : Ending → Schema D → Migration → Schema D × Bool
  unfolding contains
  execute_migration ending s m =
      recorded ending s m.version (script s.tables m.sql) (contains m.version s.versions)

  -- One round of the loop: a version that had been applied is passed over, an error ends it.
  abbrev run_one :
      Bool
      → Schema D × Bool
      → (Schema D → Schema D × Option RunError)
      → Schema D
      → ℤ
      → Schema D × Option RunError
  run_one true executed rest s v = rest s
  run_one false (s', true) rest s v = rest s'
  run_one false (s', false) rest s v = (s', some (failed_at v))

  -- The loop of `RunMigrations`; `ends n` is how the transaction of the n-th file ends.
  unfoldable pub run_all :
      (ℕ → Ending) → ℕ → List ℤ → Schema D → List Migration → Schema D × Option RunError
  unfolding execute_migration
  run_all ends n applied s [] = (s, none)
  run_all ends n applied s (m ∷ ms) =
      run_one (contains m.version applied) (execute_migration (ends n) s m)
        (λ s'. run_all ends (suc n) applied s' ms) s m.version

  abbrev pub run_loaded :
      (ℕ → Ending) → Bool → Schema D → Option (List Migration) → Schema D × Option RunError
  run_loaded ends listed s none = (s, some not_loaded)
  run_loaded ends false s (some ms) = (s, some not_listed)
  run_loaded ends true s (some ms) = run_all ends 0 s.versions s ms

  -- `created` and `listed` tell whether the table can be made and read.
  unfoldable pub run_migrations :
      Bool → Bool → (ℕ → Ending) → Schema D → Option (List Entry) → Schema D × Option RunError
  run_migrations false listed ends s entries = (s, some no_table)
  run_migrations true listed ends s entries = run_loaded ends listed s (load_migrations entries)
