-- ===== src/Store/Schema.antt =====
-- internal/store/store.go: Open, migrate and ensurePolicyColumns, over the schema of a database file.
-- A table is its columns and its rows; a statement that the driver refuses changes nothing. The order in
-- which Go walks through the map of columns is an argument. The pragmas set up the connection, which
-- is not kept.
pub mod Widening
pub mod Kept
pub mod Running
pub mod Migrating
pub mod Columns
pub mod Retrying
pub mod Tests
pub mod Reopening
use natbox.Prelude.{
  Bool, true, false, not, ◌&&◌, String, ◌+ₛ◌, Option, none, some, List, [], ◌∷◌, ◌++◌, map, ℕ, ℤ,
  pos, ◌==◌, ◌=ₛ◌, any, if◌then◌else◌, trim_space, Error, failure, error_text, Result, ok, err,
  Exec, pure, fail, reject, refuse, attempt, ◌>>=◌, ◌>>◌,
}
use natbox.Store.{next_fault, later_faults}

pub data Value : Type 0 where
  text : String → Value
  integer : ℤ → Value

-- The values of a row, by column.
abbrev pub Row : Type 0
Row = List (String × Value)

pub record Table : Type 0 where
  pub columns : List String
  pub rows : List Row

-- A database file; a new one has no tables.
pub record Schema : Type 0 where
  pub migrations : Option (List (ℕ × String))
  pub managed_containers : Option Table
  pub audit_events : Option Table
  pub indexed : Bool
  pub faults : List (Option String)

abbrev pub met : {A : Type 0} → Option String → Exec Schema A → Exec Schema A
met none body s = body s
met (some problem) body s = (err (failure problem), s)

-- One statement on the schema, which the driver may refuse.
abbrev pub statement : {A : Type 0} → Exec Schema A → Exec Schema A
statement body s = met (next_fault s.faults) body (record s { faults = later_faults s.faults })

abbrev pub wrapped : {A : Type 0} → String → Result A → Result A
wrapped prefix (ok a) = ok a
wrapped prefix (err e) = err (failure (prefix +ₛ error_text e))

-- `fmt.Errorf(prefix+"%w", err)` around the error of a statement.
abbrev pub wrapping : {A : Type 0} → String → Exec Schema A → Exec Schema A
wrapping prefix m s = let (r, s') = m s in (wrapped prefix r, s')

-- `CREATE TABLE IF NOT EXISTS`: a table that is there stays as it is.
abbrev pub or_new {ℓ} : {A : Type ℓ} → A → Option A → Option A
or_new new none = some new
or_new new (some old) = some old

abbrev pub container_columns : List String
container_columns =
    "name" ∷ "image" ∷ "memory_limit_mb" ∷ "disk_limit_gb" ∷ "cpu_limit" ∷ "desired_state"
    ∷ "quota_bytes" ∷ "quota_rx_baseline" ∷ "quota_tx_baseline" ∷ "quota_reset_at" ∷ "expires_at"
    ∷ "created_at" ∷ "updated_at" ∷ []

abbrev pub audit_columns : List String
audit_columns =
    "id" ∷ "actor" ∷ "action" ∷ "target" ∷ "target_id" ∷ "result" ∷ "source_ip" ∷ "details"
    ∷ "created_at" ∷ []

unfoldable pub has_column : String → List String → Bool
has_column column columns = any (λ c. c =ₛ column) columns

-- The columns of the index idx_audit_events_created.
abbrev pub indexable : Option Table → Bool
indexable none = false
indexable (some t) = has_column "created_at" t.columns && has_column "id" t.columns

-- `CREATE INDEX IF NOT EXISTS`
abbrev pub create_index : Exec Schema (Unit {0})
create_index s =
    if s.indexed
    then (ok tt, s)
    else if indexable s.audit_events
    then (ok tt, record s { indexed = true })
    else (err (failure "no such column"), s)

abbrev pub create_versions : Exec Schema (Unit {0})
create_versions s = (ok tt, record s { migrations = or_new [] s.migrations })

abbrev pub create_containers : Exec Schema (Unit {0})
create_containers s = (
  ok tt,
  record s {
    managed_containers =
        or_new (record { columns = container_columns; rows = [] }) s.managed_containers;
  },
)

abbrev pub create_events : Exec Schema (Unit {0})
create_events s = (
  ok tt,
  record s { audit_events = or_new (record { columns = audit_columns; rows = [] }) s.audit_events },
)

-- The statements of migrate, in order: three pragmas, the tables and the index.
abbrev pub statements : List (Exec Schema (Unit {0}))
statements =
    pure tt
    ∷ pure tt
    ∷ pure tt
    ∷ create_versions
    ∷ create_containers
    ∷ create_events
    ∷ create_index
    ∷ []

unfoldable pub run_statements : List (Exec Schema (Unit {0})) → Exec Schema (Unit {0})
run_statements [] = pure tt
run_statements (body ∷ bodies) = do
  wrapping "database migration: " (statement body)
  run_statements bodies

-- The columns of the policies, with the defaults that rows from before get.
abbrev pub policy_columns : List (String × Value)
policy_columns =
    ("quota_bytes", integer (pos 0))
    ∷ ("quota_rx_baseline", integer (pos 0))
    ∷ ("quota_tx_baseline", integer (pos 0))
    ∷ ("quota_reset_at", text "")
    ∷ ("expires_at", text "")
    ∷ []

-- `SELECT count(*) FROM pragma_table_info('managed_containers') WHERE name=?` is not 0.
abbrev pub inspected : String → Option Table → Bool
inspected column none = false
inspected column (some t) = has_column column t.columns

abbrev pub widened : String × Value → Table → Table
widened column t = record {
  columns = t.columns ++ column.0 ∷ [];
  rows = map (λ row. row ++ column ∷ []) t.rows;
}

-- `ALTER TABLE managed_containers ADD COLUMN …`
abbrev pub add_column : String × Value → Option Table → Exec Schema (Unit {0})
add_column column none s = (err (failure "no such table: managed_containers"), s)
add_column column (some t) s =
    if has_column column.0 t.columns
    then (err (failure ("duplicate column name: " +ₛ column.0)), s)
    else (ok tt, record s { managed_containers = some (widened column t) })

unfoldable pub ensure_column : String × Value → Exec Schema (Unit {0})
ensure_column column = do
  there ←
      wrapping ("inspect policy column " +ₛ column.0 +ₛ ": ")
        (statement (λ s. (ok (inspected column.0 s.managed_containers), s)))
  if there
      then pure tt
      else wrapping ("add policy column " +ₛ column.0 +ₛ ": ")
          (statement (λ s. add_column column s.managed_containers s))

-- ensurePolicyColumns, over the columns in some order.
unfoldable pub ensure_policy_columns : List (String × Value) → Exec Schema (Unit {0})
unfolding ensure_column
ensure_policy_columns [] = pure tt
ensure_policy_columns (column ∷ columns) = do ensure_column column; ensure_policy_columns columns

abbrev pub is_recorded : ℕ → List (ℕ × String) → Bool
is_recorded version rows = any (λ row. row.0 == version) rows

-- `INSERT OR IGNORE INTO schema_migrations(version, applied_at) VALUES(…)`
abbrev pub insert_version : ℕ → String → Option (List (ℕ × String)) → Exec Schema (Unit {0})
insert_version version now none s = (err (failure "no such table: schema_migrations"), s)
insert_version version now (some rows) s =
    if is_recorded version rows
    then (ok tt, s)
    else (ok tt, record s { migrations = some (rows ++ (version, now) ∷ []) })

unfoldable pub record_version : String → ℕ → String → Exec Schema (Unit {0})
record_version prefix version now =
    wrapping prefix (statement (λ s. insert_version version now s.migrations s))

unfoldable pub migrate : List (String × Value) → String → Exec Schema (Unit {0})
unfolding run_statements ensure_policy_columns record_version
migrate order now = do
  run_statements statements
  ensure_policy_columns order
  record_version "record database migration: " 1 now
  record_version "record policy migration: " 2 now

-- What the operating system and the driver say to the calls of Open before the migration; `absent` is
-- an error for which os.IsNotExist holds.
pub data Chmod : Type 0 where
  changed absent : Chmod
  denied : String → Chmod

pub record Opening : Type 0 where
  pub directory_fault : Option String
  pub driver_fault : Option String
  pub chmod : Chmod

abbrev pub fault_text : String → Option String → Option String
fault_text prefix none = none
fault_text prefix (some problem) = some (prefix +ₛ problem)

abbrev pub chmod_fault : Chmod → Option String
chmod_fault changed = none
chmod_fault absent = none
chmod_fault (denied problem) = some ("protect database file: " +ₛ problem)

-- Open; `directory` is filepath.Dir of the path. On success the store is over the migrated file.
unfoldable pub open_store :
    String → String → Opening → List (String × Value) → String → Exec Schema (Unit {0})
unfolding migrate
open_store path directory opening order now = do
  reject (trim_space path =ₛ "") "database path is required"
  refuse (
      if directory =ₛ "."
      then none
      else fault_text "create database directory: " opening.directory_fault)
  refuse (fault_text "open database: " opening.driver_fault)
  refuse (chmod_fault opening.chmod)
  migrate order now
