-- ===== src/Store/Schema/Reopening.antt =====
-- internal/store/store.go: Open on a database file that is migrated.
use natbox.Prelude.{
  ℕ, true, ◌≡◌, ◌≢◌, refl, ◌∙◌, String, Option, none, some, List, [], ◌∷◌, Exec, ok, trim_space,
  arith, ◌>>◌,
}
use mathlib.Core.List.{Permᴰ}
use natbox.Store.Schema
use natbox.Store.Schema.{
  Value, Table, Schema, policy_columns, migrate, open_store, run_statements, statements,
  ensure_column, ensure_policy_columns, inspected, insert_version, record_version, or_new,
  statement,
}
use natbox.Store.Schema.Migrating.{is_some}
use natbox.Store.Schema.Columns.{present, recorded}
use natbox.Store.Schema.Retrying.{IsMigrated, granted, granted_opens, present-perm}

or_new-of_some : {A : Type 0} (new : A) (o : Option A) → is_some o ≡ true → or_new new o ≡ o
or_new-of_some new none h = ground arith
or_new-of_some new (some a) h = refl

-- The file as an opening meets it that nothing is refused to.
abbrev cleared : Schema → Schema
cleared s = record s { faults = [] }

then-same :
    (m n : Exec Schema (Unit {0})) (s : Schema)
    → m (cleared s) ≡ (ok tt, cleared s)
    → n (cleared s) ≡ (ok tt, cleared s)
    → (m >> n) (cleared s) ≡ (ok tt, cleared s)
then-same m n s p q = rw p q

module _ (s : Schema) (h : IsMigrated s) where
  run_statements-same : run_statements statements (cleared s) ≡ (ok tt, cleared s)
  unfolding run_statements
  run_statements-same = ground (
    arith,
    h.2,
    or_new-of_some [] s.migrations (h.5),
    or_new-of_some (record { columns = Schema.container_columns; rows = [] }) s.managed_containers
        (h.4),
    or_new-of_some (record { columns = Schema.audit_columns; rows = [] }) s.audit_events (h.3),
  )

  ensure_policy_columns-same :
      (order : List (String × Value))
      → present order s.managed_containers ≡ true
      → ensure_policy_columns order (cleared s) ≡ (ok tt, cleared s)
  unfolding ensure_policy_columns ensure_column
  ensure_policy_columns-same [] all_there = refl
  ensure_policy_columns-same (column ∷ columns) all_there =
      let there : inspected (column.0) s.managed_containers ≡ true = ground (arith, all_there) in
      rw there (ensure_policy_columns-same columns (ground (arith, all_there)))

  record_version-same :
      (prefix : String) (version : ℕ) (now : String)
      → recorded version s.migrations ≡ true
      → record_version prefix version now (cleared s) ≡ (ok tt, cleared s)
  unfolding record_version
  record_version-same prefix version now there = ground (arith, there)

-- Opening a migrated file again, as every start of the server does, changes nothing in it when nothing is
-- refused, in whatever order the columns are walked through and whatever the clock shows.
pub open_store-same :
    (path directory : String) (order : List (String × Value)) (now : String) (s : Schema)
    → Permᴰ order policy_columns
    → IsMigrated s
    → trim_space path ≢ ""
    → open_store path directory granted order now (cleared s) ≡ (ok tt, cleared s)
unfolding migrate
open_store-same path directory order now s whole h named =
    granted_opens path directory order now (cleared s) named
    ∙ then-same (run_statements statements) _ s (run_statements-same s h) (
        then-same (ensure_policy_columns order) _ s
          (ensure_policy_columns-same s h order (present-perm s.managed_containers whole ∙ h.1))
          (then-same (record_version "record database migration: " 1 now) _ s
            (record_version-same s h "record database migration: " 1 now (ground (arith, h.0)))
            (record_version-same s h "record policy migration: " 2 now (ground (arith, h.0)))))
