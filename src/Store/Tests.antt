-- ===== src/Store/Tests.antt =====
-- internal/store/store.go on small tables.
use mathlib.Core.List.{reverse}
use natbox.Store
use natbox.Prelude.{
  ℕ, ◌≡◌, refl, String, none, some, List, [], ◌∷◌, arith, pos, ok, name_pattern, trim_space,
}
use natbox.Store.{
  ManagedContainer, AuditEvent, Backup, Db, upsert_container, set_desired_state, update_policy,
  delete_container, export, restore, list_audit, has_row,
}
use natbox.Store.Keys.{IsKeyed}
use natbox.Store.Declared.{Upserts, upsert_container-Upserts}
use natbox.Store.Rows.{find_row}
use natbox.Store.Restoring.{Restores, restore_all_or_nothing, restore-export}
use natbox.Store.Pages.{walk, walk_all}
use natbox.Store.Paging.{Rises}
use natbox.Store.Calls.{Call, upserts, audits, deletes, empty_db}

abbrev row : String → ManagedContainer
row name = record {
  name = name;
  image = "images:alpine/3.24";
  memory_limit_mb = pos 64;
  disk_limit_gb = pos 1;
  cpu_limit = "";
  desired_state = "running";
  quota_bytes = pos 1000;
  quota_rx_baseline = pos 10;
  quota_tx_baseline = pos 20;
  quota_reset_at = "t0";
  expires_at = "";
  created_at = "t0";
  updated_at = "t0";
}

abbrev event : ℕ → AuditEvent
event n = record {
  id = n;
  actor = "admin";
  action = "container.create";
  target = "container";
  target_id = "nat01";
  result = "success";
  source_ip = "127.0.0.1";
  details = "";
  created_at = "t0";
}

abbrev two_rows : Db
two_rows = record {
  containers = row "nat02" ∷ row "nat01" ∷ [];
  audit_events = event 1 ∷ event 2 ∷ event 3 ∷ [];
  next_id = 4;
  faults = [];
  duplicate_text = "UNIQUE constraint failed";
}

abbrev one_row : Backup
one_row = record { version = pos 1; generated_at = "t1"; containers = row "nat03" ∷ [] }

abbrev clock : ℕ → String
clock n = "t9"

-- A driver that refuses the second statement.
abbrev broken : Db
broken = record two_rows { faults = none ∷ some "disk I/O error" ∷ [] }

restore_all_or_nothing_example : Restores clock one_row broken (restore clock one_row broken)
restore_all_or_nothing_example = restore_all_or_nothing clock one_row broken

-- The second statement is the deletion: its refusal leaves both rows.
refused_deletion : (restore clock one_row broken).1.containers ≡ row "nat02" ∷ row "nat01" ∷ []
unfolding restore Store.transaction Store.replace_all Store.insert_items Store.valid_item
refused_deletion = refl

abbrev both : Backup
both = record { version = pos 1; generated_at = "t1"; containers = row "nat01" ∷ row "nat02" ∷ [] }

exported : (export "t1" two_rows).0 ≡ ok both
unfolding export
exported = refl

two_rows-IsKeyed : IsKeyed two_rows.containers
unfolding has_row
two_rows-IsKeyed = (refl, (refl, tt))

two_rows_rise : Rises 1 4 two_rows.audit_events
two_rows_rise = (omega arith, (omega arith, (omega arith, omega arith)))

restore-export_example :
    ((restore clock both (empty_db [] "")).0 ≡ ok tt)
    × ((j : String)
        → find_row j (restore clock both (empty_db [] "")).1.containers
          ≡ find_row j two_rows.containers)
unfolding Store.valid_item name_pattern trim_space
restore-export_example =
    restore-export "t1" clock two_rows (empty_db [] "") both exported two_rows-IsKeyed refl refl
      refl

upsert_container-Upserts_example :
    Upserts "t5" (row "nat01") two_rows (upsert_container "t5" (row "nat01") two_rows)
upsert_container-Upserts_example = upsert_container-Upserts "t5" (row "nat01") two_rows

walk_all_example : walk 4 (pos 2) (pos 0) two_rows ≡ reverse two_rows.audit_events
walk_all_example = walk_all (pos 2) two_rows refl two_rows_rise

abbrev history : List Call
history =
    upserts "t1" (row "nat01")
    ∷ audits "t2" (event 0)
    ∷ deletes "nat01"
    ∷ audits "t3" (event 0)
    ∷ []
