-- ===== src/Store.antt =====
-- internal/store/store.go: the SQLite tables of managed containers and audit events.
-- `Db` holds the rows in the order in which they were inserted. Each statement first meets the
-- driver: `faults` says, for the statements to come, which of them the driver refuses and with what
-- text; a refused statement changes nothing. The clock `now()` is an argument.
pub mod Tests
pub mod Rows
pub mod Paging
pub mod Pages
pub mod Calls
pub mod History
pub mod Schema
pub mod Declared
pub mod Keys
pub mod Restored
pub mod Restoring
use natbox.Prelude.{
  ℕ, zero, suc, Bool, true, false, not, ◌&&◌, ◌||◌, String, Option, none, some, List, [], ◌∷◌, ◌++◌,
  length, take, keep, ltb, ◌=ₛ◌, if◌then◌else◌, ℤ, pos, negsuc, ltb_ℤ, leb_ℤ, pos_part, trim_space,
  parse_int, format_int, quoted, ◌+ₛ◌, no_rows, failure, ok, err, Exec, pure, fail, reject, ◌>>=◌,
  ◌>>◌, str_le, name_pattern, cpu_pattern, Result,
}

pub record ManagedContainer : Type 0 where
  pub name : String
  pub image : String
  pub memory_limit_mb : ℤ
  pub disk_limit_gb : ℤ
  pub cpu_limit : String
  pub desired_state : String
  pub quota_bytes : ℤ
  pub quota_rx_baseline : ℤ
  pub quota_tx_baseline : ℤ
  pub quota_reset_at : String
  pub expires_at : String
  pub created_at : String
  pub updated_at : String

pub record AuditEvent : Type 0 where
  pub id : ℕ
  pub actor : String
  pub action : String
  pub target : String
  pub target_id : String
  pub result : String
  pub source_ip : String
  pub details : String
  pub created_at : String

pub record Backup : Type 0 where
  pub version : ℤ
  pub generated_at : String
  pub containers : List ManagedContainer

pub record Db : Type 0 where
  pub containers : List ManagedContainer
  pub audit_events : List AuditEvent
  pub next_id : ℕ
  pub faults : List (Option String)
  -- what the driver reports for a second row with the same primary key
  pub duplicate_text : String

-- The driver's answer for the next statement; with the schedule at its end, no more faults.
abbrev pub next_fault : List (Option String) → Option String
next_fault [] = none
next_fault (f ∷ fs) = f

abbrev pub later_faults : List (Option String) → List (Option String)
later_faults [] = []
later_faults (f ∷ fs) = fs

abbrev pub settle {ℓ} : {A : Type ℓ} → Option String → (Db → A × Db) → Db → Result A × Db
settle none body db = let (a, db') = body db in (ok a, db')
settle (some text) body db = (err (failure text), db)

-- One statement: refused with no effect, or carried out.
abbrev pub statement : {A : Type 0} → (Db → A × Db) → Exec Db A
statement body db =
    settle (next_fault db.faults) body (record db { faults = later_faults db.faults })

-- `INSERT … ON CONFLICT(name) DO UPDATE SET …`: quota, baselines, expiry and creation time stay.
unfoldable pub upsert_row : ManagedContainer → List ManagedContainer → List ManagedContainer
upsert_row c [] = c ∷ []
upsert_row c (r ∷ rs) =
    if r.name =ₛ c.name
    then record r {
      image = c.image;
      memory_limit_mb = c.memory_limit_mb;
      disk_limit_gb = c.disk_limit_gb;
      cpu_limit = c.cpu_limit;
      desired_state = c.desired_state;
      updated_at = c.updated_at;
    }
      ∷ rs
    else r ∷ upsert_row c rs

-- `UPDATE … WHERE name=?`, with the number of rows affected.
unfoldable pub update_rows :
    String → (ManagedContainer → ManagedContainer) → List ManagedContainer → List ManagedContainer
update_rows name f [] = []
update_rows name f (r ∷ rs) = (if r.name =ₛ name then f r else r) ∷ update_rows name f rs

unfoldable pub has_row : String → List ManagedContainer → Bool
has_row name [] = false
has_row name (r ∷ rs) = r.name =ₛ name || has_row name rs

-- `DELETE … WHERE name=?`
unfoldable pub delete_rows : String → List ManagedContainer → List ManagedContainer
delete_rows name [] = []
delete_rows name (r ∷ rs) =
    let rest = delete_rows name rs in if r.name =ₛ name then rest else r ∷ rest

-- `ORDER BY name`
insert_by_name : ManagedContainer → List ManagedContainer → List ManagedContainer
insert_by_name c [] = c ∷ []
insert_by_name c (r ∷ rs) = if str_le c.name r.name then c ∷ r ∷ rs else r ∷ insert_by_name c rs

unfoldable pub order_by_name : List ManagedContainer → List ManagedContainer
unfolding insert_by_name
order_by_name [] = []
order_by_name (r ∷ rs) = insert_by_name r (order_by_name rs)

abbrev pub or_default : String → String → String
or_default s d = if s =ₛ "" then d else s

unfoldable pub upsert_container : String → ManagedContainer → Exec Db (Unit {0})
unfolding upsert_row
upsert_container now c = do
  reject (trim_space c.name =ₛ "") "container name is required"
  let c' = record c {
    desired_state = or_default c.desired_state "running";
    created_at = or_default c.created_at now;
    updated_at = now;
  }
  statement λ db. (tt, record db { containers = upsert_row c' db.containers })

affected : Bool → Exec Db (Unit {0})
affected true = pure tt
affected false = fail no_rows

unfoldable pub set_desired_state : String → String → String → Exec Db (Unit {0})
unfolding update_rows has_row affected
set_desired_state now name state = do
  reject (name =ₛ "" || (not (state =ₛ "running") && not (state =ₛ "stopped")))
      "invalid managed container state"
  found ← statement λ db. (
    has_row name db.containers,
    record db {
      containers =
          update_rows name (λ r. record r { desired_state = state; updated_at = now })
            db.containers;
    },
  )
  affected found

unfoldable pub delete_container : String → Exec Db (Unit {0})
unfolding delete_rows
delete_container name =
    statement λ db. (tt, record db { containers = delete_rows name db.containers })

unfoldable pub list_containers : Exec Db (List ManagedContainer)
unfolding order_by_name
list_containers = statement λ db. (order_by_name db.containers, db)

unfoldable pub update_policy : String → String → ℤ → ℤ → ℤ → String → String → Exec Db (Unit {0})
unfolding update_rows has_row affected
update_policy now name quota rx tx reset_at expires_at = do
  reject (name =ₛ "" || ltb_ℤ quota (pos 0) || ltb_ℤ rx (pos 0) || ltb_ℤ tx (pos 0))
      "invalid container policy"
  found ← statement λ db. (
    has_row name db.containers,
    record db {
      containers =
          update_rows name
            (λ r. record r {
              quota_bytes = quota;
              quota_rx_baseline = rx;
              quota_tx_baseline = tx;
              quota_reset_at = reset_at;
              expires_at = expires_at;
              updated_at = now;
            })
            db.containers;
    },
  )
  affected found

unfoldable pub export : String → Exec Db Backup
unfolding list_containers
export now = do
  containers ← list_containers
  pure (record { version = pos 1; generated_at = now; containers = containers })

-- The test on each item of a backup, before it is inserted.
unfoldable pub valid_item : ManagedContainer → Bool
valid_item item =
    name_pattern 62 item.name
    && not (trim_space item.image =ₛ "")
    && (item.desired_state =ₛ "running" || item.desired_state =ₛ "stopped")
    && not (ltb_ℤ item.memory_limit_mb (pos 16))
    && not (ltb_ℤ (pos 8192) item.memory_limit_mb)
    && not (ltb_ℤ item.disk_limit_gb (pos 1))
    && not (ltb_ℤ (pos 100) item.disk_limit_gb)
    && not (ltb_ℤ item.quota_bytes (pos 0))
    && not (ltb_ℤ item.quota_rx_baseline (pos 0))
    && not (ltb_ℤ item.quota_tx_baseline (pos 0))
    && (item.cpu_limit =ₛ "" || cpu_pattern item.cpu_limit)

-- Missing times are filled in; `now` is the clock as it is read for this item.
unfoldable pub restored_item : String → ManagedContainer → ManagedContainer
restored_item now item =
    let created = or_default item.created_at now in
    record item { created_at = created; updated_at = or_default item.updated_at created }

-- `INSERT` of a row whose name is the primary key.
unfoldable pub insert_row : ManagedContainer → Exec Db (Unit {0})
insert_row c db =
    let inserted =
      statement (λ (d : Db). (tt, record d { containers = d.containers ++ c ∷ [] })) db in
    if has_row c.name db.containers
    then (err (failure db.duplicate_text), record db { faults = later_faults db.faults })
    else inserted

-- The loop of Restore over the items: validate, fill in, insert. `clock n` is the time read `n`
-- items before the end.
unfoldable pub insert_items : (ℕ → String) → List ManagedContainer → Exec Db (Unit {0})
insert_items clock [] = pure tt
insert_items clock (item ∷ items) = do
  reject (not (valid_item item)) ("invalid managed container " +ₛ quoted item.name +ₛ " in backup")
  insert_row (restored_item (clock (length items)) item)
  insert_items clock items

-- `DELETE FROM managed_containers`, the inserts and the commit.
unfoldable pub replace_all : (ℕ → String) → List ManagedContainer → Exec Db (Unit {0})
replace_all clock items = do
  statement λ db. (tt, record db { containers = [] })
  insert_items clock items
  statement λ db. (tt, db)

-- The deferred tx.Rollback: without a commit the tables are as they were before the transaction. A COMMIT
-- that fails is taken to leave them so too, as SQLite does where it cannot write the log.
abbrev pub roll_back : Db → Result (Unit {0}) × Db → Result (Unit {0}) × Db
roll_back before (ok a, db) = (ok a, db)
roll_back before (err e, db) = (err e, record before { faults = db.faults })

unfoldable pub transaction : Exec Db (Unit {0}) → Exec Db (Unit {0})
transaction body = do statement λ db. (tt, db); λ db. roll_back db (body db)

unfoldable pub restore : (ℕ → String) → Backup → Exec Db (Unit {0})
restore clock backup = do
  reject (not (leb_ℤ backup.version (pos 1) && leb_ℤ (pos 1) backup.version))
      ("unsupported backup version " +ₛ format_int backup.version)
  transaction (replace_all clock backup.containers)

unfoldable pub audit : String → AuditEvent → Exec Db (Unit {0})
audit now event = statement λ db. (
  tt,
  record db {
    audit_events =
        db.audit_events
        ++ record event {
          id = db.next_id;
          actor = or_default event.actor "system";
          result = or_default event.result "success";
          created_at = or_default event.created_at now;
        }
          ∷ [];
    next_id = suc db.next_id;
  },
)

-- The page size that is used for the one that is asked for.
unfoldable pub page_size : ℤ → ℕ
page_size limit =
    if ltb_ℤ limit (pos 1) then 50 else if ltb_ℤ (pos 200) limit then 200 else pos_part limit

-- `ORDER BY id DESC` of the rows in insertion order.
insert_by_id : AuditEvent → List AuditEvent → List AuditEvent
insert_by_id e [] = e ∷ []
insert_by_id e (x ∷ xs) = if ltb e.id x.id then x ∷ insert_by_id e xs else e ∷ x ∷ xs

unfoldable pub newest_first : List AuditEvent → List AuditEvent
unfolding insert_by_id
newest_first [] = []
newest_first (e ∷ es) = insert_by_id e (newest_first es)

-- `WHERE id < ?`, present only for a positive id.
abbrev pub before_id : ℤ → AuditEvent → Bool
before_id (pos zero) e = true
before_id (pos (suc n)) e = ltb e.id (suc n)
before_id (negsuc n) e = true

unfoldable pub list_audit : ℤ → ℤ → Exec Db (List AuditEvent)
unfolding page_size newest_first
list_audit limit before =
    statement
      λ db. (take (page_size limit) (newest_first (keep (before_id before) db.audit_events)), db)

abbrev positive_or_zero : Option ℤ → ℤ
positive_or_zero none = pos 0
positive_or_zero (some n) = if ltb_ℤ n (pos 1) then pos 0 else n

unfoldable pub parse_before_id : String → ℤ
parse_before_id value = positive_or_zero (parse_int value)
