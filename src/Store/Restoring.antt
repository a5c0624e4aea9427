-- ===== src/Store/Restoring.antt =====
-- Restore and Export of internal/store/store.go.
use natbox.Prelude.{
  ℕ, ◌≡◌, refl, ap, ◌∙◌, Bool, true, String, List, [], ◌∷◌, arith, ◌=ₛ◌, ℤ, pos, negsuc, leb_ℤ,
  ◌&&◌, not, ok, err, Result, continue, all, Bool-cases, Option-cases, inl, inr,
}
use natbox.Store.{
  ManagedContainer, Backup, Db, valid_item, restored_item, insert_items, replace_all, transaction,
  roll_back, statement, restore, export, list_containers, order_by_name, insert_by_name, next_fault,
  later_faults,
}
use natbox.Store.Keys.{IsKeyed, order_by_name-IsKeyed}
use natbox.Store.Rows.{find_row, find_row-order_by_name}
use natbox.Store.Restored.{
  restored_items, restored_items-IsKeyed, Fills, insert_items-Fills, insert_items_complete,
}

-- The tables are those of `db`.
abbrev pub Keeps : Db → Db → Type 0
Keeps db after =
    (after.containers ≡ db.containers)
    × (after.audit_events ≡ db.audit_events)
    × (after.next_id ≡ db.next_id)

-- What a restore does to the tables, for its result.
abbrev pub Restores : (ℕ → String) → Backup → Db → Result (Unit {0}) × Db → Type 0
Restores clock backup db (ok _, after) =
    (backup.version ≡ pos 1)
    × (all valid_item backup.containers ≡ true)
    × (after.containers ≡ restored_items clock backup.containers)
    × IsKeyed after.containers
    × (after.audit_events ≡ db.audit_events)
    × (after.next_id ≡ db.next_id)
Restores clock backup db (err _, after) = Keeps db after

abbrev Replaces : (ℕ → String) → List ManagedContainer → Db → Result (Unit {0}) × Db → Type 0
Replaces clock items db (ok _, after) =
    (all valid_item items ≡ true)
    × (after.containers ≡ restored_items clock items)
    × IsKeyed after.containers
    × (after.audit_events ≡ db.audit_events)
    × (after.next_id ≡ db.next_id)
Replaces clock items db (err _, after) = Unit

module _ (clock : ℕ → String) (items : List ManagedContainer) (db start : Db) where
  -- The commit at the end either keeps what the loop left or fails.
  Replaces-commit :
      (filled : Result (Unit {0}) × Db)
      → start.containers ≡ []
      → Keeps (record db { containers = [] }) start
      → Fills clock items start filled
      → Replaces clock items db (continue filled.0 (λ _. statement (λ d. (tt, d))) filled.1)
  Replaces-commit (err e, d) empty same f = tt
  Replaces-commit (ok u, d) empty same f = elim (Option-cases (next_fault d.faults)) [
    | inr (text, refused) ↦ rw refused tt
    | inl fine ↦ rw fine (f.1, rw empty at f.0, f.2 (rw empty tt), f.3 ∙ same.1, f.4 ∙ same.2)
  ]

abbrev emptied : Db → Db
emptied db = record db { containers = []; faults = later_faults db.faults }

replace_all-Replaces :
    (clock : ℕ → String) (items : List ManagedContainer) (db : Db)
    → Replaces clock items db (replace_all clock items db)
unfolding replace_all
replace_all-Replaces clock items db = elim (Option-cases (next_fault db.faults)) [
  | inr (text, refused) ↦ rw refused tt
  | inl fine ↦ rw fine (
      Replaces-commit clock items db (emptied db) (insert_items clock items (emptied db)) refl
        (refl, refl, refl) (insert_items-Fills clock items (emptied db)))
]

version_one : (v : ℤ) → (leb_ℤ v (pos 1) && leb_ℤ (pos 1) v) ≡ true → v ≡ pos 1
version_one (pos n) h = ground arith
version_one (negsuc n) h = ground arith

Restores-roll_back :
    (clock : ℕ → String) (backup : Backup) (db started : Db) (out : Result (Unit {0}) × Db)
    → backup.version ≡ pos 1
    → Keeps db started
    → Replaces clock backup.containers started out
    → Restores clock backup db (roll_back started out)
Restores-roll_back clock backup db started (ok u, after) v same r =
    (v, r.0, r.1, r.2, r.3 ∙ same.1, r.4 ∙ same.2)
Restores-roll_back clock backup db started (err e, after) v same r = same

abbrev begun : Db → Db
begun db = record db { faults = later_faults db.faults }

-- A restore replaces all rows by the backup's, valid and with distinct names, or changes no table,
-- wherever the validation or the driver stops it.
pub restore_all_or_nothing :
    (clock : ℕ → String) (backup : Backup) (db : Db)
    → Restores clock backup db (restore clock backup db)
unfolding restore transaction
restore_all_or_nothing clock backup db =
    elim (Bool-cases (leb_ℤ backup.version (pos 1) && leb_ℤ (pos 1) backup.version)) [
      | inr other ↦ rw other (refl, refl, refl)
      | inl one ↦ rw one (elim (Option-cases (next_fault db.faults)) [
        | inr (text, refused) ↦ rw refused (refl, refl, refl)
        | inl fine ↦ rw fine (
            Restores-roll_back clock backup db (begun db)
              (replace_all clock backup.containers (begun db)) (version_one backup.version one)
              (refl, refl, refl) (replace_all-Replaces clock backup.containers (begun db)))
      ])
    ]

Restores-ok :
    (clock : ℕ → String) (backup : Backup) (db : Db) (out : Result (Unit {0}) × Db)
    → out.0 ≡ ok tt
    → Restores clock backup db out
    → out.1.containers ≡ restored_items clock backup.containers
Restores-ok clock backup db (ok u, after) e r = r.2
Restores-ok clock backup db (err x, after) e r = cc

-- With a driver that refuses nothing, a backup of version 1 with valid items and distinct names is
-- restored.
restore_complete :
    (clock : ℕ → String) (backup : Backup) (db : Db)
    → db.faults ≡ []
    → backup.version ≡ pos 1
    → all valid_item backup.containers ≡ true
    → IsKeyed backup.containers
    → (restore clock backup db).0 ≡ ok tt
unfolding restore transaction replace_all
restore_complete clock backup db quiet one valid keyed =
    let filled =
      insert_items_complete clock backup.containers (record db { containers = []; faults = [] })
        refl valid (restored_items-IsKeyed clock backup.containers keyed) in
    rw (one, quiet) (rw (filled.0) (rw (filled.1) refl))

-- The times of a row are set.
abbrev pub has_times : ManagedContainer → Bool
has_times r = not (r.created_at =ₛ "") && not (r.updated_at =ₛ "")

restored_items_same :
    (clock : ℕ → String) (items : List ManagedContainer)
    → all has_times items ≡ true
    → restored_items clock items ≡ items
unfolding restored_item
restored_items_same clock [] h = refl
restored_items_same clock (item ∷ items) h = ground (arith, restored_items_same clock items)

module _ (p : ManagedContainer → Bool) where
  all-insert_by_name :
      (c : ManagedContainer) (rows : List ManagedContainer)
      → p c ≡ true
      → all p rows ≡ true
      → all p (insert_by_name c rows) ≡ true
  unfolding insert_by_name
  all-insert_by_name c [] h k = ground arith
  all-insert_by_name c (r ∷ rs) h k = ground (arith, all-insert_by_name c rs h)

  all-order_by_name :
      (rows : List ManagedContainer) → all p rows ≡ true → all p (order_by_name rows) ≡ true
  unfolding order_by_name
  all-order_by_name [] h = refl
  all-order_by_name (r ∷ rs) h =
      ground (arith, all-insert_by_name r (order_by_name rs), all-order_by_name rs)

export_lem :
    (now : String) (db : Db) (backup : Backup)
    → (export now db).0 ≡ ok backup
    → (backup.version ≡ pos 1) × (backup.containers ≡ order_by_name db.containers)
unfolding export list_containers
export_lem now db backup h = elim (Option-cases (next_fault db.faults)) [
  | inl fine ↦ ground arith
  | inr (text, refused) ↦ ground arith
]

-- An exported backup of valid rows with distinct names and with their times, restored into any database whose driver
-- refuses nothing, brings back the row of every name.
pub restore-export :
    (now : String) (clock : ℕ → String) (db other : Db) (backup : Backup)
    → (export now db).0 ≡ ok backup
    → IsKeyed db.containers
    → all valid_item db.containers ≡ true
    → all has_times db.containers ≡ true
    → other.faults ≡ []
    → ((restore clock backup other).0 ≡ ok tt)
      × ((j : String)
          → find_row j (restore clock backup other).1.containers ≡ find_row j db.containers)
restore-export now clock db other backup exported keyed valid timed quiet =
    let e = export_lem now db backup exported in
    let done =
      restore_complete clock backup other quiet e.0
        (rw (e.1) (all-order_by_name valid_item db.containers valid))
        (rw (e.1) (order_by_name-IsKeyed db.containers keyed)) in
    (
      done,
      λ j.
          ap (find_row j) (
            Restores-ok clock backup other (restore clock backup other) done
              (restore_all_or_nothing clock backup other)
            ∙ ap (restored_items clock) e.1
            ∙ restored_items_same clock (order_by_name db.containers)
                (all-order_by_name has_times db.containers timed))
          ∙ find_row-order_by_name db.containers j,
    )
