-- ===== src/Store/Restored.antt =====
-- The inner loop of Restore of internal/store/store.go.
use natbox.Prelude.{
  ℕ, ◌≡◌, refl, ap, ◌∙◌, true, false, ◌++◌, String, List, [], ◌∷◌, arith, eq_iff, ok, err, Result,
  Exec, continue, inl, inr, Option-cases, length, all, Bool-cases,
}
use mathlib.Core.List.{append-nil}
use natbox.Store.{
  next_fault, ManagedContainer, Db, valid_item, restored_item, insert_row, insert_items, has_row,
}
use natbox.Store.Keys.{IsKeyed, has_row-append, append_row-IsKeyed}

-- The rows that a restore of these items leaves.
abbrev pub restored_items : (ℕ → String) → List ManagedContainer → List ManagedContainer
restored_items clock [] = []
restored_items clock (item ∷ items) =
    restored_item (clock (length items)) item ∷ restored_items clock items

append_one :
    (rows : List ManagedContainer) (c : ManagedContainer) (cs : List ManagedContainer)
    → (rows ++ c ∷ []) ++ cs ≡ rows ++ c ∷ cs
append_one [] c cs = refl
append_one (r ∷ rs) c cs = ground (arith, append_one rs c cs)

-- An insert appends the row, under a name that was free, or fails and leaves the tables.
abbrev pub Inserts : ManagedContainer → Db → Result (Unit {0}) × Db → Type 0
Inserts c db (ok _, after) =
    (after.containers ≡ db.containers ++ c ∷ [])
    × (has_row c.name db.containers ≡ false)
    × (after.audit_events ≡ db.audit_events)
    × (after.next_id ≡ db.next_id)
Inserts c db (err _, after) = Unit

insert_row-Inserts : (c : ManagedContainer) (db : Db) → Inserts c db (insert_row c db)
unfolding insert_row
insert_row-Inserts c db = elim (Bool-cases (has_row c.name db.containers)) [
  | inl taken ↦ rw taken tt
  | inr free ↦ rw free (elim (Option-cases (next_fault db.faults)) [
    | inl fine ↦ rw fine (refl, free, refl, refl)
    | inr (text, refused) ↦ rw refused tt
  ])
]

abbrev pub Fills : (ℕ → String) → List ManagedContainer → Db → Result (Unit {0}) × Db → Type 0
Fills clock items db (ok _, after) =
    (after.containers ≡ db.containers ++ restored_items clock items)
    × (all valid_item items ≡ true)
    × (IsKeyed db.containers → IsKeyed after.containers)
    × (after.audit_events ≡ db.audit_events)
    × (after.next_id ≡ db.next_id)
Fills clock items db (err _, after) = Unit

module _ (clock : ℕ → String) (item : ManagedContainer) (items : List ManagedContainer)
    (db : Db) where
  abbrev row : ManagedContainer
  row = restored_item (clock (length items)) item

  Fills-cons :
      (rest : Exec Db (Unit {0})) (inserted : Result (Unit {0}) × Db)
      → ((d : Db) → Fills clock items d (rest d))
      → valid_item item ≡ true
      → Inserts row db inserted
      → Fills clock (item ∷ items) db (continue inserted.0 (λ _. rest) inserted.1)
  Fills-cons rest (err e, d) fills valid ins = tt
  Fills-cons rest (ok u, d) fills valid ins = go (rest d) (fills d)
    where
      go :
          (out : Result (Unit {0}) × Db)
          → Fills clock items d out
          → Fills clock (item ∷ items) db out
      go (err e, after) f = tt
      go (ok v, after) f = (
        f.0
            ∙ ap (λ rows. rows ++ restored_items clock items) ins.0
            ∙ append_one db.containers row (restored_items clock items),
        rw valid f.1,
        (λ k. f.2 (rw ins.0 (append_row-IsKeyed db.containers row k ins.1))),
        f.3 ∙ ins.2,
        f.4 ∙ ins.3,
      )

-- The loop, where it succeeds: every item was valid, and each was appended in turn.
pub insert_items-Fills :
    (clock : ℕ → String) (items : List ManagedContainer) (db : Db)
    → Fills clock items db (insert_items clock items db)
unfolding insert_items
insert_items-Fills clock [] db =
    (ground (arith, append-nil db.containers), refl, λ k. k, refl, refl)
insert_items-Fills clock (item ∷ items) db = elim (Bool-cases (valid_item item)) [
  | inr invalid ↦ rw invalid tt
  | inl valid ↦ rw valid (
      Fills-cons clock item items db (insert_items clock items)
        (insert_row (restored_item (clock (length items)) item) db)
        (λ d. insert_items-Fills clock items d) valid (insert_row-Inserts _ db))
]

has_row-middle :
    (rows : List ManagedContainer) (c : ManagedContainer) (cs : List ManagedContainer)
    → IsKeyed (rows ++ c ∷ cs)
    → has_row c.name rows ≡ false
unfolding has_row
has_row-middle [] c cs k = refl
has_row-middle (r ∷ rs) c cs k = ground (
  arith,
  eq_iff r.name c.name,
  eq_iff c.name r.name,
  has_row-append r.name rs (c ∷ cs),
  has_row-middle rs c cs k.1,
)

has_row-restored_items :
    (clock : ℕ → String) (items : List ManagedContainer) (j : String)
    → has_row j (restored_items clock items) ≡ has_row j items
unfolding has_row restored_item
has_row-restored_items clock [] j = refl
has_row-restored_items clock (item ∷ items) j = ground (arith, has_row-restored_items clock items j)

pub restored_items-IsKeyed :
    (clock : ℕ → String) (items : List ManagedContainer)
    → IsKeyed items
    → IsKeyed (restored_items clock items)
unfolding restored_item
restored_items-IsKeyed clock [] k = tt
restored_items-IsKeyed clock (item ∷ items) k =
    (has_row-restored_items clock items item.name ∙ k.0, restored_items-IsKeyed clock items k.1)

-- With no refusal of the driver ahead, an insert under a free name succeeds.
insert_row_free :
    (c : ManagedContainer) (db : Db)
    → db.faults ≡ []
    → has_row c.name db.containers ≡ false
    → insert_row c db ≡ (ok tt, record db { containers = db.containers ++ c ∷ []; faults = [] })
unfolding insert_row
insert_row_free c db quiet free = rw free (ground arith)

-- So the loop succeeds on valid items with distinct names.
pub insert_items_complete :
    (clock : ℕ → String) (items : List ManagedContainer) (db : Db)
    → db.faults ≡ []
    → all valid_item items ≡ true
    → IsKeyed (db.containers ++ restored_items clock items)
    → ((insert_items clock items db).0 ≡ ok tt) × ((insert_items clock items db).1.faults ≡ [])
unfolding insert_items
insert_items_complete clock [] db quiet valid keyed = (refl, quiet)
insert_items_complete clock (item ∷ items) db quiet valid keyed =
    let first : valid_item item ≡ true = ground arith in
    let others : all valid_item items ≡ true = ground arith in
    let free =
      has_row-middle db.containers (row clock item items db) (restored_items clock items) keyed in
    rw (first, insert_row_free (row clock item items db) db quiet free)
      (insert_items_complete clock items _ refl others (rw append_one keyed))
