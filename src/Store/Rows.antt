-- ===== src/Store/Rows.antt =====
-- The row operations of internal/store/store.go, seen at the row of one name.
use mathlib.Core.Option
use natbox.Prelude.{
  ◌≡◌, refl, Bool, true, false, String, Option, none, some, List, [], ◌∷◌, arith, eq_iff, ◌=ₛ◌,
  if◌then◌else◌,
}
use natbox.Store.{
  ManagedContainer, upsert_row, update_rows, has_row, delete_rows, insert_by_name, order_by_name,
}

-- The row of a name: the loop over the items in the method policy of policy.go.
unfoldable pub find_row : String → List ManagedContainer → Option ManagedContainer
find_row name [] = none
find_row name (r ∷ rs) = if r.name =ₛ name then some r else find_row name rs

-- The row that `INSERT … ON CONFLICT(name) DO UPDATE` leaves, given the row that was there.
abbrev pub merged : ManagedContainer → Option ManagedContainer → ManagedContainer
merged c none = c
merged c (some r) = record r {
  image = c.image;
  memory_limit_mb = c.memory_limit_mb;
  disk_limit_gb = c.disk_limit_gb;
  cpu_limit = c.cpu_limit;
  desired_state = c.desired_state;
  updated_at = c.updated_at;
}

pub find_row-upsert_row :
    (c : ManagedContainer) (rows : List ManagedContainer) (j : String)
    → find_row j (upsert_row c rows)
      ≡ (if c.name =ₛ j then some (merged c (find_row c.name rows)) else find_row j rows)
unfolding find_row upsert_row
find_row-upsert_row c [] j = refl
find_row-upsert_row c (r ∷ rs) j =
    ground
      (arith, eq_iff r.name c.name, eq_iff r.name j, eq_iff c.name j, find_row-upsert_row c rs j)

pub find_row-update_rows :
    (name : String) (f : ManagedContainer → ManagedContainer)
    → ((r : ManagedContainer) → (f r).name ≡ r.name)
    → (rows : List ManagedContainer) (j : String)
    → find_row j (update_rows name f rows)
      ≡ (if name =ₛ j then Option.map f (find_row j rows) else find_row j rows)
unfolding find_row update_rows
find_row-update_rows name f same [] j = ground arith
find_row-update_rows name f same (r ∷ rs) j = ground (
  arith,
  same r,
  eq_iff r.name name,
  eq_iff (f r).name j,
  eq_iff r.name j,
  eq_iff name j,
  find_row-update_rows name f same rs j,
)

pub find_row-delete_rows :
    (name : String) (rows : List ManagedContainer) (j : String)
    → find_row j (delete_rows name rows) ≡ (if name =ₛ j then none else find_row j rows)
unfolding find_row delete_rows
find_row-delete_rows name [] j = ground arith
find_row-delete_rows name (r ∷ rs) j =
    ground
      (arith, eq_iff r.name name, eq_iff r.name j, eq_iff name j, find_row-delete_rows name rs j)

abbrev pub is_found : Option ManagedContainer → Bool
is_found none = false
is_found (some r) = true

pub has_row-find_row :
    (name : String) (rows : List ManagedContainer)
    → has_row name rows ≡ is_found (find_row name rows)
unfolding find_row has_row
has_row-find_row name [] = refl
has_row-find_row name (r ∷ rs) = ground (arith, has_row-find_row name rs)

pub find_row-name :
    (name : String) (rows : List ManagedContainer) (r : ManagedContainer)
    → find_row name rows ≡ some r
    → r.name ≡ name
unfolding find_row
find_row-name name [] r h = cc
find_row-name name (x ∷ rs) r h = ground (arith, eq_iff x.name name, find_row-name name rs r)

find_row-insert_by_name :
    (c : ManagedContainer) (rows : List ManagedContainer) (j : String)
    → find_row j (insert_by_name c rows) ≡ find_row j (c ∷ rows)
unfolding find_row insert_by_name
find_row-insert_by_name c [] j = refl
find_row-insert_by_name c (r ∷ rs) j =
    ground (
      arith,
      eq_iff c.name r.name,
      eq_iff c.name j,
      eq_iff r.name j,
      find_row-insert_by_name c rs j,
    )

-- Sorting moves rows and loses none.
pub find_row-order_by_name :
    (rows : List ManagedContainer) (j : String) → find_row j (order_by_name rows) ≡ find_row j rows
unfolding find_row order_by_name
find_row-order_by_name [] j = refl
find_row-order_by_name (r ∷ rs) j =
    ground (arith, find_row-insert_by_name r (order_by_name rs) j, find_row-order_by_name rs j)
