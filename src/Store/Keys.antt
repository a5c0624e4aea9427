-- ===== src/Store/Keys.antt =====
-- The primary key of managed_containers in internal/store/store.go.
use natbox.Prelude.{◌≡◌, refl, ◌∙◌, false, ◌||◌, ◌++◌, String, List, [], ◌∷◌, arith, eq_iff, ◌=ₛ◌}
use natbox.Store.{
  ManagedContainer, upsert_row, update_rows, has_row, delete_rows, insert_by_name, order_by_name,
}

-- No two rows have one name.
abbrev pub IsKeyed : List ManagedContainer → Type 0
IsKeyed [] = Unit
IsKeyed (r ∷ rs) = (has_row r.name rs ≡ false) × IsKeyed rs

pub has_row-append :
    (j : String) (rs ss : List ManagedContainer)
    → has_row j (rs ++ ss) ≡ (has_row j rs || has_row j ss)
unfolding has_row
has_row-append j [] ss = refl
has_row-append j (r ∷ rs) ss = ground (arith, has_row-append j rs ss)

has_row-upsert_row :
    (c : ManagedContainer) (rows : List ManagedContainer) (j : String)
    → has_row j (upsert_row c rows) ≡ (c.name =ₛ j || has_row j rows)
unfolding has_row upsert_row
has_row-upsert_row c [] j = ground arith
has_row-upsert_row c (r ∷ rs) j =
    ground
      (arith, eq_iff r.name c.name, eq_iff r.name j, eq_iff c.name j, has_row-upsert_row c rs j)

pub upsert_row-IsKeyed :
    (c : ManagedContainer) (rows : List ManagedContainer)
    → IsKeyed rows
    → IsKeyed (upsert_row c rows)
unfolding has_row upsert_row
upsert_row-IsKeyed c [] k = ground arith
upsert_row-IsKeyed c (r ∷ rs) k = ground (
  arith,
  eq_iff r.name c.name,
  eq_iff c.name r.name,
  has_row-upsert_row c rs r.name,
  upsert_row-IsKeyed c rs k.1,
)

module _ (name : String) (f : ManagedContainer → ManagedContainer)
    (same : (r : ManagedContainer) → (f r).name ≡ r.name) where
  has_row-update_rows :
      (rows : List ManagedContainer) (j : String)
      → has_row j (update_rows name f rows) ≡ has_row j rows
  unfolding has_row update_rows
  has_row-update_rows [] j = refl
  has_row-update_rows (r ∷ rs) j = ground (arith, same r, has_row-update_rows rs j)

  pub update_rows-IsKeyed :
      (rows : List ManagedContainer) → IsKeyed rows → IsKeyed (update_rows name f rows)
  unfolding has_row update_rows
  update_rows-IsKeyed [] k = tt
  update_rows-IsKeyed (r ∷ rs) k = ground (
    arith,
    same r,
    has_row-update_rows rs r.name,
    has_row-update_rows rs (f r).name,
    update_rows-IsKeyed rs k.1,
  )

has_row-delete_rows :
    (name : String) (rows : List ManagedContainer) (j : String)
    → has_row j rows ≡ false
    → has_row j (delete_rows name rows) ≡ false
unfolding has_row delete_rows
has_row-delete_rows name [] j h = refl
has_row-delete_rows name (r ∷ rs) j h = ground (arith, has_row-delete_rows name rs j)

pub delete_rows-IsKeyed :
    (name : String) (rows : List ManagedContainer) → IsKeyed rows → IsKeyed (delete_rows name rows)
unfolding has_row delete_rows
delete_rows-IsKeyed name [] k = tt
delete_rows-IsKeyed name (r ∷ rs) k =
    ground (arith, has_row-delete_rows name rs r.name, delete_rows-IsKeyed name rs k.1)

pub append_row-IsKeyed :
    (rows : List ManagedContainer) (c : ManagedContainer)
    → IsKeyed rows
    → has_row c.name rows ≡ false
    → IsKeyed (rows ++ c ∷ [])
unfolding has_row
append_row-IsKeyed [] c k h = ground arith
append_row-IsKeyed (r ∷ rs) c k h = ground (
  arith,
  eq_iff r.name c.name,
  eq_iff c.name r.name,
  has_row-append r.name rs (c ∷ []),
  append_row-IsKeyed rs c k.1,
)

has_row-insert_by_name :
    (c : ManagedContainer) (rows : List ManagedContainer) (j : String)
    → has_row j (insert_by_name c rows) ≡ (c.name =ₛ j || has_row j rows)
unfolding has_row insert_by_name
has_row-insert_by_name c [] j = refl
has_row-insert_by_name c (r ∷ rs) j = ground (arith, has_row-insert_by_name c rs j)

insert_by_name-IsKeyed :
    (c : ManagedContainer) (rows : List ManagedContainer)
    → has_row c.name rows ≡ false
    → IsKeyed rows
    → IsKeyed (insert_by_name c rows)
unfolding has_row insert_by_name
insert_by_name-IsKeyed c [] h k = ground arith
insert_by_name-IsKeyed c (r ∷ rs) h k = ground (
  arith,
  eq_iff r.name c.name,
  eq_iff c.name r.name,
  has_row-insert_by_name c rs r.name,
  insert_by_name-IsKeyed c rs,
)

has_row-order_by_name :
    (rows : List ManagedContainer) (j : String) → has_row j (order_by_name rows) ≡ has_row j rows
unfolding has_row order_by_name
has_row-order_by_name [] j = refl
has_row-order_by_name (r ∷ rs) j =
    ground (arith, has_row-insert_by_name r (order_by_name rs) j, has_row-order_by_name rs j)

pub order_by_name-IsKeyed :
    (rows : List ManagedContainer) → IsKeyed rows → IsKeyed (order_by_name rows)
unfolding order_by_name
order_by_name-IsKeyed [] k = tt
order_by_name-IsKeyed (r ∷ rs) k =
    insert_by_name-IsKeyed r (order_by_name rs) (has_row-order_by_name rs r.name ∙ k.0)
      (order_by_name-IsKeyed rs k.1)
