-- ===== src/Store/Declared.antt =====
-- The table of internal/store/store.go as a client sees it: a partial function from names to
-- declarations.
use mathlib.Core.Option
use natbox.Prelude.{
  ◌≡◌, refl, true, false, not, ◌&&◌, ◌||◌, String, Option, none, some, arith, eq_iff, ◌=ₛ◌,
  if◌then◌else◌, ℤ, pos, ltb_ℤ, no_rows, failure, ok, err, Result, trim_space, Bool-cases,
  Option-cases, inl, inr, sym, ap, ◌∙◌,
}
use natbox.Store.{
  ManagedContainer, Db, upsert_container, set_desired_state, update_policy, delete_container,
  has_row, affected, update_rows, next_fault, or_default,
}
use natbox.Store.Rows.{
  find_row, merged, is_found, find_row-upsert_row, find_row-update_rows, find_row-delete_rows,
  has_row-find_row,
}

-- The declaration of a name, if it has one.
abbrev pub declared : Db → String → Option ManagedContainer
declared db j = find_row j db.containers

-- What a declared update promises: on success the declaration of `name` is changed by `f` and was
-- there; with `no_rows` it was not there; and no other name, nor anything after another error,
-- changes.
abbrev pub Updates :
    String → (ManagedContainer → ManagedContainer) → Db → Result (Unit {0}) × Db → Type 0
Updates name f db (ok _, after) =
    (is_found (declared db name) ≡ true)
    × ((j : String)
        → declared after j ≡ (if name =ₛ j then Option.map f (declared db j) else declared db j))
Updates name f db (err no_rows, after) =
    (declared db name ≡ none) × ((j : String) → declared after j ≡ declared db j)
Updates name f db (err (failure text), after) = after.containers ≡ db.containers

-- The declaration that UpsertContainer stores for a name that has none.
abbrev pub stored : String → ManagedContainer → ManagedContainer
stored now c = record c {
  desired_state = or_default c.desired_state "running";
  created_at = or_default c.created_at now;
  updated_at = now;
}

-- An upsert that succeeds stores the declaration under its name, where a declaration that was there
-- keeps its quota, baselines, reset time, expiry and creation time; it changes no other name. One
-- that fails changes nothing.
abbrev pub Upserts : String → ManagedContainer → Db → Result (Unit {0}) × Db → Type 0
Upserts now c db (ok _, after) =
    ((trim_space c.name =ₛ "") ≡ false)
    × ((j : String)
        → declared after j ≡ (
            if c.name =ₛ j
            then some (merged (stored now c) (declared db c.name))
            else declared db j))
Upserts now c db (err e, after) = after.containers ≡ db.containers

pub upsert_container-Upserts :
    (now : String) (c : ManagedContainer) (db : Db) → Upserts now c db (upsert_container now c db)
unfolding upsert_container
upsert_container-Upserts now c db = elim (Bool-cases (trim_space c.name =ₛ "")) [
  | inl blank ↦ rw blank refl
  | inr named ↦ rw named (elim (Option-cases (next_fault db.faults)) [
    | inr (text, refused) ↦ rw refused refl
    | inl fine ↦ rw fine (named, λ j. find_row-upsert_row (stored now c) db.containers j)
  ])
]

module _ (name : String) (f : ManagedContainer → ManagedContainer)
    (same : (r : ManagedContainer) → (f r).name ≡ r.name) (db : Db) where
  -- The rows after `UPDATE … WHERE name=?`, and the test on RowsAffected.
  Updates-affected :
      (d : Db)
      → d.containers ≡ update_rows name f db.containers
      → Updates name f db (affected (has_row name db.containers) d)
  unfolding affected
  Updates-affected d rows = elim (Bool-cases (has_row name db.containers)) [
    | inl found ↦ rw found (
      sym (has_row-find_row name db.containers) ∙ found,
      λ j. ap (find_row j) rows ∙ find_row-update_rows name f same db.containers j,
    )
    | inr missing ↦ rw missing (
        let none_there = not_declared missing in
        (
          none_there,
          λ j.
              ap (find_row j) rows
              ∙ find_row-update_rows name f same db.containers j
              ∙ ground (arith, none_there, eq_iff name j),
        ))
  ]
    where
      not_declared : has_row name db.containers ≡ false → declared db name ≡ none
      not_declared missing = ground (arith, has_row-find_row name db.containers)

-- SetDesiredState accepts "running" and "stopped" only, and changes only the state and update time.
pub set_desired_state-Updates :
    (now name state : String) (db : Db)
    → Updates name
        (λ r. record r { desired_state = state; updated_at = now })
        db
        (set_desired_state now name state db)
unfolding set_desired_state
set_desired_state-Updates now name state db =
    elim (Bool-cases (name =ₛ "" || (not (state =ₛ "running") && not (state =ₛ "stopped")))) [
      | inl wrong ↦ rw wrong refl
      | inr fine ↦ rw fine (elim (Option-cases (next_fault db.faults)) [
        | inr (text, refused) ↦ rw refused refl
        | inl passed ↦ rw passed (
            Updates-affected name (λ r. record r { desired_state = state; updated_at = now })
              (λ r. refl) db _ refl)
      ])
    ]

-- UpdatePolicy accepts no negative number, and changes only the policy's five columns and the update
-- time.
update_policy-Updates :
    (now name : String) (quota rx tx : ℤ) (reset_at expires_at : String) (db : Db)
    → Updates name
        (λ r. record r {
          quota_bytes = quota;
          quota_rx_baseline = rx;
          quota_tx_baseline = tx;
          quota_reset_at = reset_at;
          expires_at = expires_at;
          updated_at = now;
        })
        db
        (update_policy now name quota rx tx reset_at expires_at db)
unfolding update_policy
update_policy-Updates now name quota rx tx reset_at expires_at db =
    elim (Bool-cases (name =ₛ "" || ltb_ℤ quota (pos 0) || ltb_ℤ rx (pos 0) || ltb_ℤ tx (pos 0))) [
      | inl wrong ↦ rw wrong refl
      | inr fine ↦ rw fine (elim (Option-cases (next_fault db.faults)) [
        | inr (text, refused) ↦ rw refused refl
        | inl passed ↦ rw passed (Updates-affected name _ (λ r. refl) db _ refl)
      ])
    ]

-- A delete removes the declaration of its name and no other, or fails and removes none.
abbrev pub Deletes : String → Db → Result (Unit {0}) × Db → Type 0
Deletes name db (ok _, after) =
    (j : String) → declared after j ≡ (if name =ₛ j then none else declared db j)
Deletes name db (err _, after) = after.containers ≡ db.containers

pub delete_container-Deletes :
    (name : String) (db : Db) → Deletes name db (delete_container name db)
unfolding delete_container
delete_container-Deletes name db = elim (Option-cases (next_fault db.faults)) [
  | inr (text, refused) ↦ rw refused refl
  | inl passed ↦ rw passed (λ j. find_row-delete_rows name db.containers j)
]
