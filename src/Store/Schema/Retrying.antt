-- ===== src/Store/Schema/Retrying.antt =====
-- internal/store/store.go: Open on new, old and half-migrated database files.
use natbox.Prelude.{
  false, ◌≡◌, ◌≢◌, refl, sym, ap, ◌∙◌, String, Option, none, List, [], ◌∷◌, ◌=ₛ◌, Exec, Result, ok,
  err, trim_space, if◌then◌else◌, ◌>>◌, arith, Bool-cases, inl, inr, Checks, reject-Checks,
  refuse-Checks, eq_iff,
}
use mathlib.Core.List.{Permᴰ}
use natbox.Store.Schema.{
  Value, Table, Schema, Opening, changed, policy_columns, migrate, open_store, inspected,
  chmod_fault, fault_text,
}
use natbox.Store.Schema.Running.{IsUsable, After, Runs, then-Runs, weaken-Runs}
use natbox.Store.Schema.Widening.{Keeps, Keeps-trans}
use natbox.Store.Schema.Kept.{open_store-Keeps, migrate-Keeps}
use natbox.Store.Schema.Migrating.{Indexed, run_statements-Runs}
use natbox.Store.Schema.Columns.{present, ensure_policy_columns-Runs, Recorded, record_version-Runs}

-- All tables, the index and every column of the policies are there, and both versions are recorded.
abbrev pub IsMigrated : Schema → Type 0
IsMigrated = Recorded policy_columns (2 ∷ 1 ∷ [])

pub present-perm :
    {xs ys : List (String × Value)} (o : Option Table) → Permᴰ xs ys → present xs o ≡ present ys o
present-perm o Permᴰ.nil = refl
present-perm o (Permᴰ.cons {a} {b} e p) =
    ground (arith, ap (λ (c : String × Value). inspected (c.0) o) e, present-perm o p)
present-perm o (Permᴰ.swap {a} {b} {a'} {b'} {l} e f) = ground (
  arith,
  ap (λ (c : String × Value). inspected (c.0) o) e,
  ap (λ (c : String × Value). inspected (c.0) o) f,
)
present-perm o (Permᴰ.trans p q) = present-perm o p ∙ present-perm o q

module _ (order : List (String × Value)) (now : String) (whole : Permᴰ order policy_columns) where
  migrate-Runs : Runs IsUsable (λ _. IsMigrated) (migrate order now)
  unfolding migrate
  migrate-Runs =
      then-Runs (λ _. Indexed) _ _ run_statements-Runs
        λ _.
          then-Runs (λ _. Recorded policy_columns []) _ _
            (weaken-Runs _ (λ s h. h)
              (λ _ s h. (
                refl,
                sym (present-perm s.managed_containers whole) ∙ h.0,
                h.1,
                h.2,
                h.3,
                h.4,
                h.5,
              ))
              (ensure_policy_columns-Runs order))
            λ _.
              then-Runs (λ _. Recorded policy_columns (1 ∷ [])) _ _
                (record_version-Runs policy_columns [] 1 now "record database migration: ")
                λ _. record_version-Runs policy_columns (1 ∷ []) 2 now "record policy migration: "

-- What an opening has done to the file `s`.
abbrev pub Opens : Schema → Result (Unit {0}) × Schema → Type 0
Opens s (ok _, t) = IsMigrated t × Keeps s t
Opens s (err e, t) = IsUsable t × Keeps s t

-- What an opening answers for a file, and what it leaves.
abbrev pub Leaves : Result (Unit {0}) × Schema → Type 0
Leaves (ok _, t) = IsMigrated t
Leaves (err e, t) = IsUsable t

Leaves-After :
    (s : Schema) (r : Result (Unit {0}) × Schema) → After (λ _. IsMigrated) s r → Leaves r
Leaves-After s (ok a, t) h = h.0
Leaves-After s (err e, t) h = h.1

-- A check before the migration leaves the file.
checked-Leaves :
    (m n : Exec Schema (Unit {0}))
    → Checks m
    → ((s : Schema) → IsUsable s → Leaves (n s))
    → (s : Schema) → IsUsable s
    → Leaves ((m >> n) s)
checked-Leaves m n c k s h = elim (c s) [
  | inl passed ↦ rw passed (k s h)
  | inr (e, refused) ↦ rw refused h
]

-- What the system says to an opening in which it refuses nothing.
abbrev pub granted : Opening
granted = record { directory_fault = none; driver_fault = none; chmod = changed }

pub granted_opens :
    (path directory : String) (order : List (String × Value)) (now : String) (s : Schema)
    → trim_space path ≢ ""
    → open_store path directory granted order now s ≡ migrate order now s
unfolding open_store
granted_opens path directory order now s named =
    let blank : (trim_space path =ₛ "") ≡ false = ground (arith, eq_iff (trim_space path) "") in
    elim (Bool-cases (directory =ₛ ".")) [
      | inl here ↦ rw (blank, here) refl
      | inr there ↦ rw (blank, there) refl
    ]

module _ (path directory : String) (order : List (String × Value)) (now : String)
    (whole : Permᴰ order policy_columns) where
  open_store-Leaves :
      (opening : Opening) (s : Schema)
      → IsUsable s
      → Leaves (open_store path directory opening order now s)
  unfolding open_store
  open_store-Leaves opening =
      checked-Leaves _ _ (reject-Checks (trim_space path =ₛ "") "database path is required") (
        checked-Leaves _ _
          (refuse-Checks (
            if directory =ₛ "."
            then none
            else fault_text "create database directory: " opening.directory_fault))
          (checked-Leaves _ _ (refuse-Checks (fault_text "open database: " opening.driver_fault)) (
            checked-Leaves _ _ (refuse-Checks (chmod_fault opening.chmod))
              λ s h. Leaves-After s (migrate order now s) ((migrate-Runs order now whole).at s h))))

  -- Open on a new file or on one with older tables, in whatever order Go walks through the map of columns:
  -- where it succeeds, every table, the index and every column of the policies are there and both
  -- versions are recorded; and whatever it answers, each row that was there has its values, with the
  -- defaults of just the policies' columns that were added behind them, the audit table and its events
  -- are as they were, and no recorded version is lost.
  pub open_store-Opens :
      (opening : Opening) (s : Schema)
      → IsUsable s
      → Opens s (open_store path directory opening order now s)
  open_store-Opens opening s h =
      both _ (open_store-Leaves opening s h)
        ((open_store-Keeps path directory opening order now whole).at s)
    where
      both : (r : Result (Unit {0}) × Schema) → Leaves r → Keeps s r.1 → Opens s r
      both (ok a, t) l k = (l, k)
      both (err e, t) l k = (l, k)

Opens-IsUsable : (s : Schema) (r : Result (Unit {0}) × Schema) → Opens s r → IsUsable r.1
Opens-IsUsable s (ok a, t) h = (h.0).6
Opens-IsUsable s (err e, t) h = h.0

-- What an opening does where nothing is refused.
Done : Schema → Result (Unit {0}) × Schema → Type 0
Done s r = (r.0 ≡ ok tt) × IsMigrated r.1

After-Done :
    (s : Schema) (r : Result (Unit {0}) × Schema)
    → s.faults ≡ []
    → After (λ _. IsMigrated) s r
    → Done s r
unfolding Done
After-Done s (ok tt, t) e h = (refl, h.0)
After-Done s (err e', t) e h = absurd (h.0 e)

-- An opening that broke off at whatever statement can be tried again: where the system and the driver
-- refuse nothing any more, the next one succeeds with all tables, columns and versions, whatever order
-- the columns are walked through in, and with all that was in the file before the first one.
pub open_store_again :
    (path directory : String) (order order' : List (String × Value)) (now later : String)
    (opening : Opening) (s : Schema)
    → Permᴰ order policy_columns
    → Permᴰ order' policy_columns
    → IsUsable s
    → trim_space path ≢ ""
    → let first = (open_store path directory opening order now s).1 in
      let second = open_store path directory granted order' later (record first { faults = [] }) in
      (second.0 ≡ ok tt) × IsMigrated second.1 × Keeps s second.1
unfolding Done
open_store_again path directory order order' now later opening s whole whole' h named =
    let first = (open_store path directory opening order now s).1 in
    let cleared = record first { faults = [] } in
    let usable = Opens-IsUsable s _ (open_store-Opens path directory order now whole opening s h) in
    let second = migrate order' later cleared in
    let ends =
      After-Done cleared second refl ((migrate-Runs order' later whole').at cleared usable) in
    rw (granted_opens path directory order' later cleared named) (
      ends.0,
      ends.1,
      Keeps-trans s first second.1 ((open_store-Keeps path directory opening order now whole).at s)
          ((migrate-Keeps order' later whole').at cleared),
    )
