-- ===== src/App/Reconcile/Report.antt =====
-- reconcile.go: the lists of the report, seen at one name.
use natbox.Prelude.{
  ◌≡◌, refl, ap, ◌∙◌, Bool, true, false, not, ◌&&◌, ◌||◌, String, Option, none, some, List, [], ◌∷◌,
  arith, eq_iff, ◌=ₛ◌, any, if◌then◌else◌, Option-cases, inl, inr,
}
use natbox.Incus.Runner.{Instance}
use natbox.Store.{ManagedContainer}
use natbox.Store.Rows.{find_row, is_found, has_row-find_row, find_row-order_by_name}
use natbox.Store.Keys.{IsKeyed}
use natbox.App.Policy.{last_named}
use natbox.App.Reconcile.{
  StateDrift, PortForwardIssue, same_bool, missing_of, drifts_of, unmanaged_of, report_of,
  insert_drift, sort_drifts, insert_instance, sort_instances,
}

abbrev pub is_live : Option Instance → Bool
is_live none = false
is_live (some i) = true

-- A declared container with an instance that runs though it should not, or does not though it should.
abbrev pub differs : Option ManagedContainer → Option Instance → Bool
differs none i = false
differs (some r) none = false
differs (some r) (some i) = not (same_bool (r.desired_state =ₛ "running") (i.status =ₛ "Running"))

abbrev pub names_drift : String → List StateDrift → Bool
names_drift name ds = any (λ d. d.name =ₛ name) ds

abbrev pub names_instance : String → List Instance → Bool
names_instance name is = any (λ i. i.name =ₛ name) is

names-insert_drift :
    (name : String) (d : StateDrift) (ds : List StateDrift)
    → names_drift name (insert_drift d ds) ≡ d.name =ₛ name || names_drift name ds
unfolding insert_drift
names-insert_drift name d [] = refl
names-insert_drift name d (x ∷ xs) = ground (arith, names-insert_drift name d xs)

names-sort_drifts :
    (name : String) (ds : List StateDrift) → names_drift name (sort_drifts ds) ≡ names_drift name ds
unfolding sort_drifts
names-sort_drifts name [] = refl
names-sort_drifts name (d ∷ ds) =
    names-insert_drift name d (sort_drifts ds)
    ∙ ap (λ b. d.name =ₛ name || b) (names-sort_drifts name ds)

names-insert_instance :
    (name : String) (d : Instance) (ds : List Instance)
    → names_instance name (insert_instance d ds) ≡ d.name =ₛ name || names_instance name ds
unfolding insert_instance
names-insert_instance name d [] = refl
names-insert_instance name d (x ∷ xs) = ground (arith, names-insert_instance name d xs)

names-sort_instances :
    (name : String) (ds : List Instance)
    → names_instance name (sort_instances ds) ≡ names_instance name ds
unfolding sort_instances
names-sort_instances name [] = refl
names-sort_instances name (d ∷ ds) =
    names-insert_instance name d (sort_instances ds)
    ∙ ap (λ b. d.name =ₛ name || b) (names-sort_instances name ds)

-- The rows whose name has no instance.
find_row-missing_of :
    (name : String) (instances : List Instance) (rows : List ManagedContainer)
    → find_row name (missing_of instances rows)
      ≡ (if is_live (last_named name instances) then none else find_row name rows)
unfolding find_row missing_of
find_row-missing_of name instances [] = ground arith
find_row-missing_of name instances (r ∷ rs) = elim (Option-cases (last_named r.name instances)) [
  | inl gone ↦ ground (arith, eq_iff r.name name, gone, find_row-missing_of name instances rs)
  | inr (i, there) ↦
      ground (arith, eq_iff r.name name, there, find_row-missing_of name instances rs)
]

names-drifts_of :
    (name : String) (instances : List Instance) (rows : List ManagedContainer)
    → IsKeyed rows
    → names_drift name (drifts_of instances rows)
      ≡ differs (find_row name rows) (last_named name instances)
unfolding find_row drifts_of
names-drifts_of name instances [] keyed = refl
names-drifts_of name instances (r ∷ rs) keyed =
    let ih = names-drifts_of name instances rs keyed.1 in
    let absent = has_row-find_row r.name rs in
    elim (Option-cases (last_named r.name instances)) [
      | inl gone ↦ ground (arith, eq_iff r.name name, gone, ih, absent, keyed.0)
      | inr (i, there) ↦ ground (arith, eq_iff r.name name, there, ih, absent, keyed.0)
    ]

names-unmanaged_of :
    (name : String) (rows : List ManagedContainer) (instances : List Instance)
    → names_instance name (unmanaged_of rows instances)
      ≡ is_live (last_named name instances) && not (is_found (find_row name rows))
unfolding unmanaged_of last_named
names-unmanaged_of name rows [] = refl
names-unmanaged_of name rows (i ∷ is) =
    let ih = names-unmanaged_of name rows is in
    let here = has_row-find_row i.name rows in
    elim (Option-cases (last_named name is)) [
      | inl gone ↦ rw gone (ground (arith, eq_iff i.name name, gone, ih, here))
      | inr (x, there) ↦ rw there (ground (arith, eq_iff i.name name, there, ih, here))
    ]

-- The drift of a report is exactly that of the declared names whose instance runs though it should not, or
-- does not run though it should; no two rows have one name.
pub report_of-drift :
    (name : String) (managed : List ManagedContainer) (instances : List Instance)
    (issues : List PortForwardIssue)
    → IsKeyed managed
    → names_drift name (report_of managed instances issues).desired_state_drift
      ≡ differs (find_row name managed) (last_named name instances)
unfolding report_of
report_of-drift name managed instances issues keyed =
    names-sort_drifts name (drifts_of instances managed)
    ∙ names-drifts_of name instances managed keyed

-- A report lists as missing the declared containers with no instance, each with its row, and as unmanaged
-- the instances with no row.
pub report_of-presence :
    (name : String) (managed : List ManagedContainer) (instances : List Instance)
    (issues : List PortForwardIssue)
    → (find_row name (report_of managed instances issues).managed_missing
        ≡ (if is_live (last_named name instances) then none else find_row name managed))
      × (names_instance name (report_of managed instances issues).runtime_unmanaged
          ≡ is_live (last_named name instances) && not (is_found (find_row name managed)))
unfolding report_of
report_of-presence name managed instances issues = (
  find_row-order_by_name (missing_of instances managed) name
      ∙ find_row-missing_of name instances managed,
  names-sort_instances name (unmanaged_of managed instances)
      ∙ names-unmanaged_of name managed instances,
)
