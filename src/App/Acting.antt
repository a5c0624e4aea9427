-- ===== src/App/Acting.antt =====
-- main.go: what a start, stop, restart or deletion answers, and what it leaves declared.
use natbox.Prelude.{
  ◌≡◌, ◌≢◌, refl, sym, ap, ◌∙◌, false, not, ◌&&◌, Option, none, some, List, [], ◌∷◌, String, arith,
  ◌=ₛ◌, eq_iff, no_rows, failure, Result, ok, err, attempt, Result-cases, inl, inr, Bool-cases,
  if◌then◌else◌, ◌⊎◌, name_pattern,
}
use mathlib.Core.Path.{subst}
use natbox.Incus.Runner.{Runtime, validate_name}
use natbox.Incus.Lifecycle
use natbox.Incus.Lifecycle.{lifecycle}
use natbox.Store
use natbox.Store.{ManagedContainer, Db}
use natbox.Store.Rows.{find_row}
use natbox.Store.Declared.{
  Updates, set_desired_state-Updates, Deletes, delete_container-Deletes, declared,
}
use natbox.App.Base.{Request, System, record_audit}
use natbox.App.Actions.{
  Action, start, stop, restart, delete, ActionResult, entry_of, action_text, run_action, set_wanted,
  container_action, wanted,
}
use natbox.App.Audited.{
  audit-containers, run_action-Silent, container_action_failed, wanting, wanting-map,
  set_state_plain,
}

-- What an action that was carried out makes of the declaration of its container.
abbrev pub becomes : String → Action → Option ManagedContainer → Option ManagedContainer
becomes now start declaration = wanting now "running" declaration
becomes now stop declaration = wanting now "stopped" declaration
becomes now restart declaration = wanting now "running" declaration
becomes now delete declaration = none

-- The rows after a change at one name alone.
abbrev pub ChangedAt :
    String
    → (Option ManagedContainer → Option ManagedContainer)
    → Db
    → List ManagedContainer
    → Type 0
ChangedAt name f db rows =
    (j : String) → find_row j rows ≡ (if name =ₛ j then f (declared db j) else declared db j)

abbrev pub SameDeclarations : Db → List ManagedContainer → Type 0
SameDeclarations db rows = (j : String) → find_row j rows ≡ declared db j

-- The change was stored, or the driver had a fault to come and no declaration is different.
abbrev pub StoredOrRefused :
    String
    → (Option ManagedContainer → Option ManagedContainer)
    → Db
    → List ManagedContainer
    → Type 0
StoredOrRefused name f db rows =
    ChangedAt name f db rows ⊎ ((db.faults ≢ []) × SameDeclarations db rows)

stored_same :
    (name : String) (f : Option ManagedContainer → Option ManagedContainer) (db before : Db)
    (rows later : List ManagedContainer)
    → before ≡ db
    → later ≡ rows
    → StoredOrRefused name f before rows
    → StoredOrRefused name f db later
stored_same name f db before rows later e same stored =
    subst (λ d. StoredOrRefused name f d later) e
      (subst (StoredOrRefused name f before) (sym same) stored)

module _ (now name state : String)
    (known : (not (state =ₛ "running") && not (state =ₛ "stopped")) ≡ false)
    (named : (name =ₛ "") ≡ false) (db : Db) where
  update_stored :
      (r : Result (Unit {0}) × Db)
      → db.faults ≢ []
      → Updates name (λ r. record r { desired_state = state; updated_at = now }) db r
      → StoredOrRefused name (wanting now state) db r.1.containers
  update_stored (ok a, after) faulty u = inl (λ j.
      u.1 j
      ∙ ap (λ o. if name =ₛ j then o else declared db j) (wanting-map now state (declared db j)))
  update_stored (err no_rows, after) faulty u = inr (faulty, u.1)
  update_stored (err (failure text), after) faulty u = inr (faulty, λ j. ap (find_row j) u)

  set_state_stored :
      StoredOrRefused name
        (wanting now state)
        db
        (Store.set_desired_state now name state db).1.containers
  set_state_stored = by_faults db.faults refl
    where
      by_faults :
          (faults : List (Option String))
          → db.faults ≡ faults
          → StoredOrRefused name
              (wanting now state)
              db
              (Store.set_desired_state now name state db).1.containers
      by_faults [] quiet = inl (λ j. set_state_plain now name state db j quiet named known)
      by_faults (fault ∷ faults) e =
          update_stored (Store.set_desired_state now name state db) (λ quiet. cc (e, quiet))
            (set_desired_state-Updates now name state db)

deleted_rows :
    (name : String) (db : Db) (r : Result (Unit {0}) × Db)
    → Deletes name db r
    → r.0 ≡ ok tt
    → ChangedAt name (λ _. none) db r.1.containers
deleted_rows name db (ok a, after) d h = d
deleted_rows name db (err e, after) d h = absurd (ground arith)

module _ {rt : Runtime} where
  -- What an action answers and leaves, seen from the result of its part on the runtime and the store.
  abbrev pub Acts :
      Request
      → Action
      → String
      → System rt
      → Result (Unit {0})
      → Result ActionResult × System rt
      → Type 0
  Acts request action name s (ok _) (answer, after) =
      (answer ≡ ok (entry_of name (action_text action) none))
      × StoredOrRefused name (becomes request.now action) s.db after.db.containers
  Acts request action name s (err e) (answer, after) =
      (answer ≡ err e) × (after.db.containers ≡ s.db.containers)

  -- An action on the empty name is refused.
  blank_refused :
      (request : Request) (action : Action) (s : System rt)
      → (run_action request action "" s).0 ≢ ok tt
  unfolding run_action lifecycle Lifecycle.delete validate_name name_pattern
  blank_refused request start s h = ground arith
  blank_refused request stop s h = ground arith
  blank_refused request restart s h = ground arith
  blank_refused request delete s h = ground arith

  run_action-named :
      (request : Request) (action : Action) (name : String) (s : System rt)
      → (run_action request action name s).0 ≡ ok tt
      → (name =ₛ "") ≡ false
  run_action-named request action name s done = elim (Bool-cases (name =ₛ "")) [
    | inr named ↦ named
    | inl blank ↦ absurd (
        blank_refused request action s
          (subst (λ n. (run_action request action n s).0 ≡ ok tt) ((eq_iff name "").0 blank) done))
  ]

  wanted_stored :
      (request : Request) (action : Action) (name state : String) (s : System rt)
      → wanted action ≡ some state
      → (run_action request action name s).0 ≡ ok tt
      → (not (state =ₛ "running") && not (state =ₛ "stopped")) ≡ false
      → ((container_action request action name s).0 ≡ ok (entry_of name (action_text action) none))
        × StoredOrRefused name
            (wanting request.now state)
            s.db
            (container_action request action name s).1.db.containers
  unfolding container_action attempt record_audit set_wanted
  wanted_stored request action name state s w done known =
      rw (done, w)
        (
          refl,
          stored_same name (wanting request.now state) s.db (run_action request action name s).1.db
              _ _ (run_action-Silent request action name state w s)
              (audit-containers request.now _ _)
              (set_state_stored request.now name state known
                (run_action-named request action name s done) _),
        )

  deleted :
      (request : Request) (name : String) (s : System rt)
      → (run_action request delete name s).0 ≡ ok tt
      → ChangedAt name (λ _. none) s.db (run_action request delete name s).1.db.containers
  unfolding run_action
  deleted request name s done = elim (Result-cases (Lifecycle.delete rt name s.world).0) [
    | inr (e, broke) ↦ absurd (ground (arith, broke, done))
    | inl (a, gone) ↦ rw gone (
        deleted_rows name s.db (Store.delete_container name s.db)
          (delete_container-Deletes name s.db) (ground (arith, gone, done)))
  ]

  deletion_stored :
      (request : Request) (name : String) (s : System rt)
      → (run_action request delete name s).0 ≡ ok tt
      → ((container_action request delete name s).0 ≡ ok (entry_of name "delete" none))
        × StoredOrRefused name
            (λ _. none)
            s.db
            (container_action request delete name s).1.db.containers
  unfolding container_action attempt record_audit set_wanted
  deletion_stored request name s done = rw done (
    refl,
    inl (λ j. ap (find_row j) (audit-containers request.now _ _) ∙ deleted request name s done j),
  )

  -- For each action and every failure: one whose part on the runtime and the store fails answers that error
  -- and changes no declaration; one that is carried out succeeds, and leaves its container wanted running
  -- behind a start or restart, wanted stopped behind a stop, not declared behind a deletion, and no other
  -- declaration changed, or changes no declaration where the driver had a fault to come.
  pub container_action-Acts :
      (request : Request) (action : Action) (name : String) (s : System rt)
      → Acts request action name s
          (run_action request action name s).0
          (container_action request action name s)
  container_action-Acts request action name s =
      elim (Result-cases (run_action request action name s).0) [
        | inr (e, broke) ↦ rw broke (container_action_failed request action name s e broke)
        | inl (a, done) ↦ rw done (carried action done)
      ]
    where
      carried :
          (action : Action)
          → (run_action request action name s).0 ≡ ok tt
          → ((container_action request action name s).0
              ≡ ok (entry_of name (action_text action) none))
            × StoredOrRefused name
                (becomes request.now action)
                s.db
                (container_action request action name s).1.db.containers
      carried start done = wanted_stored request start name "running" s refl done refl
      carried stop done = wanted_stored request stop name "stopped" s refl done refl
      carried restart done = wanted_stored request restart name "running" s refl done refl
      carried delete done = deletion_stored request name s done
