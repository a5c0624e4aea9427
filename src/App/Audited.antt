-- ===== src/App/Audited.antt =====
-- main.go: records, clean-ups and actions, seen at the table of declarations.
use mathlib.Core.Option
use natbox.Prelude.{
  ◌≡◌, ◌≢◌, refl, ◌∙◌, ap, false, not, ◌&&◌, Option, none, some, List, [], ◌∷◌, arith, ◌=ₛ◌, String,
  Error, Result, ok, err, Exec, attempt, Result-cases, inl, inr, Bool-cases, ◌>>=◌, if◌then◌else◌,
}
use natbox.Incus.Runner.{Runtime}
use natbox.Incus.Query.{wait_ipv4}
use natbox.Incus.Lifecycle
use natbox.Store
use natbox.Store.Declared.{Deletes, delete_container-Deletes, declared}
use natbox.Store.Rows.{find_row-update_rows}
use natbox.Store.{has_row, update_rows, ManagedContainer, Db, AuditEvent}
use natbox.App.Base.{Request, System, on_runtime, record_audit, record_system_audit}
use natbox.App.Create.{cleanup_container}
use natbox.App.Bulk.{Entry, rollback_bulk}
use natbox.App.Actions.{
  Action, start, stop, restart, delete, run_action, wanted, container_action, waited,
}

pub audit-containers :
    (now : String) (event : AuditEvent) (db : Db)
    → (Store.audit now event db).1.containers ≡ db.containers
unfolding Store.audit
audit-containers now event db = ground arith

delete_failed :
    (name : String) (db : Db) (e : Error) (r : Result (Unit {0}) × Db)
    → Deletes name db r
    → r.0 ≡ err e
    → r.1.containers ≡ db.containers
delete_failed name db e (ok a, after) d h = elim (succeeded a e h) [ ]
  where
    succeeded : (a : Unit {0}) (e : Error) → ok a ≢ err e
    succeeded a e h = ground arith
delete_failed name db e (err x, after) d h = d

module _ {rt : Runtime} where
  pub record_audit-containers :
      (request : Request) (action target id result details : String) (s : System rt)
      → (record_audit {rt = rt} request action target id result details s).1.db.containers
        ≡ s.db.containers
  unfolding record_audit attempt
  record_audit-containers request action target id result details s =
      audit-containers request.now _ s.db

  pub record_system_audit-containers :
      (now action id result details : String) (s : System rt)
      → (record_system_audit {rt = rt} now action id result details s).1.db.containers
        ≡ s.db.containers
  unfolding record_system_audit attempt
  record_system_audit-containers now action id result details s = audit-containers now _ s.db

  cleanup_container-containers :
      (request : Request) (name : String) (s : System rt)
      → (cleanup_container request name s).1.db.containers ≡ s.db.containers
  unfolding cleanup_container attempt
  cleanup_container-containers request name s =
      elim (Result-cases (Lifecycle.delete rt name s.world).0) [
        | inl (a, done) ↦ rw done (record_system_audit-containers request.now _ _ _ _ _)
        | inr (e, broke) ↦ rw broke (record_system_audit-containers request.now _ _ _ _ _)
      ]

  -- The declarations are left as they are.
  Keeps : {A : Type 0} → Exec (System rt) A → Type 0
  Keeps m = (s : System rt) → (m s).1.db.containers ≡ s.db.containers

  then-Keeps :
      {A : Type 0} {B : Type 0} (m : Exec (System rt) A) (f : A → Exec (System rt) B)
      → Keeps m
      → ((a : A) → Keeps (f a))
      → Keeps (m >>= f)
  unfolding Keeps
  then-Keeps m f km kf s = elim (Result-cases (m s).0) [
    | inl (a, done) ↦ rw done (kf a (m s).1 ∙ km s)
    | inr (e, broke) ↦ rw broke (km s)
  ]

  -- Rolling a batch back deletes instances and records that it did; the rows that the batch has put into
  -- the database stay.
  pub rollback_bulk-containers :
      (request : Request) (done : List Entry) (s : System rt)
      → (rollback_bulk request done s).1.db.containers ≡ s.db.containers
  unfolding rollback_bulk Keeps
  rollback_bulk-containers request [] s = refl
  rollback_bulk-containers request (e ∷ es) s = elim (Bool-cases (e.name =ₛ "")) [
    | inl unnamed ↦ rw unnamed (rollback_bulk-containers request es s)
    | inr named ↦ rw named (
        then-Keeps (cleanup_container request e.name) (λ a. rollback_bulk request es)
          (cleanup_container-containers request e.name) (λ a. rollback_bulk-containers request es)
          s)
  ]

  -- The database is left as it is.
  abbrev Silent : {A : Type 0} → Exec (System rt) A → Type 0
  Silent m = (s : System rt) → (m s).1.db ≡ s.db

  then-Silent :
      {A : Type 0} {B : Type 0} (m : Exec (System rt) A) (f : A → Exec (System rt) B)
      → Silent m
      → ((a : A) → Silent (f a))
      → Silent (m >>= f)
  then-Silent m f km kf s = elim (Result-cases (m s).0) [
    | inl (a, done) ↦ rw done (kf a (m s).1 ∙ km s)
    | inr (e, broke) ↦ rw broke (km s)
  ]

  waited-Silent : (request : Request) (name : String) → Silent (waited {rt = rt} request name)
  unfolding waited
  waited-Silent request name s =
      elim (Result-cases (wait_ipv4 rt request.cause (request.ticks name) name s.world).0) [
        | inl (a, done) ↦ rw done refl
        | inr (e, broke) ↦ rw broke refl
      ]

  -- An action that wants a state is the runtime's alone.
  pub run_action-Silent :
      (request : Request) (action : Action) (name state : String)
      → wanted action ≡ some state
      → Silent (run_action {rt = rt} request action name)
  unfolding run_action
  run_action-Silent request start name state h s =
      then-Silent (on_runtime (Lifecycle.start rt name)) (λ a. waited request name) (λ t. refl)
        (λ a. waited-Silent request name) s
  run_action-Silent request stop name state h s = refl
  run_action-Silent request restart name state h s =
      then-Silent (on_runtime (Lifecycle.restart rt name)) (λ a. waited request name) (λ t. refl)
        (λ a. waited-Silent request name) s
  run_action-Silent request delete name state h s = ground arith

  behind_delete :
      (request : Request) (name : String) (s : System rt) (a : Unit {0}) (e : Error)
      → (Lifecycle.delete rt name s.world).0 ≡ ok a
      → (run_action request delete name s).0 ≡ err e
      → (Store.delete_container name s.db).0 ≡ err e
  unfolding run_action
  behind_delete request name s a e done h = ground (arith, done, h)

  -- An action that fails has changed no declaration.
  run_action_failed :
      (request : Request) (action : Action) (name : String) (s : System rt) (e : Error)
      → (run_action request action name s).0 ≡ err e
      → (run_action request action name s).1.db.containers ≡ s.db.containers
  unfolding run_action
  run_action_failed request start name s e h =
      ap (λ d. d.containers) (run_action-Silent request start name "running" refl s)
  run_action_failed request stop name s e h = refl
  run_action_failed request restart name s e h =
      ap (λ d. d.containers) (run_action-Silent request restart name "running" refl s)
  run_action_failed request delete name s e h =
      elim (Result-cases (Lifecycle.delete rt name s.world).0) [
        | inl (a, done) ↦ rw done (
            delete_failed name s.db e _ (delete_container-Deletes name s.db)
              (behind_delete request name s a e done h))
        | inr (x, broke) ↦ rw broke refl
      ]

  -- A start, stop, restart or deletion whose runtime or database part fails answers that error, and leaves
  -- every declaration as it was.
  pub container_action_failed :
      (request : Request) (action : Action) (name : String) (s : System rt) (e : Error)
      → (run_action request action name s).0 ≡ err e
      → ((container_action request action name s).0 ≡ err e)
        × ((container_action request action name s).1.db.containers ≡ s.db.containers)
  unfolding container_action attempt record_audit
  container_action_failed request action name s e h =
      rw h (refl, audit-containers request.now _ _ ∙ run_action_failed request action name s e h)

abbrev pub wanting : String → String → Option ManagedContainer → Option ManagedContainer
wanting now state none = none
wanting now state (some r) = some (record r { desired_state = state; updated_at = now })

pub wanting-map :
    (now state : String) (o : Option ManagedContainer)
    → Option.map (λ (r : ManagedContainer). record r { desired_state = state; updated_at = now }) o
      ≡ wanting now state o
wanting-map now state none = refl
wanting-map now state (some r) = refl

-- With no driver fault to come, storing a wanted state changes that state at its name alone.
pub set_state_plain :
    (now name state : String) (db : Db) (j : String)
    → db.faults ≡ []
    → (name =ₛ "") ≡ false
    → (not (state =ₛ "running") && not (state =ₛ "stopped")) ≡ false
    → declared (Store.set_desired_state now name state db).1 j
      ≡ (if name =ₛ j then wanting now state (declared db j) else declared db j)
unfolding Store.set_desired_state
set_state_plain now name state db j quiet named known =
    elim (Bool-cases (has_row name db.containers)) [
      | inl found ↦ rw (quiet, named, known, found) updated
      | inr missing ↦ rw (quiet, named, known, missing) updated
    ]
  where
    updated :
        declared
          (record db {
            containers =
                update_rows name
                  (λ r. record r { desired_state = state; updated_at = now })
                  db.containers;
          })
          j
        ≡ (if name =ₛ j then wanting now state (declared db j) else declared db j)
    updated =
        find_row-update_rows name (λ r. record r { desired_state = state; updated_at = now })
          (λ r. refl) db.containers j
        ∙ ap (λ o. if name =ₛ j then o else declared db j) (wanting-map now state (declared db j))
