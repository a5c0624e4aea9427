-- ===== src/App/History.antt =====
-- main.go, policy.go and reconcile.go: what the application does to the database is a history of calls of
-- the store's methods.
pub mod Creating
pub mod Acting
pub mod Enforcing
use natbox.Prelude.{
  ◌≡◌, refl, ℕ, Bool, true, false, String, Option, none, some, List, [], ◌∷◌, ◌++◌, ℤ, Error,
  no_rows, failure, Result, ok, err, Exec, pure, fail, attempt, refuse, reject, on_error, ◌>>=◌,
  ◌>>◌, Option-cases, inl, inr, Result-cases, if◌then◌else◌,
}
use natbox.Prelude.Follows
use natbox.Prelude.Follows.{Follows}
use natbox.Incus.Runner.{Runtime, Instance}
use natbox.Store
use natbox.Store.{Db, ManagedContainer}
use natbox.Store.History.{
  Reaches, here, Reaches-trans, upsert_container-Reaches, set_desired_state-Reaches,
  delete_container-Reaches, update_policy-Reaches, audit-Reaches, list_containers-Reaches,
}
use natbox.App.Base.{
  Config, Request, System, on_runtime, on_store, record_audit, record_system_audit,
}
use natbox.App.Capacity.{HostSnapshot}
use natbox.App.Create
use natbox.App.Create.{CreateContainerRequest}
use natbox.App.Bulk
use natbox.App.Bulk.{BulkCreateRequest, Entry}
use natbox.App.Policy
use natbox.App.Policy.{TimeFormat}
use natbox.App.Reconcile
use natbox.App.Reconcile.{PortForwardIssue, StateDrift}
use natbox.App.Actions
use natbox.App.Actions.{Action}

module _ {rt : Runtime} where
  -- The database of the second system comes from that of the first by calls of the store.
  abbrev pub Proceeds : System rt → System rt → Type 0
  Proceeds s t = Reaches s.db t.db

  abbrev pub IsHistory : {A : Type 0} → Exec (System rt) A → Type 0
  IsHistory m = Follows Proceeds m

  pub Proceeds-here : (s : System rt) → Proceeds s s
  Proceeds-here s = here

  pub Proceeds-trans : (s t u : System rt) → Proceeds s t → Proceeds t u → Proceeds s u
  Proceeds-trans s t u p q = Reaches-trans p q

  pub then-IsHistory :
      {A B : Type 0} (m : Exec (System rt) A) (f : A → Exec (System rt) B)
      → IsHistory m
      → ((a : A) → IsHistory (f a))
      → IsHistory (m >>= f)
  then-IsHistory = Follows.then-Follows Proceeds Proceeds-here Proceeds-trans

  pub attempt-IsHistory :
      {A B : Type 0} (m : Exec (System rt) A) (f : Result A → Exec (System rt) B)
      → IsHistory m
      → ((r : Result A) → IsHistory (f r))
      → IsHistory (attempt m >>= f)
  attempt-IsHistory = Follows.attempt-Follows Proceeds Proceeds-here Proceeds-trans

  -- A call of the runtime leaves the database.
  pub runtime-IsHistory : {A : Type 0} (m : Exec rt.World A) → IsHistory (on_runtime m)
  runtime-IsHistory m = record { at = λ s. here }

  pub pure-IsHistory : {A : Type 0} (r : Result A) → IsHistory (λ s. (r, s))
  pure-IsHistory r = record { at = λ s. here }

  -- The same for a result that is taken apart at once.
  pub cases-IsHistory :
      {A B : Type 0} (f : Result A → Exec (System rt) B)
      → ((a : A) → IsHistory (f (ok a)))
      → ((e : Error) → IsHistory (f (err e)))
      → (r : Result A) → IsHistory (f r)
  cases-IsHistory f succeeds fails (ok a) = succeeds a
  cases-IsHistory f succeeds fails (err e) = fails e

  pub on_error-IsHistory :
      {A : Type 0} (m : Exec (System rt) A) (h : Error → Exec (System rt) (Unit {0}))
      → IsHistory m
      → ((e : Error) → IsHistory (h e))
      → IsHistory (on_error m h)
  on_error-IsHistory = Follows.on_error-Follows Proceeds Proceeds-here Proceeds-trans

  pub if-IsHistory :
      {A : Type 0} (b : Bool) (m n : Exec (System rt) A)
      → IsHistory m
      → IsHistory n
      → IsHistory (if b then m else n)
  if-IsHistory = Follows.if-Follows Proceeds Proceeds-here Proceeds-trans

  pub reject-IsHistory : (b : Bool) (text : String) → IsHistory (reject b text)
  reject-IsHistory = Follows.reject-Follows Proceeds Proceeds-here Proceeds-trans

  pub refuse-IsHistory : (o : Option String) → IsHistory (refuse o)
  refuse-IsHistory = Follows.refuse-Follows Proceeds Proceeds-here Proceeds-trans

  pub store-IsHistory : {A : Type 0} (m : Exec Db A) → Follows Reaches m → IsHistory (on_store m)
  store-IsHistory m h = record { at = λ s. h.at s.db }

  pub record_audit-IsHistory :
      (request : Request) (action target id result details : String)
      → IsHistory (record_audit request action target id result details)
  unfolding record_audit attempt
  record_audit-IsHistory request action target id result details = record {
    at = λ s. (audit-Reaches request.now _).at s.db;
  }

  pub record_system_audit-IsHistory :
      (now action id result details : String)
      → IsHistory (record_system_audit now action id result details)
  unfolding record_system_audit attempt
  record_system_audit-IsHistory now action id result details = record {
    at = λ s. (audit-Reaches now _).at s.db;
  }
