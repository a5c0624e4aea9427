-- ===== src/App/Base.antt =====
-- main.go: the state of the application, and how it reaches the runtime and the database.
-- The lock mutationMu makes each handler that writes one uninterrupted function of the state. The
-- clock is read once in a handler; a context's deadline is the number of ticks that it leaves.
use natbox.Prelude.{ℕ, String, ℤ, Exec, attempt, pure, ◌>>◌, if◌then◌else◌, starts_with}
use natbox.Incus.Runner.{Runtime}
use natbox.Store
use natbox.Store.{Db, AuditEvent}

pub record Config : Type 0 where
  pub port_min : ℤ
  pub port_max : ℤ
  pub ssh_port_start : ℤ
  pub ssh_port_end : ℤ
  pub memory_reserve_mb : ℤ
  pub disk_reserve_gb : ℤ

-- What a request brings along for the audit log, and the clock and deadline of its handler.
pub record Request : Type 0 where
  pub now : String
  pub actor : String
  pub source_ip : String
  pub ticks : String → ℕ
  pub cause : String

pub record System (rt : Runtime) : Type 0 where
  pub world : rt.World
  pub db : Db

module _ {rt : Runtime} where
  -- The runtime's part and the database's part of a handler.
  abbrev pub on_runtime : {A : Type 0} → Exec rt.World A → Exec (System rt) A
  on_runtime m s = let (r, w) = m s.world in (r, record s { world = w })

  abbrev pub on_store : {A : Type 0} → Exec Db A → Exec (System rt) A
  on_store m s = let (r, d) = m s.db in (r, record s { db = d })

  -- recordAudit: an error of the store is only logged.
  unfoldable pub record_audit :
      Request → String → String → String → String → String → Exec (System rt) (Unit {0})
  record_audit request action target target_id result details = do
    on_store (
        attempt (
          Store.audit request.now (record {
            id = 0;
            actor = request.actor;
            action = action;
            target = target;
            target_id = target_id;
            result = result;
            source_ip = request.source_ip;
            details = details;
            created_at = "";
          })))
    pure tt

  -- recordSystemAudit of policy.go.
  unfoldable pub record_system_audit :
      String → String → String → String → String → Exec (System rt) (Unit {0})
  record_system_audit now action target_id result details = do
    on_store (
        attempt (
          Store.audit now (record {
            id = 0;
            actor = "system";
            action = action;
            target = if starts_with action "backup." then "database" else "container";
            target_id = target_id;
            result = result;
            source_ip = "";
            details = details;
            created_at = "";
          })))
    pure tt
