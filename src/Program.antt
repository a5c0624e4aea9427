-- ===== src/Program.antt =====
-- main.go: the running server. Requests and the three timers' runs take turns: mutationMu lets no two of
-- those that write overlap, and the database has one connection.
pub mod Timers
pub mod Intervals
pub mod Sound
pub mod Tests
use natbox.Prelude.{ℕ, String, Option, none, some, List, [], ◌∷◌, ℤ}
use natbox.Incus.Runner.{Runtime}
use natbox.App.Base.{Request, System}
use natbox.App.Policy.{enforce_policy_pass}
use natbox.App.Actions.{auto_repair_pass}
use natbox.Api.Answer.{Call, Setup, Moment, Server}
use natbox.Api.Serve.{serve}
use natbox.Backups.Files.{Disk}
use natbox.Backups.{Tick, Station, backup_once}
use natbox.Program.Timers.{BackupTimer}

-- The server, the runtime and the database behind it, and the files of the backups.
pub record Plant (rt : Runtime) : Type 0 where
  pub server : Server rt
  pub disk : Disk

-- What happens to the server, each with the clock and the deadlines that it meets.
pub data Event : Type 0 where
  requested : Moment → Call → Event
  policy_tick : ℕ → Request → Event
  repair_tick : Request → Event
  backup_tick : Tick → Event

-- The timers that main started; the policies' always runs.
pub record Timing : Type 0 where
  pub repairs : Option ℤ
  pub backups : Option BackupTimer

module _ {rt : Runtime} (setup : Setup) where
  abbrev with_system : System rt → Plant rt → Plant rt
  with_system system p = record p { server = record p.server { system = system } }

  unfoldable pub repair_run : Option ℤ → Request → Plant rt → Plant rt
  repair_run none request p = p
  repair_run (some interval) request p = with_system (auto_repair_pass request p.server.system).1 p

  unfoldable pub backup_run : Option BackupTimer → Tick → Plant rt → Plant rt
  backup_run none tick p = p
  backup_run (some timer) tick p =
      let after =
        (backup_once timer.directory timer.retention tick
          (record { system = p.server.system; disk = p.disk })).1 in
      record { server = record p.server { system = after.system }; disk = after.disk }

  unfoldable pub step : Timing → Event → Plant rt → Plant rt
  unfolding repair_run backup_run
  step timing (requested moment call) p = record p { server = (serve setup moment call p.server).1 }
  step timing (policy_tick now request) p =
      with_system (enforce_policy_pass setup.time now request p.server.system).1 p
  step timing (repair_tick request) p = repair_run timing.repairs request p
  step timing (backup_tick tick) p = backup_run timing.backups tick p

  unfoldable pub run : Timing → List Event → Plant rt → Plant rt
  unfolding step
  run timing [] p = p
  run timing (e ∷ es) p = run timing es (step timing e p)
