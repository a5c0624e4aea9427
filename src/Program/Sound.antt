-- ===== src/Program/Sound.antt =====
-- main.go: what holds of the database and the backups whatever happens to the server.
use natbox.Prelude.{List, [], ◌∷◌, ℤ, Option, none, some}
use natbox.Incus.Runner.{Runtime}
use natbox.Store.Calls.{IsSound}
use natbox.Store.History.{Reaches, here, Reaches-trans, Reaches-IsSound, Extends, Reaches-Extends}
use natbox.App.Base.{Request}
use natbox.App.History.Acting.{auto_repair_pass-IsHistory}
use natbox.App.History.Enforcing.{enforce_policy_pass-IsHistory}
use natbox.Api.Answer.{Setup}
use natbox.Api.History.Serving.{serve-Proceeds}
use natbox.Backups.{Tick}
use natbox.Backups.History.{HoldsSound}
use natbox.Backups.History.Runs.{backup_once-Advances}
use natbox.Program.{
  Plant, Event, Timing, requested, policy_tick, repair_tick, backup_tick, repair_run, backup_run,
  step, run,
}
use natbox.Program.Timers.{BackupTimer}

module _ {rt : Runtime} (setup : Setup) where
  abbrev Continues : Plant rt → Plant rt → Type 0
  Continues p q =
      Reaches p.server.system.db q.server.system.db
      × (IsSound p.server.system.db → HoldsSound p.disk.files → HoldsSound q.disk.files)

  repair_run-Continues :
      (timer : Option ℤ) (request : Request) (p : Plant rt)
      → Continues p (repair_run setup timer request p)
  unfolding repair_run
  repair_run-Continues none request p = (here, λ sound h. h)
  repair_run-Continues (some interval) request p =
      ((auto_repair_pass-IsHistory request).at p.server.system, λ sound h. h)

  backup_run-Continues :
      (timer : Option BackupTimer) (tick : Tick) (p : Plant rt)
      → Continues p (backup_run setup timer tick p)
  unfolding backup_run
  backup_run-Continues none tick p = (here, λ sound h. h)
  backup_run-Continues (some timer) tick p =
      (backup_once-Advances timer.directory timer.retention tick).at
        (record { system = p.server.system; disk = p.disk })

  step-Continues :
      (timing : Timing) (e : Event) (p : Plant rt) → Continues p (step setup timing e p)
  unfolding step
  step-Continues timing (requested moment call) p =
      (serve-Proceeds setup moment call p.server, λ sound h. h)
  step-Continues timing (policy_tick now request) p =
      ((enforce_policy_pass-IsHistory setup.time now request).at p.server.system, λ sound h. h)
  step-Continues timing (repair_tick request) p = repair_run-Continues timing.repairs request p
  step-Continues timing (backup_tick tick) p = backup_run-Continues timing.backups tick p

  run-Continues :
      (timing : Timing) (events : List Event) (p : Plant rt)
      → Continues p (run setup timing events p)
  unfolding run
  run-Continues timing [] p = (here, λ sound h. h)
  run-Continues timing (e ∷ es) p =
      let one = step-Continues timing e p in
      let rest = run-Continues timing es (step setup timing e p) in
      (Reaches-trans one.0 rest.0, λ sound h. rest.1 (Reaches-IsSound one.0 sound) (one.1 sound h))

  -- Whatever requests come and timers run, in whatever order, and whatever the runtime, the driver and the
  -- operating system refuse: from a database with distinct names and audit ids that rise below the next
  -- one, and backup files that hold such tables, the database and every backup file stay so.
  pub run-IsSound :
      (timing : Timing) (events : List Event) (p : Plant rt)
      → IsSound p.server.system.db
      → HoldsSound p.disk.files
      → IsSound (run setup timing events p).server.system.db
        × HoldsSound (run setup timing events p).disk.files
  run-IsSound timing events p sound h =
      let after = run-Continues timing events p in (Reaches-IsSound after.0 sound, after.1 sound h)

  -- The audit log is only ever appended to: after any requests and runs of the timers, in any order, its
  -- events are those that it had, unchanged and in their order, with the new ones behind them.
  pub run-Extends :
      (timing : Timing) (events : List Event) (p : Plant rt)
      → Extends p.server.system.db (run setup timing events p).server.system.db
  run-Extends timing events p = Reaches-Extends (run-Continues timing events p).0
