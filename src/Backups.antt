-- ===== src/Backups.antt =====
-- backup_scheduler.go, and BackupDatabase of internal/store/store.go.
pub mod Tests
pub mod Files
pub mod Copying
pub mod Pruning
pub mod Retaining
pub mod Publishing
pub mod History
use natbox.Prelude.{
  ℕ, ◌-◌, String, ◌+ₛ◌, List, [], ◌∷◌, ℤ, pos, pos_part, ltb_ℤ, leb, if◌then◌else◌, length, take,
  itoa, Result, ok, err, error_text, Exec, pure, attempt, ◌>>=◌, ◌>>◌,
}
use natbox.Prelude.Text.Sorting.{sort_texts}
use natbox.Incus.Runner.{Runtime}
use natbox.App.Base.{System, record_system_audit}
use natbox.Backups.Files.{Disk, remove, make_directory, glob}
use natbox.Backups.Copying.{Saving, backup_database}

-- An error of a removal is only logged.
unfoldable pub remove_each : List String → Exec Disk (Unit {0})
remove_each [] = pure tt
remove_each (path ∷ paths) = do attempt (remove path); remove_each paths

-- The oldest paths, in the order of their names, above the number that is kept.
abbrev pub too_many : ℕ → List String → List String
too_many retention sorted =
    if leb (length sorted) retention then [] else take (length sorted - retention) sorted

unfoldable pub prune_backups : String → ℕ → Exec Disk (Unit {0})
unfolding remove_each sort_texts
prune_backups directory retention d =
    remove_each (too_many retention (sort_texts (glob directory d.files))) d

-- The application and the files.
pub record Station (rt : Runtime) : Type 0 where
  pub system : System rt
  pub disk : Disk

-- NATBOX_BACKUP_RETENTION, at least 1.
abbrev pub retention_of : ℤ → ℕ
retention_of value = if ltb_ℤ value (pos 1) then 1 else pos_part value

-- The clock of one run: its text for the audit log, its stamp, and two readings of its nanoseconds.
pub record Tick : Type 0 where
  pub now : String
  pub stamp : String
  pub nanos : ℕ
  pub nanos_later : ℕ

abbrev pub destination_of : String → Tick → String
destination_of directory tick =
    directory +ₛ "/natbox-" +ₛ tick.stamp +ₛ "-" +ₛ itoa tick.nanos +ₛ ".db"

module _ {rt : Runtime} where
  abbrev on_system : {A : Type 0} → Exec (System rt) A → Exec (Station rt) A
  on_system m s = let (r, system) = m s.system in (r, record s { system = system })

  abbrev on_disk : {A : Type 0} → Exec Disk A → Exec (Station rt) A
  on_disk m s = let (r, disk) = m s.disk in (r, record s { disk = disk })

  abbrev on_saving : {A : Type 0} → Exec Saving A → Exec (Station rt) A
  on_saving m s =
      let (r, saved) = m (record { db = s.system.db; disk = s.disk }) in
      (r, record { system = record s.system { db = saved.db }; disk = saved.disk })

  after_saving : String → ℕ → Tick → Result (Unit {0}) → Exec (Station rt) (Unit {0})
  unfolding prune_backups
  after_saving directory retention tick (err e) =
      on_system (record_system_audit tick.now "backup.create" "" "failure" (error_text e))
  after_saving directory retention tick (ok _) = do
    on_system
        (record_system_audit tick.now "backup.create" "" "success" (destination_of directory tick))
    on_disk (prune_backups directory retention)

  after_directory : String → ℕ → Tick → Result (Unit {0}) → Exec (Station rt) (Unit {0})
  unfolding after_saving
  after_directory directory retention tick (err e) = pure tt
  after_directory directory retention tick (ok _) = do
    saved ← attempt (on_saving (backup_database tick.nanos_later (destination_of directory tick)))
    after_saving directory retention tick saved

  -- backupOnce; `directory` is NATBOX_BACKUP_DIR as filepath.Join cleans it.
  unfoldable pub backup_once : String → ℕ → Tick → Exec (Station rt) (Unit {0})
  unfolding after_directory
  backup_once directory retention tick = do
    made ← attempt (on_disk make_directory)
    after_directory directory retention tick made

  -- The goroutine of startBackupScheduler: one run at once, and one for each tick until the context ends.
  unfoldable pub backup_runs : String → ℕ → List Tick → Exec (Station rt) (Unit {0})
  unfolding backup_once
  backup_runs directory retention [] = pure tt
  backup_runs directory retention (tick ∷ ticks) = do
    backup_once directory retention tick
    backup_runs directory retention ticks
