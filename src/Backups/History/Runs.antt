-- ===== src/Backups/History/Runs.antt =====
-- backup_scheduler.go: the runs of the backups, as histories of the database and its copies.
use natbox.Prelude.{ℕ, String, Result, ok, err, Exec}
use natbox.Prelude.Follows
use natbox.Prelude.Follows.{Follows}
use natbox.Incus.Runner.{Runtime}
use natbox.Store.History.{here}
use natbox.App.Base.{record_system_audit}
use natbox.App.History.{record_system_audit-IsHistory}
use natbox.Backups
use natbox.Backups.{Station, Tick, destination_of}
use natbox.Backups.Files.{Disk, make_directory}
use natbox.Backups.Copying.{Saving, backup_database}
use natbox.Backups.History.{
  Kept, Saves, Saves-here, Saves-trans, make_directory-Kept, prune_backups-Kept,
  backup_database-Saves,
}

module _ {rt : Runtime} where
  -- A station as its database and files.
  abbrev saving_of : Station rt → Saving
  saving_of s = record { db = s.system.db; disk = s.disk }

  abbrev pub Advances : Station rt → Station rt → Type 0
  Advances s t = Saves (saving_of s) (saving_of t)

  Advances-here : (s : Station rt) → Advances s s
  Advances-here s = Saves-here (saving_of s)

  Advances-trans : (s t u : Station rt) → Advances s t → Advances t u → Advances s u
  Advances-trans s t u p q = Saves-trans (saving_of s) (saving_of t) (saving_of u) p q

  audited-Advances :
      (now action id result details : String)
      → Follows Advances
          (Backups.on_system {rt = rt} (record_system_audit now action id result details))
  audited-Advances now action id result details = record {
    at = λ s.
        ((record_system_audit-IsHistory now action id result details).at s.system, λ sound h. h);
  }

  on_disk-Advances :
      {A : Type 0} (m : Exec Disk A)
      → Follows Kept m
      → Follows Advances (Backups.on_disk {rt = rt} m)
  on_disk-Advances m k = record { at = λ s. (here, λ sound. k.at s.disk) }

  after_saving-Advances :
      (directory : String) (retention : ℕ) (tick : Tick) (r : Result (Unit {0}))
      → Follows Advances (Backups.after_saving {rt = rt} directory retention tick r)
  unfolding Backups.after_saving
  after_saving-Advances directory retention tick (err e) = audited-Advances _ _ _ _ _
  after_saving-Advances directory retention tick (ok _) =
      Follows.then-Follows Advances Advances-here Advances-trans _ _ (audited-Advances _ _ _ _ _)
        λ _. on_disk-Advances (Backups.prune_backups directory retention) (prune_backups-Kept _ _)

  saving-Advances :
      {A : Type 0} (m : Exec Saving A)
      → Follows Saves m
      → Follows Advances (Backups.on_saving {rt = rt} m)
  saving-Advances m k = record { at = λ s. k.at (saving_of s) }

  after_directory-Advances :
      (directory : String) (retention : ℕ) (tick : Tick) (r : Result (Unit {0}))
      → Follows Advances (Backups.after_directory {rt = rt} directory retention tick r)
  unfolding Backups.after_directory
  after_directory-Advances directory retention tick (err e) = record { at = Advances-here }
  after_directory-Advances directory retention tick (ok _) =
      Follows.attempt-Follows Advances Advances-here Advances-trans _ _
        (saving-Advances (backup_database tick.nanos_later (destination_of directory tick))
          (backup_database-Saves _ _))
        (after_saving-Advances directory retention tick)

  pub backup_once-Advances :
      (directory : String) (retention : ℕ) (tick : Tick)
      → Follows Advances (Backups.backup_once {rt = rt} directory retention tick)
  unfolding Backups.backup_once
  backup_once-Advances directory retention tick =
      Follows.attempt-Follows Advances Advances-here Advances-trans _ _
        (on_disk-Advances make_directory make_directory-Kept)
        (after_directory-Advances directory retention tick)
