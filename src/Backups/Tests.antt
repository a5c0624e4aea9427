-- ===== src/Backups/Tests.antt =====
-- backup_scheduler.go and BackupDatabase on a few files.
use natbox.Prelude.{
  ◌≡◌, ◌≢◌, ◌<◌, refl, none, some, [], ◌∷◌, arith, if◌then◌else◌, str_le, length, keep, lookup,
  itoa, attempt, true,
}
use natbox.Backups
use natbox.Backups.Files.{Tables, Disk, remove, is_backup, glob}
use natbox.Backups.Copying.{Saving, backup_database}
use natbox.Backups.Pruning.{prune_backups-keeps}
use natbox.Backups.Retaining.{is_surplus, prune_backups-is_surplus}
use natbox.Backups.Publishing.{held, saved, tables_of, backup_database-Publishes}

abbrev nothing : Tables
nothing = ([], [])

abbrev disk : Disk
disk = record {
  files =
      ("/b/natbox-2-2.db", nothing)
      ∷ ("/b/notes.db", nothing)
      ∷ ("/b/natbox-1-1.db", nothing)
      ∷ ("/b/natbox-3-3.db", nothing)
      ∷ [];
  faults = [];
}

abbrev state : Saving
state = record {
  db = record {
    containers = [];
    audit_events = [];
    next_id = 1;
    faults = [];
    duplicate_text = "UNIQUE constraint failed";
  };
  disk = disk;
}

-- With two kept, the first of the three is pruned.
gone : none ≢ some nothing
gone h = ground arith

prune_backups-keeps_example :
    (is_backup "/b" "/b/natbox-1-1.db" ≡ true)
    × (2 < length (keep (str_le "/b/natbox-1-1.db") (glob "/b" disk.files)))
unfolding Backups.prune_backups lookup glob attempt remove
prune_backups-keeps_example = prune_backups-keeps "/b" 2 disk "/b/natbox-1-1.db" gone

prune_backups-is_surplus_example :
    lookup "/b/natbox-1-1.db" (Backups.prune_backups "/b" 2 disk).1.files ≡ (
      if is_surplus "/b" 2 disk "/b/natbox-1-1.db"
      then none
      else lookup "/b/natbox-1-1.db" disk.files)
prune_backups-is_surplus_example = prune_backups-is_surplus "/b" 2 disk "/b/natbox-1-1.db" refl

backup_database-Publishes_example :
    held "/b/natbox-4-4.db" (backup_database 9 "/b/natbox-4-4.db" state).1 ≡ (
      saved "/b/natbox-4-4.db"
          (backup_database 9 "/b/natbox-4-4.db" state).0
          "/b/natbox-4-4.db"
          (tables_of state.db)
          (lookup "/b/natbox-4-4.db" state.disk.files),
      tables_of state.db,
    )
unfolding itoa
backup_database-Publishes_example =
    backup_database-Publishes 9 "/b/natbox-4-4.db" "/b/natbox-4-4.db" state refl
