-- ===== src/Backups/Copying.antt =====
-- internal/store/store.go: BackupDatabase.
use natbox.Prelude.{
  ℕ, not, ◌||◌, String, ◌+ₛ◌, Option, none, some, ◌∷◌, ◌=ₛ◌, starts_with, trim_space, itoa, lookup,
  failure, error_text, Result, ok, err, Exec, pure, reject, attempt, on_error, ◌>>◌,
}
use natbox.Store.{Db, statement}
use natbox.Backups.Files.{Tables, Disk, remove, rename, make_directory, protect}

pub record Saving : Type 0 where
  pub db : Db
  pub disk : Disk

abbrev pub on_disk : {A : Type 0} → Exec Disk A → Exec Saving A
on_disk m s = let (r, disk) = m s.disk in (r, record s { disk = disk })

abbrev pub copied : String → Saving → Option Tables → Result (Unit {0}) × Saving
copied path s (some tables) = (err (failure "output file already exists"), s)
copied path s none = (
  ok tt,
  record s {
    disk = record s.disk { files = (path, (s.db.containers, s.db.audit_events)) ∷ s.disk.files };
  },
)

abbrev pub vacuumed : String → Result (Unit {0}) → Saving → Result (Unit {0}) × Saving
vacuumed path (err e) s = (err e, s)
vacuumed path (ok _) s = copied path s (lookup path s.disk.files)

-- `VACUUM INTO ?`, which the driver carries out whole or not at all, and never over a file that is there.
unfoldable pub vacuum_into : String → Exec Saving (Unit {0})
unfolding lookup
vacuum_into path s =
    let (r, db) = statement (λ db. (tt, db)) s.db in vacuumed path r (record s { db = db })

abbrev pub wrapped : {A : Type 0} → String → Result A → Result A
wrapped prefix (ok a) = ok a
wrapped prefix (err e) = err (failure (prefix +ₛ ": " +ₛ error_text e))

-- `fmt.Errorf(prefix+": %w", err)` around the error of a call.
abbrev pub wrapping : {S A : Type 0} → String → Exec S A → Exec S A
wrapping prefix m s = let (r, s') = m s in (wrapped prefix r, s')

-- A step whose error removes the temporary file.
abbrev pub or_remove : String → String → Exec Saving (Unit {0}) → Exec Saving (Unit {0})
or_remove temporary prefix m =
    on_error (wrapping prefix m) (λ e. do attempt (on_disk (remove temporary)); pure tt)

abbrev pub temporary_of : ℕ → String → String
temporary_of nanos destination = destination +ₛ ".tmp-" +ₛ itoa nanos

-- The steps up to a finished temporary file.
unfoldable pub prepare : ℕ → String → Exec Saving (Unit {0})
unfolding vacuum_into remove make_directory protect
prepare nanos destination = do
  reject (trim_space destination =ₛ "" || not (starts_with destination "/"))
      "backup destination must be an absolute path"
  wrapping "create backup directory" (on_disk make_directory)
  attempt (on_disk (remove (temporary_of nanos destination)))
  or_remove (temporary_of nanos destination) "vacuum database backup"
      (vacuum_into (temporary_of nanos destination))
  or_remove (temporary_of nanos destination) "protect database backup" (on_disk protect)

unfoldable pub backup_database : ℕ → String → Exec Saving (Unit {0})
unfolding prepare rename
backup_database nanos destination = do
  prepare nanos destination
  or_remove (temporary_of nanos destination) "publish database backup"
      (on_disk (rename (temporary_of nanos destination) destination))
