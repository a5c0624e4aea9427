-- ===== src/Backups/Publishing.antt =====
-- internal/store/store.go: the files that BackupDatabase leaves.
use natbox.Prelude.{
  ℕ, ◌≡◌, refl, ap, ◌∙◌, Bool, true, false, not, ◌||◌, String, Option, some, List, arith, eq_refl,
  ◌=ₛ◌, if◌then◌else◌, lookup, starts_with, trim_space, Result, ok, err, Exec, attempt,
  Option-cases, Result-cases, inl, inr, reject, ◌>>◌, Stays, then-Stays,
}
use natbox.Store.{Db, next_fault, later_faults}
use natbox.Backups.Files.{Tables, without, remove, rename, make_directory, protect}
use natbox.Backups.Copying.{
  Saving, on_disk, wrapping, or_remove, vacuum_into, temporary_of, prepare, backup_database,
}
use natbox.Backups.Pruning.{lookup-without, remove-other}

abbrev pub tables_of : Db → Tables
tables_of db = (db.containers, db.audit_events)

-- What is seen of a state: the file of one path, and the tables.
abbrev pub held : String → Saving → Option Tables × Tables
held p s = (lookup p s.disk.files, tables_of s.db)

module _ (temporary p : String) (other : (temporary =ₛ p) ≡ false) where
  or_remove-Stays :
      (prefix : String) (m : Exec Saving (Unit {0}))
      → Stays (held p) m
      → Stays (held p) (or_remove temporary prefix m)
  unfolding attempt
  or_remove-Stays prefix m h s = elim (Result-cases (m s).0) [
    | inl (a, done) ↦ rw done (h s)
    | inr (e, broke) ↦
        rw broke
          (ap (λ o. (o, tables_of (m s).1.db)) (remove-other temporary p (m s).1.disk other) ∙ h s)
  ]

  vacuum_into-Stays : Stays (held p) (vacuum_into temporary)
  unfolding vacuum_into lookup
  vacuum_into-Stays s = elim (Option-cases (next_fault s.db.faults)) [
    | inr (text, refused) ↦ rw refused refl
    | inl passed ↦ elim (Option-cases (lookup temporary s.disk.files)) [
      | inl missing ↦ rw (passed, missing, other) refl
      | inr (t, there) ↦ rw (passed, there) refl
    ]
  ]

  remove-Stays : Stays (held p) (on_disk (remove temporary))
  remove-Stays s = ap (λ o. (o, tables_of s.db)) (remove-other temporary p s.disk other)

  make_directory-Stays : Stays (held p) (on_disk make_directory)
  unfolding make_directory
  make_directory-Stays s = ground arith

  protect-Stays : Stays (held p) (on_disk protect)
  unfolding protect
  protect-Stays s = ground arith

  wrapping-Stays :
      (prefix : String) (m : Exec Saving (Unit {0}))
      → Stays (held p) m
      → Stays (held p) (wrapping prefix m)
  wrapping-Stays prefix m h s = h s

reject-Stays :
    {X : Type 0} (view : Saving → X) (b : Bool) (text : String) → Stays view (reject b text)
reject-Stays view true text s = refl
reject-Stays view false text s = refl

and-Stays :
    {X A B : Type 0} (view : Saving → X) (m : Exec Saving A) (n : Exec Saving B)
    → Stays view m
    → Stays view n
    → Stays view (m >> n)
and-Stays view m n km kn = then-Stays view m (λ _. n) km (λ _. kn)

-- What a path holds after a backup: the tables at the destination of one that succeeded, or what it held.
abbrev pub saved : String → Result (Unit {0}) → String → Tables → Option Tables → Option Tables
saved destination (ok _) p tables before = if destination =ₛ p then some tables else before
saved destination (err e) p tables before = before

module _ (nanos : ℕ) (destination : String) where
  abbrev temporary : String
  temporary = temporary_of nanos destination

  abbrev protecting : Exec Saving (Unit {0})
  protecting = or_remove temporary "protect database backup" (on_disk protect)

  abbrev copying : Exec Saving (Unit {0})
  copying = or_remove temporary "vacuum database backup" (vacuum_into temporary)

  abbrev removing : Exec Saving (Result (Unit {0}))
  removing = attempt (on_disk (remove temporary))

  -- Up to the finished temporary file, no other file is touched, nor are the tables.
  prepare-Stays :
      (p : String) → (temporary =ₛ p) ≡ false → Stays (held p) (prepare nanos destination)
  unfolding prepare attempt
  prepare-Stays p other =
      and-Stays (held p)
        (reject (trim_space destination =ₛ "" || not (starts_with destination "/"))
          "backup destination must be an absolute path")
        (wrapping "create backup directory" (on_disk make_directory)
          >> (removing >> (copying >> protecting)))
        (reject-Stays (held p) (trim_space destination =ₛ "" || not (starts_with destination "/"))
          "backup destination must be an absolute path")
        (and-Stays (held p) (wrapping "create backup directory" (on_disk make_directory))
          (removing >> (copying >> protecting)) (make_directory-Stays temporary p other)
          (and-Stays (held p) removing (copying >> protecting) (remove-Stays temporary p other) (
            and-Stays (held p) copying protecting
              (or_remove-Stays temporary p other "vacuum database backup" (vacuum_into temporary)
                (vacuum_into-Stays temporary p other))
              (or_remove-Stays temporary p other "protect database backup" (on_disk protect)
                (protect-Stays temporary p other)))))

  -- The temporary file holds the tables.
  IsCopied : Saving → Type 0
  IsCopied s = lookup temporary s.disk.files ≡ some (tables_of s.db)

  Ends : {A : Type 0} → Exec Saving A → Type 0
  Ends {A} m = (s : Saving) (a : A) → (m s).0 ≡ ok a → IsCopied (m s).1

  and-Ends : {A B : Type 0} (m : Exec Saving A) (n : Exec Saving B) → Ends n → Ends (m >> n)
  unfolding Ends
  and-Ends m n h s b done = elim (Result-cases (m s).0) [
    | inl (a, first) ↦ rw first (h (m s).1 b (ground (arith, first, done)))
    | inr (e, broke) ↦ ground (arith, broke, done)
  ]

  copying-Ends : Ends copying
  unfolding Ends IsCopied vacuum_into lookup
  copying-Ends s a done = elim (Option-cases (next_fault s.db.faults)) [
    | inr (text, refused) ↦ ground (arith, refused, done)
    | inl passed ↦ elim (Option-cases (lookup temporary s.disk.files)) [
      | inl missing ↦ rw (passed, missing, eq_refl temporary) refl
      | inr (t, there) ↦ ground (arith, passed, there, done)
    ]
  ]

  protecting-Ends :
      (s : Saving) (a : Unit {0}) → IsCopied s → (protecting s).0 ≡ ok a → IsCopied (protecting s).1
  unfolding IsCopied protect
  protecting-Ends s a copied done = elim (Option-cases (next_fault s.disk.faults)) [
    | inr (text, refused) ↦ ground (arith, refused, done)
    | inl passed ↦ rw passed copied
  ]

  behind_copying : Ends (copying >> protecting)
  unfolding Ends
  behind_copying s b done = elim (Result-cases (copying s).0) [
    | inl (a, first) ↦
        rw first
          (protecting-Ends (copying s).1 b (copying-Ends s a first) (ground (arith, first, done)))
    | inr (e, broke) ↦ ground (arith, broke, done)
  ]

  prepare-Ends : Ends (prepare nanos destination)
  unfolding prepare Ends attempt
  prepare-Ends =
      and-Ends
        (reject (trim_space destination =ₛ "" || not (starts_with destination "/"))
          "backup destination must be an absolute path")
        (wrapping "create backup directory" (on_disk make_directory)
          >> (removing >> (copying >> protecting)))
        (and-Ends (wrapping "create backup directory" (on_disk make_directory))
          (removing >> (copying >> protecting))
          (and-Ends removing (copying >> protecting) behind_copying))

  publishing-Stays :
      (p : String) (s : Saving)
      → (temporary =ₛ p) ≡ false
      → IsCopied s
      → held p
          (or_remove temporary "publish database backup"
            (on_disk (rename temporary destination))
            s).1
        ≡ (
          saved destination
              (or_remove temporary "publish database backup"
                (on_disk (rename temporary destination))
                s).0
              p
              (tables_of s.db)
              (lookup p s.disk.files),
          tables_of s.db,
        )
  unfolding rename lookup IsCopied attempt
  publishing-Stays p s other copied = elim (Option-cases (next_fault s.disk.faults)) [
    | inr (text, refused) ↦ rw refused (
        ap (λ o. (o, tables_of s.db))
          (remove-other temporary p (record s.disk { faults = later_faults s.disk.faults }) other))
    | inl passed ↦ rw (passed, copied) (ap (λ o. (o, tables_of s.db)) (moved s.disk.files))
  ]
    where
      moved :
          (files : List (String × Tables))
          → (if destination =ₛ p
              then some (tables_of s.db)
              else lookup p (without destination (without temporary files)))
            ≡ (if destination =ₛ p then some (tables_of s.db) else lookup p files)
      moved files = ground (
        arith,
        other,
        lookup-without destination p (without temporary files),
        lookup-without temporary p files,
      )

  -- BackupDatabase leaves, at every path but its temporary one, the tables where it succeeded and the path is the
  -- destination, and otherwise what was there, whatever the system and the driver refuse; and it leaves the tables.
  pub backup_database-Publishes :
      (p : String) (s : Saving)
      → (temporary =ₛ p) ≡ false
      → held p (backup_database nanos destination s).1 ≡ (
        saved destination
            (backup_database nanos destination s).0
            p
            (tables_of s.db)
            (lookup p s.disk.files),
        tables_of s.db,
      )
  unfolding backup_database Ends
  backup_database-Publishes p s other = elim (Result-cases (prepare nanos destination s).0) [
    | inr (e, broke) ↦ rw broke (prepare-Stays p other s)
    | inl (a, done) ↦
        let before = prepare-Stays p other s in
        rw done (
          publishing-Stays p (prepare nanos destination s).1 other (prepare-Ends s a done)
          ∙ ap
              (λ v. (
                saved destination
                    (or_remove temporary "publish database backup"
                      (on_disk (rename temporary destination)) (prepare nanos destination s).1).0
                    p v.1 v.0,
                v.1,
              ))
              before)
  ]
