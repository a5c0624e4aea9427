-- ===== src/Backups/History.antt =====
-- backup_scheduler.go and BackupDatabase of internal/store/store.go: the histories of the database and of
-- the files that hold copies of it.
use natbox.Prelude.{
  ℕ, Bool, true, false, ◌≡◌, refl, String, Option, none, some, List, [], ◌∷◌, ◌=ₛ◌, ◌||◌, not, Exec,
  Result, ok, err, Result-cases, Option-cases, Bool-cases, inl, inr, attempt, reject, trim_space,
  starts_with, lookup, arith, if◌then◌else◌, eq_iff, pure, Error, on_error, ◌>>=◌,
}
pub mod Runs
use mathlib.Core.Path.{subst}
use natbox.Prelude.Follows
use natbox.Prelude.Follows.{Follows}
use natbox.Store.{Db, next_fault, ManagedContainer, AuditEvent}
use natbox.Store.Keys.{IsKeyed}
use natbox.Store.Paging.{Rises}
use natbox.Store.Calls.{IsSound}
use natbox.Store.History.{Reaches, here, reads, Reaches-trans, Reaches-IsSound}
use natbox.Backups
use natbox.Backups.Files.{Tables, Disk, without, remove, rename, make_directory, protect}
use natbox.Backups.Copying.{
  Saving, on_disk, copied, vacuumed, vacuum_into, or_remove, temporary_of, prepare, backup_database,
  wrapping,
}

-- Tables as a sound database has them.
pub record IsSoundCopy (t : Tables) : Type 0 where
  pub bound : ℕ
  pub keyed : IsKeyed t.0
  pub numbered : Rises 1 bound t.1

abbrev pub HoldsSound : List (String × Tables) → Type 0
HoldsSound [] = Unit
HoldsSound ((path, t) ∷ files) = IsSoundCopy t × HoldsSound files

without-HoldsSound :
    (path : String) (files : List (String × Tables))
    → HoldsSound files
    → HoldsSound (without path files)
unfolding without
without-HoldsSound path [] h = h
without-HoldsSound path ((key, t) ∷ files) h = elim (Bool-cases (key =ₛ path)) [
  | inl same ↦ rw same (without-HoldsSound path files h.1)
  | inr other ↦ rw other (h.0, without-HoldsSound path files h.1)
]

lookup-IsSoundCopy :
    (path : String) (files : List (String × Tables)) (t : Tables)
    → lookup path files ≡ some t
    → HoldsSound files
    → IsSoundCopy t
unfolding lookup
lookup-IsSoundCopy path [] t e h = absurd (ground arith)
lookup-IsSoundCopy path ((key, u) ∷ files) t e h = elim (Bool-cases (key =ₛ path)) [
  | inl same ↦ subst IsSoundCopy (ground arith) h.0
  | inr other ↦ lookup-IsSoundCopy path files t (ground arith) h.1
]

-- A call of the operating system keeps the files sound.
abbrev pub Kept : Disk → Disk → Type 0
Kept d e = HoldsSound d.files → HoldsSound e.files

pub make_directory-Kept : Follows Kept make_directory
unfolding make_directory
make_directory-Kept = record {
  at = λ d. elim (Option-cases (next_fault d.faults)) [
    | inl passed ↦ rw passed (λ h. h)
    | inr (text, refused) ↦ rw refused (λ h. h)
  ];
}

protect-Kept : Follows Kept protect
unfolding protect
protect-Kept = record {
  at = λ d. elim (Option-cases (next_fault d.faults)) [
    | inl passed ↦ rw passed (λ h. h)
    | inr (text, refused) ↦ rw refused (λ h. h)
  ];
}

remove-Kept : (path : String) → Follows Kept (remove path)
unfolding remove
remove-Kept path = record {
  at = λ d. elim (Option-cases (next_fault d.faults)) [
    | inr (text, refused) ↦ rw refused (λ h. h)
    | inl passed ↦ rw passed (elim (Option-cases (lookup path d.files)) [
      | inl missing ↦ rw missing (λ h. h)
      | inr (t, found) ↦ rw found (without-HoldsSound path d.files)
    ])
  ];
}

rename-Kept : (old new : String) → Follows Kept (rename old new)
unfolding rename
rename-Kept old new = record {
  at = λ d. elim (Option-cases (next_fault d.faults)) [
    | inr (text, refused) ↦ rw refused (λ h. h)
    | inl passed ↦ rw passed (elim (Option-cases (lookup old d.files)) [
      | inl missing ↦ rw missing (λ h. h)
      | inr (t, found) ↦ rw found (λ h. (
        lookup-IsSoundCopy old d.files t found h,
        without-HoldsSound new _ (without-HoldsSound old d.files h),
      ))
    ])
  ];
}

-- The database goes on by calls, and files are copies of sound databases if they were before.
abbrev pub Saves : Saving → Saving → Type 0
Saves s t = Reaches s.db t.db × (IsSound s.db → HoldsSound s.disk.files → HoldsSound t.disk.files)

pub Saves-here : (s : Saving) → Saves s s
Saves-here s = (here, λ sound h. h)

pub Saves-trans : (s t u : Saving) → Saves s t → Saves t u → Saves s u
Saves-trans s t u p q =
    (Reaches-trans p.0 q.0, λ sound h. q.1 (Reaches-IsSound p.0 sound) (p.1 sound h))

on_disk-Saves : {A : Type 0} (m : Exec Disk A) → Follows Kept m → Follows Saves (on_disk m)
on_disk-Saves m k = record { at = λ s. (here, λ sound. k.at s.disk) }

vacuum_into-Saves : (path : String) → Follows Saves (vacuum_into path)
unfolding vacuum_into
vacuum_into-Saves path = record {
  at = λ s. elim (Option-cases (next_fault s.db.faults)) [
    | inr (text, refused) ↦ rw refused (reads here, λ sound h. h)
    | inl passed ↦ rw passed (elim (Option-cases (lookup path s.disk.files)) [
      | inr (t, found) ↦ rw found (reads here, λ sound h. h)
      | inl free ↦ rw free (
        reads here,
        λ sound h.
            (record { bound = s.db.next_id; keyed = sound.keyed; numbered = sound.numbered }, h),
      )
    ])
  ];
}

wrapping-Saves :
    {A : Type 0} (prefix : String) (m : Exec Saving A)
    → Follows Saves m
    → Follows Saves (wrapping prefix m)
wrapping-Saves prefix m k = record { at = k.at }

or_remove-Saves :
    (temporary prefix : String) (m : Exec Saving (Unit {0}))
    → Follows Saves m
    → Follows Saves (or_remove temporary prefix m)
or_remove-Saves temporary prefix m k =
    Follows.on_error-Follows Saves Saves-here Saves-trans _ _ (wrapping-Saves prefix m k) λ e.
      Follows.attempt-Follows Saves Saves-here Saves-trans _ _
        (on_disk-Saves (remove temporary) (remove-Kept temporary)) λ r. record { at = Saves-here }

then-Saves :
    {A B : Type 0} (m : Exec Saving A) (f : A → Exec Saving B)
    → Follows Saves m
    → ((a : A) → Follows Saves (f a))
    → Follows Saves (m >>= f)
then-Saves = Follows.then-Follows Saves Saves-here Saves-trans

prepare-Saves : (nanos : ℕ) (destination : String) → Follows Saves (prepare nanos destination)
unfolding prepare
prepare-Saves nanos destination =
    then-Saves
      (reject (trim_space destination =ₛ "" || not (starts_with destination "/"))
        "backup destination must be an absolute path")
      _ (Follows.reject-Follows Saves Saves-here Saves-trans _ _)
      λ _.
        then-Saves _ _
          (wrapping-Saves "create backup directory" (on_disk make_directory)
            (on_disk-Saves make_directory make_directory-Kept))
          λ _.
            Follows.attempt-Follows Saves Saves-here Saves-trans _ _
              (on_disk-Saves (remove (temporary_of nanos destination)) (remove-Kept _))
              λ _.
                then-Saves _ _
                  (or_remove-Saves (temporary_of nanos destination) "vacuum database backup"
                    (vacuum_into (temporary_of nanos destination)) (vacuum_into-Saves _))
                  λ _.
                    or_remove-Saves (temporary_of nanos destination) "protect database backup"
                      (on_disk protect) (on_disk-Saves protect protect-Kept)

pub backup_database-Saves :
    (nanos : ℕ) (destination : String) → Follows Saves (backup_database nanos destination)
unfolding backup_database
backup_database-Saves nanos destination = then-Saves _ _ (prepare-Saves nanos destination) λ _.
    or_remove-Saves (temporary_of nanos destination) "publish database backup"
      (on_disk (rename (temporary_of nanos destination) destination))
      (on_disk-Saves (rename (temporary_of nanos destination) destination) (rename-Kept _ _))

remove_each-Kept : (paths : List String) → Follows Kept (Backups.remove_each paths)
unfolding Backups.remove_each
remove_each-Kept [] = record { at = λ d h. h }
remove_each-Kept (path ∷ paths) =
    Follows.attempt-Follows Kept (λ d h. h) (λ d e f p q h. q (p h)) _ _ (remove-Kept path)
      λ r. remove_each-Kept paths

pub prune_backups-Kept :
    (directory : String) (retention : ℕ) → Follows Kept (Backups.prune_backups directory retention)
unfolding Backups.prune_backups
prune_backups-Kept directory retention = record { at = λ d. (remove_each-Kept _).at d }
