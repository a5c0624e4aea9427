-- ===== src/Backups/Files.antt =====
-- backup_scheduler.go and internal/store/store.go: the files of the backups, and what package os does to them.
-- Each call first meets the operating system: `faults` says, for the calls to come, which of them it
-- refuses and with what text; a call that is refused changes nothing. Directories and modes are not kept.
use natbox.Prelude.{
  Bool, ◌&&◌, ◌||◌, String, ◌+ₛ◌, Option, none, some, List, [], ◌∷◌, ◌=ₛ◌, if◌then◌else◌,
  starts_with, count_chars, drop_chars, lookup, keep, failure, Result, ok, err, Exec,
}
use natbox.Prelude.Text.Split.{lacks}
use natbox.Store.{ManagedContainer, AuditEvent, next_fault, later_faults}

-- The tables that a copy of the database holds.
abbrev pub Tables : Type 0
Tables = List ManagedContainer × List AuditEvent

pub record Disk : Type 0 where
  pub files : List (String × Tables)
  pub faults : List (Option String)

abbrev refused_or : {A : Type 0} → Option String → (Disk → Result A × Disk) → Disk → Result A × Disk
refused_or none body d = body d
refused_or (some text) body d = (err (failure text), d)

abbrev pub os_call : {A : Type 0} → (Disk → Result A × Disk) → Exec Disk A
os_call body d = refused_or (next_fault d.faults) body (record d { faults = later_faults d.faults })

unfoldable pub without : String → List (String × Tables) → List (String × Tables)
without path [] = []
without path ((key, value) ∷ files) =
    let rest = without path files in if key =ₛ path then rest else (key, value) ∷ rest

abbrev removed : String → Disk → Option Tables → Result (Unit {0}) × Disk
removed path d none = (err (failure "no such file or directory"), d)
removed path d (some tables) = (ok tt, record d { files = without path d.files })

-- os.Remove
unfoldable pub remove : String → Exec Disk (Unit {0})
unfolding without lookup
remove path = os_call λ d. removed path d (lookup path d.files)

abbrev renamed : String → String → Disk → Option Tables → Result (Unit {0}) × Disk
renamed old new d none = (err (failure "no such file or directory"), d)
renamed old new d (some tables) =
    (ok tt, record d { files = (new, tables) ∷ without new (without old d.files) })

-- os.Rename
unfoldable pub rename : String → String → Exec Disk (Unit {0})
unfolding without lookup
rename old new = os_call λ d. renamed old new d (lookup old d.files)

-- os.MkdirAll
unfoldable pub make_directory : Exec Disk (Unit {0})
make_directory = os_call λ d. (ok tt, d)

-- os.Chmod to 0600.
unfoldable pub protect : Exec Disk (Unit {0})
protect = os_call λ d. (ok tt, d)

unfoldable pub ends_with : String → String → Bool
ends_with String.[] suffix = suffix =ₛ ""
ends_with (String.◌∷◌ c s) suffix = (String.◌∷◌ c s) =ₛ suffix || ends_with s suffix

-- The pattern natbox-*.db in a directory whose name holds no character of a pattern.
unfoldable pub is_backup : String → String → Bool
unfolding ends_with lacks drop_chars count_chars
is_backup directory path =
    let head = directory +ₛ "/natbox-" in
    let rest = drop_chars (count_chars head) path in
    starts_with path head && ends_with rest ".db" && lacks b'/' rest

unfoldable pub paths_of : List (String × Tables) → List String
paths_of [] = []
paths_of ((key, value) ∷ files) = key ∷ paths_of files

-- filepath.Glob
unfoldable pub glob : String → List (String × Tables) → List String
unfolding paths_of is_backup
glob directory files = keep (is_backup directory) (paths_of files)
