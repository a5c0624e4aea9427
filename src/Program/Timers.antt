-- ===== src/Program/Timers.antt =====
-- policy.go, reconcile.go and backup_scheduler.go: which timers a server runs, and how often. A
-- duration is its nanoseconds in int64.
use natbox.Prelude.{
  String, Option, none, some, ℤ, pos, ◌*ℤ◌, wrap64, ltb_ℤ, ◌=ₛ◌, if◌then◌else◌, trim_space, ℕ,
}
use natbox.Api.Startup.{Environment, env_int}
use natbox.Backups.{retention_of}

-- time.Minute
abbrev pub minute : ℤ
minute = pos 60000000000

-- `time.Duration(n) * time.Minute`, and the least interval of one minute.
unfoldable pub interval_of : ℤ → ℤ
interval_of minutes =
    let interval = wrap64 (minutes *ℤ minute) in if ltb_ℤ interval minute then minute else interval

-- startAutoRepairScheduler: the interval of the repairs, where they are switched on.
unfoldable pub auto_repair_timer : Environment → Option ℤ
unfolding interval_of env_int
auto_repair_timer env =
    if env "NATBOX_AUTO_REPAIR" =ₛ "1"
    then some (interval_of (env_int env "NATBOX_AUTO_REPAIR_INTERVAL_MIN" (pos 5)))
    else none

pub record BackupTimer : Type 0 where
  pub directory : String
  pub interval : ℤ
  pub retention : ℕ

-- startBackupScheduler: no directory, no backups.
unfoldable pub backup_timer : Environment → Option BackupTimer
unfolding interval_of env_int
backup_timer env =
    let directory = trim_space (env "NATBOX_BACKUP_DIR") in
    if directory =ₛ ""
    then none
    else some (record {
      directory = directory;
      interval = interval_of (env_int env "NATBOX_BACKUP_INTERVAL_MIN" (pos 360));
      retention = retention_of (env_int env "NATBOX_BACKUP_RETENTION" (pos 7));
    })
