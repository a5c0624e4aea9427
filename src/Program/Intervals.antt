-- ===== src/Program/Intervals.antt =====
-- reconcile.go and backup_scheduler.go: the intervals of the timers.
use natbox.Prelude.{
  ℕ, ◌*◌, ◌≤◌, ◌≡◌, ◌∙◌, ap, ℤ, pos, ◌≤ℤ◌, ◌*ℤ◌, wrap64, ltb_ℤ, wrap64-of_range, arith,
  if◌then◌else◌,
}
use natbox.Program.Timers.{minute, interval_of}

at_least : (z : ℤ) → minute ≤ℤ (if ltb_ℤ z minute then minute else z)
at_least z = ground arith

product : (n : ℕ) → pos n *ℤ minute ≡ pos (n * 60000000000)
unfolding ◌*ℤ◌
product n = ground arith

-- A timer never runs more often than once a minute, whatever number is set (time.NewTicker panics at an
-- interval that is not positive); and a number of minutes from 1 to 153722867, the last one whose
-- nanoseconds fit int64, is kept exactly.
pub interval_of_bounds :
    (minutes : ℤ) (n : ℕ)
    → 1 ≤ n
    → n ≤ 153722867
    → (minute ≤ℤ interval_of minutes) × (interval_of (pos n) ≡ pos (n * 60000000000))
unfolding interval_of
interval_of_bounds minutes n low high =
    let nanos : wrap64 (pos n *ℤ minute) ≡ pos (n * 60000000000) =
      ap wrap64 (product n)
      ∙ wrap64-of_range (pos (n * 60000000000))
          (record { below = omega arith; above = omega arith }) in
    (at_least (wrap64 (minutes *ℤ minute)), rw nanos (ground arith))
