-- ===== src/App/Capacity.antt =====
-- main.go: the host's capacity and the preflight of a creation, in int64.
pub mod Fits
use natbox.Prelude.{
  ℕ, ◌*◌, ◌/◌, Bool, String, ◌+ₛ◌, Option, none, some, ℤ, pos, negsuc, ltb_ℤ, ◌-ℤ◌, ◌*ℤ◌, wrap64,
  if◌then◌else◌, Error, Result, ok, err, failure, pos_part,
}
use natbox.App.Base.{Config}

pub record HostSnapshot : Type 0 where
  pub memory_total_bytes : ℤ
  pub memory_available_bytes : ℤ
  pub swap_total_bytes : ℤ
  pub swap_available_bytes : ℤ
  pub disk_total_bytes : ℤ
  pub disk_available_bytes : ℤ

pub record HostView : Type 0 where
  pub memory_total_bytes : ℤ
  pub memory_available_bytes : ℤ
  pub memory_allocatable_bytes : ℤ
  pub swap_total_bytes : ℤ
  pub swap_available_bytes : ℤ
  pub disk_total_bytes : ℤ
  pub disk_available_bytes : ℤ
  pub disk_allocatable_bytes : ℤ
  pub suggested_by_memory : ℤ
  pub suggested_by_disk : ℤ

abbrev pub mul64 : ℤ → ℤ → ℤ
mul64 a b = wrap64 (a *ℤ b)

abbrev pub sub64 : ℤ → ℤ → ℤ
sub64 a b = wrap64 (a -ℤ b)

abbrev pub not_negative : ℤ → ℤ
not_negative z = if ltb_ℤ z (pos 0) then pos 0 else z

abbrev pub kib : ℤ
kib = pos 1024

unfoldable pub host_view : Config → HostSnapshot → HostView
host_view config snapshot =
    let memory_reserve = mul64 (mul64 config.memory_reserve_mb kib) kib in
    let disk_reserve = mul64 (mul64 (mul64 config.disk_reserve_gb kib) kib) kib in
    let memory = not_negative (sub64 snapshot.memory_available_bytes memory_reserve) in
    let disk = not_negative (sub64 snapshot.disk_available_bytes disk_reserve) in
    record {
      memory_total_bytes = snapshot.memory_total_bytes;
      memory_available_bytes = snapshot.memory_available_bytes;
      memory_allocatable_bytes = memory;
      swap_total_bytes = snapshot.swap_total_bytes;
      swap_available_bytes = snapshot.swap_available_bytes;
      disk_total_bytes = snapshot.disk_total_bytes;
      disk_available_bytes = snapshot.disk_available_bytes;
      disk_allocatable_bytes = disk;
      suggested_by_memory = pos (pos_part memory / (120 * 1024 * 1024));
      suggested_by_disk = pos (pos_part disk / (1 * 1024 * 1024 * 1024));
    }

module _ (format_bytes : ℤ → String) where
  -- The result of checkCapacity, given the snapshot that the host reports. formatBytes, which uses
  -- floating point, is a parameter: it is only shown in the texts.
  unfoldable pub check_capacity : Config → Result HostSnapshot → ℤ → ℤ → ℤ → Result (Unit {0})
  unfolding host_view
  check_capacity config host memory_mb disk_gb count =
      if ltb_ℤ count (pos 1) then err (failure "count must be positive") else elim host [
        | err e ↦ err e
        | ok snapshot ↦
            let view = host_view config snapshot in
            let memory = mul64 (mul64 (mul64 memory_mb kib) kib) count in
            let disk = mul64 (mul64 (mul64 (mul64 disk_gb kib) kib) kib) count in
            if ltb_ℤ view.memory_allocatable_bytes memory
            then err (
                failure (
                  "requested memory "
                  +ₛ format_bytes memory
                  +ₛ " exceeds host allocatable memory "
                  +ₛ format_bytes view.memory_allocatable_bytes))
            else if ltb_ℤ view.disk_allocatable_bytes disk
            then err (
                failure (
                  "requested disk "
                  +ₛ format_bytes disk
                  +ₛ " exceeds host allocatable disk "
                  +ₛ format_bytes view.disk_allocatable_bytes))
            else ok tt
      ]
