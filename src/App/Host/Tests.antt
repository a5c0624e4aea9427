-- ===== src/App/Host/Tests.antt =====
-- host_linux.go on a small /proc/meminfo.
use natbox.Prelude.{
  ℕ, ◌+◌, ◌*◌, ◌≤◌, ◌≡◌, ◌↔◌, refl, true, false, String, none, some, List, [], ◌∷◌, map, All, pos,
  negsuc, ok, err, failure, arith, trim_space, cpu_pattern, is_space, itoa, parse_int, wrap64, ◌*ℤ◌,
  error_text,
}
use natbox.Prelude.Text.Space.{spaceless}
use natbox.Prelude.Text.Cut.{trim_last}
use natbox.App.Base.{Config}
use natbox.App.Capacity.{check_capacity}
use natbox.App.Create.{CreateContainerRequest, validate_create_request}
use natbox.App.Host.{FileSystem, read_lines, read_host_snapshot}
use natbox.App.Host.Meminfo.{MemoryRow, IsRow, shown}
use natbox.App.Host.Reported.{HasReserves, IsDisk, read_host_snapshot-shown, check_capacity-shown}

abbrev kib_row : String → ℕ → MemoryRow
kib_row name amount = record { name = name; width = 3; amount = amount; in_kib = true }

abbrev rows : List MemoryRow
rows =
    kib_row "MemTotal" 2000000
    ∷ kib_row "MemAvailable" 1000000
    ∷ kib_row "SwapTotal" 0
    ∷ record { name = "HugePages_Total"; width = 0; amount = 7; in_kib = false }
    ∷ []

abbrev disk : FileSystem
disk = record { block_size = pos 4096; blocks = 10000000; free_blocks = 8000000 }

row_shown : shown (kib_row "MemTotal" 2000000) ≡ "MemTotal:    2000000 kB"
unfolding itoa
row_shown = refl

-- A line without a number and an empty one are passed over, the later row of a name counts first, and
-- the product with 1024 wraps around.
lines_read :
    read_lines
      ("MemTotal: 5 kB" ∷ "" ∷ "Active" ∷ "MemFree: many kB" ∷ "MemTotal: -1"
        ∷ "Big: 9007199254740992 kB" ∷ [])
      []
    ≡ ("Big", negsuc 9223372036854775807) ∷ ("MemTotal", negsuc 0) ∷ ("MemTotal", pos 5120) ∷ []
unfolding read_lines parse_int trim_last wrap64 ◌*ℤ◌
lines_read = refl

scanner_fails :
    read_host_snapshot
      (ok (record { lines = []; fault = some (failure "token too long") }))
      (ok disk)
    ≡ err (failure "read host memory: token too long")
unfolding read_host_snapshot error_text
scanner_fails = refl

rows-IsRow : All IsRow rows
unfolding spaceless is_space
rows-IsRow = (
  record { word = refl; fits = omega arith },
  (
    record { word = refl; fits = omega arith },
    (record { word = refl; fits = omega arith }, (record { word = refl; fits = omega arith }, tt)),
  ),
)

disk-IsDisk : IsDisk disk 4096
disk-IsDisk = record {
  block = refl;
  blocks_fit = omega arith;
  available_fits = omega arith;
  total_bytes = omega arith;
  available_bytes = omega arith;
}

read_host_snapshot-shown_example :
    read_host_snapshot (ok (record { lines = map shown rows; fault = none })) (ok disk)
    ≡ ok (record {
      memory_total_bytes = pos 2048000000;
      memory_available_bytes = pos 1024000000;
      swap_total_bytes = pos 0;
      swap_available_bytes = pos 0;
      disk_total_bytes = pos 40960000000;
      disk_available_bytes = pos 32768000000;
    })
read_host_snapshot-shown_example = read_host_snapshot-shown rows disk 4096 rows-IsRow disk-IsDisk

abbrev config : Config
config = record {
  port_min = pos 10000;
  port_max = pos 60000;
  ssh_port_start = pos 2201;
  ssh_port_end = pos 2299;
  memory_reserve_mb = pos 100;
  disk_reserve_gb = pos 2;
}

abbrev nat01 : CreateContainerRequest
nat01 = record {
  name = "nat01";
  image = "images:alpine/3.24";
  cpu_limit = "12%";
  public_key = "";
  memory_limit_mb = pos 64;
  disk_limit_gb = pos 1;
}

reserves : HasReserves config 100 2
reserves = record { memory = refl; disk = refl; memory_fits = omega arith; disk_fits = omega arith }

check_capacity-shown_example :
    (check_capacity
        (λ z. "")
        config
        (read_host_snapshot (ok (record { lines = map shown rows; fault = none })) (ok disk))
        (pos 64)
        (pos 1)
        (pos 10)
      ≡ ok tt)
    ↔ ((100 * 1048576 + 64 * 1048576 * 10 ≤ 1024000000)
        × (2 * 1073741824 + 1 * 1073741824 * 10 ≤ 32768000000))
unfolding validate_create_request trim_space cpu_pattern
check_capacity-shown_example =
    check_capacity-shown (λ z. "") config 100 2 rows disk 4096 10 nat01 reserves rows-IsRow
      disk-IsDisk refl (omega arith) (omega arith)
