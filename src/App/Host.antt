-- ===== src/App/Host.antt =====
-- host_linux.go: readHostSnapshot, over what the system gives of /proc/meminfo and of the file system.
pub mod Tests
pub mod Meminfo
pub mod Reported
use natbox.Prelude.{
  ℕ, String, ◌+ₛ◌, Option, none, some, List, [], ◌∷◌, ℤ, pos, wrap64, ◌=ₛ◌, if◌then◌else◌,
  parse_int, lookup, Error, Result, ok, err, failure, error_text,
}
use natbox.Prelude.Text.Cut.{trim_last}
use natbox.Prelude.Text.Fields.{fields}
use natbox.App.Capacity.{HostSnapshot, mul64, kib}

-- syscall.Statfs_t: the blocks and the free blocks are unsigned.
pub record FileSystem : Type 0 where
  pub block_size : ℤ
  pub blocks : ℕ
  pub free_blocks : ℕ

-- The map `values` as an association list, the latest entry in front.
abbrev pub Values : Type 0
Values = List (String × ℤ)

abbrev scaled : List String → ℤ → ℤ
scaled [] value = value
scaled (unit ∷ rest) value = if unit =ₛ "kB" then mul64 value kib else value

unfoldable pub read_words : List String → Values → Values
read_words (name ∷ amount ∷ rest) values = elim (parse_int amount) [
  | none ↦ values
  | some value ↦ (trim_last b':' name, scaled rest value) ∷ values
]
read_words _ values = values

unfoldable pub read_lines : List String → Values → Values
unfolding fields read_words
read_lines [] values = values
read_lines (line ∷ lines) values = read_lines lines (read_words (fields line) values)

unfoldable pub value_at : String → Values → ℤ
value_at name values = elim (lookup name values) [ none ↦ pos 0 | some value ↦ value ]

unfoldable pub snapshot_of : Values → FileSystem → HostSnapshot
unfolding value_at
snapshot_of values disk = record {
  memory_total_bytes = value_at "MemTotal" values;
  memory_available_bytes = value_at "MemAvailable" values;
  swap_total_bytes = value_at "SwapTotal" values;
  swap_available_bytes = value_at "SwapFree" values;
  disk_total_bytes = mul64 (wrap64 (pos disk.blocks)) disk.block_size;
  disk_available_bytes = mul64 (wrap64 (pos disk.free_blocks)) disk.block_size;
}

-- The file /proc/meminfo, once it is open: the lines that the scanner gives, and its error behind
-- them.
pub record Scanned : Type 0 where
  pub lines : List String
  pub fault : Option Error

unfoldable pub read_host_snapshot : Result Scanned → Result FileSystem → Result HostSnapshot
unfolding read_lines snapshot_of
read_host_snapshot (err e) disk = err (failure ("read host memory: " +ₛ error_text e))
read_host_snapshot (ok memory) disk = elim memory.fault [
  | some e ↦ err (failure ("read host memory: " +ₛ error_text e))
  | none ↦ elim disk [
    | err e ↦ err (failure ("read host disk: " +ₛ error_text e))
    | ok stat ↦ ok (snapshot_of (read_lines memory.lines []) stat)
  ]
]
