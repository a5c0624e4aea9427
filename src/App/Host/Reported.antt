-- ===== src/App/Host/Reported.antt =====
-- host_linux.go: readHostSnapshot on what the kernel prints, and checkCapacity behind it.
use natbox.Prelude.{
  ℕ, ◌+◌, ◌*◌, ◌^◌, ◌<◌, ◌≤◌, ◌≡◌, ◌↔◌, refl, Bool-cases, inl, inr, String, none, List, [], ◌∷◌,
  map, All, ℤ, pos, pos_part, wrap64, lookup, if◌then◌else◌, ◌=ₛ◌, ok, arith,
}
use natbox.App.Base.{Config}
use natbox.App.Capacity.{check_capacity}
use natbox.App.Capacity.Fits.{mul64-pos, check_capacity-fits}
use natbox.App.Create.{CreateContainerRequest, validate_create_request}
use natbox.App.Host.{FileSystem, Values, read_lines, value_at, snapshot_of, read_host_snapshot}
use natbox.App.Host.Meminfo.{MemoryRow, IsRow, bytes, shown, read_words-shown}

-- The size in the last row of a name, and `n` when no row has it.
abbrev reported_from : ℕ → String → List MemoryRow → ℕ
reported_from n name [] = n
reported_from n name (row ∷ rows) =
    reported_from (if row.name =ₛ name then bytes row else n) name rows

abbrev pub reported : String → List MemoryRow → ℕ
reported name rows = reported_from 0 name rows

value_at-cons :
    (name : String) (row : MemoryRow) (n : ℕ) (values : Values)
    → value_at name values ≡ pos n
    → value_at name ((row.name, pos (bytes row)) ∷ values)
      ≡ pos (if row.name =ₛ name then bytes row else n)
unfolding value_at lookup
value_at-cons name row n values h = elim (Bool-cases (row.name =ₛ name)) [
  | inl same ↦ rw (value_at, lookup, same) refl
  | inr differs ↦ rw (value_at, lookup, differs) h
]

value_at-read_lines :
    (name : String) (rows : List MemoryRow) (n : ℕ) (values : Values)
    → All IsRow rows
    → value_at name values ≡ pos n
    → value_at name (read_lines (map shown rows) values) ≡ pos (reported_from n name rows)
unfolding read_lines
value_at-read_lines name [] n values h e = e
value_at-read_lines name (row ∷ rows) n values h e =
    rw (read_lines, read_words-shown row values h.0)
      (value_at-read_lines name rows (if row.name =ₛ name then bytes row else n) _ h.1
        (value_at-cons name row n values e))

-- A file system whose sizes fit int64.
pub record IsDisk (disk : FileSystem) (size : ℕ) : Type 0 where
  pub block : disk.block_size ≡ pos size
  pub blocks_fit : disk.blocks < 2 ^ 63
  pub available_fits : disk.free_blocks < 2 ^ 63
  pub total_bytes : disk.blocks * size < 2 ^ 63
  pub available_bytes : disk.free_blocks * size < 2 ^ 63

value_at-none : (name : String) → value_at name [] ≡ pos 0
unfolding value_at lookup
value_at-none name = refl

wrap64-pos : (n : ℕ) → n < 2 ^ 63 → wrap64 (pos n) ≡ pos n
unfolding wrap64
wrap64-pos n h = ground arith

-- What the kernel prints is read back exactly: for rows whose names have no white space and whose sizes fit int64, and a
-- file system whose sizes fit int64, readHostSnapshot succeeds, each of its memory sizes is the one of
-- the last row of that name (0 when there is none), with 1024 bytes to a kB, and its disk sizes are
-- the blocks times the block size.
pub read_host_snapshot-shown :
    (rows : List MemoryRow) (disk : FileSystem) (size : ℕ)
    → All IsRow rows
    → IsDisk disk size
    → read_host_snapshot (ok (record { lines = map shown rows; fault = none })) (ok disk)
      ≡ ok (record {
        memory_total_bytes = pos (reported "MemTotal" rows);
        memory_available_bytes = pos (reported "MemAvailable" rows);
        swap_total_bytes = pos (reported "SwapTotal" rows);
        swap_available_bytes = pos (reported "SwapFree" rows);
        disk_total_bytes = pos (disk.blocks * size);
        disk_available_bytes = pos (disk.free_blocks * size);
      })
unfolding read_host_snapshot snapshot_of
read_host_snapshot-shown rows disk size h d =
    let value : (name : String)
        → value_at name (read_lines (map shown rows) []) ≡ pos (reported name rows) =
      λ name. value_at-read_lines name rows 0 [] h (value_at-none name) in
    rw
      (
        value "MemTotal",
        value "MemAvailable",
        value "SwapTotal",
        value "SwapFree",
        d.block,
        wrap64-pos disk.blocks d.blocks_fit,
        wrap64-pos disk.free_blocks d.available_fits,
        mul64-pos disk.blocks size d.total_bytes,
        mul64-pos disk.free_blocks size d.available_bytes,
      )
      refl

reported_from-fits :
    (n : ℕ) (name : String) (rows : List MemoryRow)
    → All IsRow rows
    → n < 2 ^ 63
    → reported_from n name rows < 2 ^ 63
reported_from-fits n name [] h k = k
reported_from-fits n name (row ∷ rows) h k =
    reported_from-fits (if row.name =ₛ name then bytes row else n) name rows h.1
      (elim (Bool-cases (row.name =ₛ name)) [
        | inl same ↦ rw same (h.0.fits)
        | inr differs ↦ rw differs k
      ])

-- Reserves that are not negative and fit int64 in bytes.
pub record HasReserves (config : Config) (memory_mb disk_gb : ℕ) : Type 0 where
  pub memory : config.memory_reserve_mb ≡ pos memory_mb
  pub disk : config.disk_reserve_gb ≡ pos disk_gb
  pub memory_fits : memory_mb < 2 ^ 43
  pub disk_fits : disk_gb < 2 ^ 33

-- The preflight on what the kernel prints: for such rows, such a file system and such reserves, a batch
-- of n containers of sizes that validateCreateRequest accepts, 1 ≤ n ≤ 32, passes checkCapacity behind
-- readHostSnapshot just when the memory reserve and the memory asked for fit together into the last
-- MemAvailable row, and the disk reserve and the disk asked for into the file system's free blocks.
pub check_capacity-shown :
    (format_bytes : ℤ → String) (config : Config) (rm rd : ℕ) (rows : List MemoryRow)
    (disk : FileSystem) (size n : ℕ) (req : CreateContainerRequest)
    → HasReserves config rm rd
    → All IsRow rows
    → IsDisk disk size
    → validate_create_request req ≡ none
    → 1 ≤ n
    → n ≤ 32
    → (check_capacity format_bytes config
          (read_host_snapshot (ok (record { lines = map shown rows; fault = none })) (ok disk))
          req.memory_limit_mb
          req.disk_limit_gb
          (pos n)
        ≡ ok tt)
      ↔ ((rm * 1048576 + pos_part req.memory_limit_mb * 1048576 * n ≤ reported "MemAvailable" rows)
          × (rd * 1073741824 + pos_part req.disk_limit_gb * 1073741824 * n
              ≤ disk.free_blocks * size))
check_capacity-shown format_bytes config rm rd rows disk size n req r h d valid low high =
    rw (read_host_snapshot-shown rows disk size h d) (
      check_capacity-fits format_bytes config _ rm rd (reported "MemAvailable" rows)
        (disk.free_blocks * size) n req
        (record {
          memory_reserve = r.memory;
          disk_reserve = r.disk;
          memory = refl;
          disk = refl;
          memory_reserve_fits = r.memory_fits;
          disk_reserve_fits = r.disk_fits;
          memory_fits = reported_from-fits 0 "MemAvailable" rows h (omega arith);
          disk_fits = d.available_bytes;
        })
        valid low high)
