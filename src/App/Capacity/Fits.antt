-- ===== src/App/Capacity/Fits.antt =====
-- main.go: checkCapacity and hostView for sizes that validateCreateRequest accepts.
use natbox.Prelude.{
  ℕ, ◌+◌, ◌-◌, ◌^◌, ◌*◌, ◌≤◌, ◌<◌, ◌≡◌, ◌↔◌, true, String, none, ℤ, pos, ◌-ℤ◌, ◌*ℤ◌, wrap64,
  pos_part, ok, arith,
}
use native.Mathlib.Nat.{mul-le-mul_right, one-le-mul}
use natbox.Incus.Runner.{valid_name, validate}
use natbox.App.Base.{Config}
use natbox.App.Capacity.{HostSnapshot, host_view, check_capacity, mul64, sub64, kib, not_negative}
use natbox.App.Create.{CreateContainerRequest, validate_create_request, spec_of}

-- The sizes that validateCreateRequest lets through.
pub validated_sizes :
    (req : CreateContainerRequest)
    → validate_create_request req ≡ none
    → (req.memory_limit_mb ≡ pos (pos_part req.memory_limit_mb))
      × (req.disk_limit_gb ≡ pos (pos_part req.disk_limit_gb))
      × (16 ≤ pos_part req.memory_limit_mb)
      × (pos_part req.memory_limit_mb ≤ 8192)
      × (1 ≤ pos_part req.disk_limit_gb)
      × (pos_part req.disk_limit_gb ≤ 100)
unfolding validate_create_request
validated_sizes req h = ground arith

pub mul64-pos : (a b : ℕ) → a * b < 2 ^ 63 → mul64 (pos a) (pos b) ≡ pos (a * b)
unfolding ◌*ℤ◌ wrap64
mul64-pos a b h = ground arith

sub64-pos : (a b : ℕ) → a < 2 ^ 63 → b < 2 ^ 63 → sub64 (pos a) (pos b) ≡ ◌-ℤ◌ (pos a) (pos b)
unfolding ◌-ℤ◌ wrap64
sub64-pos a b h k = ground arith

megabytes : (m : ℕ) → m < 2 ^ 43 → mul64 (mul64 (pos m) kib) kib ≡ pos (m * 1048576)
megabytes m h =
    rw (mul64-pos m 1024 (omega arith)) (ground (arith, mul64-pos (m * 1024) 1024 (omega arith)))

gigabytes : (d : ℕ) → d < 2 ^ 33 → mul64 (mul64 (mul64 (pos d) kib) kib) kib ≡ pos (d * 1073741824)
gigabytes d h =
    rw (megabytes d (omega arith)) (ground (arith, mul64-pos (d * 1048576) 1024 (omega arith)))

-- What is free behind a reserve.
not_negative-sub64 :
    (a r : ℕ) → a < 2 ^ 63 → r < 2 ^ 63 → not_negative (sub64 (pos a) (pos r)) ≡ pos (a - r)
unfolding ◌-ℤ◌
not_negative-sub64 a r h k = rw (sub64-pos a r h k) (ground arith)

-- A configuration and a snapshot whose numbers are not negative, and whose reserves fit int64 in bytes.
pub record IsPlain (config : Config) (snapshot : HostSnapshot) (rm rd am ad : ℕ) : Type 0 where
  pub memory_reserve : config.memory_reserve_mb ≡ pos rm
  pub disk_reserve : config.disk_reserve_gb ≡ pos rd
  pub memory : snapshot.memory_available_bytes ≡ pos am
  pub disk : snapshot.disk_available_bytes ≡ pos ad
  pub memory_reserve_fits : rm < 2 ^ 43
  pub disk_reserve_fits : rd < 2 ^ 33
  pub memory_fits : am < 2 ^ 63
  pub disk_fits : ad < 2 ^ 63

pub host_view-exact :
    (config : Config) (snapshot : HostSnapshot) (rm rd am ad : ℕ)
    → IsPlain config snapshot rm rd am ad
    → ((host_view config snapshot).memory_allocatable_bytes ≡ pos (am - rm * 1048576))
      × ((host_view config snapshot).disk_allocatable_bytes ≡ pos (ad - rd * 1073741824))
unfolding host_view
host_view-exact config snapshot rm rd am ad p = (
  rw (p.memory_reserve, p.memory, megabytes rm p.memory_reserve_fits)
      (not_negative-sub64 am (rm * 1048576) p.memory_fits (ground (arith, p.memory_reserve_fits))),
  rw (p.disk_reserve, p.disk, gigabytes rd p.disk_reserve_fits)
      (not_negative-sub64 ad (rd * 1073741824) p.disk_fits (ground (arith, p.disk_reserve_fits))),
)

-- The bytes that a batch asks for.
memory_asked :
    (m n : ℕ)
    → m ≤ 8192
    → n ≤ 32
    → mul64 (mul64 (mul64 (pos m) kib) kib) (pos n) ≡ pos (m * 1048576 * n)
memory_asked m n h k =
    let b : m * 1048576 ≤ 8192 * 1048576 = omega arith in
    rw (megabytes m (omega arith)) (mul64-pos (m * 1048576) n (omega (arith, mul-le-mul_right n b)))

disk_asked :
    (d n : ℕ)
    → d ≤ 100
    → n ≤ 32
    → mul64 (mul64 (mul64 (mul64 (pos d) kib) kib) kib) (pos n) ≡ pos (d * 1073741824 * n)
disk_asked d n h k =
    let b : d * 1073741824 ≤ 100 * 1073741824 = omega arith in
    rw (gigabytes d (omega arith))
      (mul64-pos (d * 1073741824) n (omega (arith, mul-le-mul_right n b)))

asked_positive : (m u n : ℕ) → 1 ≤ m → 1 ≤ u → 1 ≤ n → 1 ≤ m * u * n
asked_positive m u n h k l = one-le-mul (one-le-mul h k) l

-- The preflight of n containers of sizes that are accepted, 1 ≤ n ≤ 32, on a plain host succeeds just
-- when the reserve and what is asked for fit together into what is available, memory and disk both.
pub check_capacity-fits :
    (format_bytes : ℤ → String) (config : Config) (snapshot : HostSnapshot) (rm rd am ad n : ℕ)
    (req : CreateContainerRequest)
    → IsPlain config snapshot rm rd am ad
    → validate_create_request req ≡ none
    → 1 ≤ n
    → n ≤ 32
    → (check_capacity format_bytes config
          (ok snapshot)
          req.memory_limit_mb
          req.disk_limit_gb
          (pos n)
        ≡ ok tt)
      ↔ ((rm * 1048576 + pos_part req.memory_limit_mb * 1048576 * n ≤ am)
          × (rd * 1073741824 + pos_part req.disk_limit_gb * 1073741824 * n ≤ ad))
unfolding check_capacity
check_capacity-fits format_bytes config snapshot rm rd am ad n req p valid low high =
    let v = validated_sizes req valid in
    let view = host_view-exact config snapshot rm rd am ad p in
    let m = pos_part req.memory_limit_mb in
    let d = pos_part req.disk_limit_gb in
    rw
      (
        v.0,
        v.1,
        memory_asked m n (omega arith) high,
        disk_asked d n (omega arith) high,
        view.0,
        view.1,
      )
      (ground (
        arith,
        asked_positive m 1048576 n (omega arith) (omega arith) low,
        asked_positive d 1073741824 n (omega arith) (omega arith) low,
      ))

-- A request that validateCreateRequest accepts, with a name and an image that the runtime takes, passes
-- the runtime's own validation: the two agree about the sizes.
spec_of-validate :
    (req : CreateContainerRequest)
    → validate_create_request req ≡ none
    → valid_name req.name ≡ true
    → validate (spec_of req) ≡ none
unfolding validate validate_create_request
spec_of-validate req valid named =
    let v = validated_sizes req valid in
    rw
      (
        named,
        v.0,
        v.1,
        megabytes (pos_part req.memory_limit_mb) (omega arith),
        gigabytes (pos_part req.disk_limit_gb) (omega arith),
      )
      (ground arith)
