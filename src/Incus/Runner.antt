-- ===== src/Incus/Runner.antt =====
-- internal/incus/client.go: the Runner, the runtime's replies, names and instance specifications.
-- The runtime is a program that the client starts: `Runtime` is its state, what a command line does
-- to it, and how its JSON replies are read (encoding/json fills the client's types from them). All of
-- it is a parameter; what a theorem needs of it is a hypothesis of the theorem.
use natbox.Prelude.{
  ℕ, zero, suc, ◌+◌, ◌&&◌, ◌*◌, ◌/◌, ◌%◌, Bool, not, ◌||◌, String, ◌+ₛ◌, Option, none, some, List,
  ℤ, pos, negsuc, ltb_ℤ, pos_part, neg_part, ◌==◌, ◌=ₛ◌, if◌then◌else◌, format_int, quoted,
  trim_space, name_pattern, cpu_pattern, Error, failure, Result, ok, err, Exec, pure, fail, reject,
  error_text, ◌>>=◌, ◌>>◌,
}

pub record Reply : Type 0 where
  pub out : String
  pub stderr : String
  -- the text of the error, where the command failed
  pub failed : Option String

pub record NetworkAddress : Type 0 where
  pub family : String
  pub address : String
  pub scope : String

-- A Go map is a list of its entries in the order in which a range over it finds them.
pub record Instance : Type 0 where
  pub name : String
  pub status : String
  pub type : String
  pub network : List (String × List NetworkAddress)

pub record ResourceUsage : Type 0 where
  pub usage : ℤ
  pub total : ℤ

pub record InstanceInfo : Type 0 where
  pub status : String
  pub status_code : ℤ
  pub created_at : String
  pub started_at : String
  pub memory : ResourceUsage
  pub disk : List (String × ResourceUsage)

pub record NetworkCounters : Type 0 where
  pub bytes_received : ℤ
  pub bytes_sent : ℤ
  pub packets_received : ℤ
  pub packets_sent : ℤ

pub record Device : Type 0 where
  pub type : String
  pub listen : String
  pub connect : String

pub record Runtime : Type 1 where
  pub World : Type 0
  pub run : List String → World → Reply × World
  pub decode_instances : String → Result (List Instance)
  pub decode_info : String → Result InstanceInfo
  pub decode_counters : String → Result (List (String × NetworkCounters))
  pub decode_devices : String → Result (List (String × Device))
  pub decode_instance_devices : String → Result (List (String × Device))

unfoldable pub command_error : String → String → String → Error
command_error op text stderr = failure ("incus " +ₛ op +ₛ ": " +ₛ text +ₛ ": " +ₛ trim_space stderr)

-- `fmt.Errorf(prefix+": %w", err)` around a decoder's error.
abbrev pub decoded : {S A : Type 0} → String → Result A → Exec S A
decoded prefix (ok a) = pure a
decoded prefix (err e) = fail (failure (prefix +ₛ ": " +ₛ error_text e))

-- ^[A-Za-z0-9][A-Za-z0-9.-]{0,62}$
abbrev pub valid_name : String → Bool
valid_name = name_pattern 62

unfoldable pub validate_name : {S : Type 0} → String → Exec S (Unit {0})
validate_name name = reject (not (valid_name name)) ("invalid instance name " +ₛ quoted name)

pub record InstanceSpec : Type 0 where
  pub name : String
  pub image : String
  pub cpu_allowance : String
  pub memory_bytes : ℤ
  pub root_disk_bytes : ℤ

abbrev pub mib : ℕ
mib = 1024 * 1024

abbrev pub gib : ℕ
gib = 1024 * 1024 * 1024

-- InstanceSpec.validate: the text of its error.
unfoldable pub validate : InstanceSpec → Option String
validate s =
    if not (valid_name s.name)
    then some ("invalid instance name " +ₛ quoted s.name)
    else if trim_space s.image =ₛ ""
    then some "image is required"
    else if ltb_ℤ s.memory_bytes (pos (16 * mib)) || ltb_ℤ (pos (8 * gib)) s.memory_bytes
    then some "memory must be between 16 MiB and 8 GiB"
    else if ltb_ℤ s.root_disk_bytes (pos (128 * mib)) || ltb_ℤ (pos (100 * gib)) s.root_disk_bytes
    then some "disk must be between 128 MiB and 100 GiB"
    else if not (s.cpu_allowance =ₛ "") && not (cpu_pattern s.cpu_allowance)
    then some "invalid CPU allowance"
    else none

abbrev negate : ℕ → ℤ
negate zero = pos 0
negate (suc n) = negsuc n

abbrev quotient : ℤ → ℤ
quotient (pos n) = pos (n / mib)
quotient (negsuc n) = negate (suc n / mib)

-- The size in the form that the runtime's command line takes. `%` and `/` round towards zero.
unfoldable pub bytes_value : ℤ → String
bytes_value v =
    if (pos_part v + neg_part v) % mib == 0
    then format_int (quotient v) +ₛ "MiB"
    else format_int v +ₛ "B"

module _ (rt : Runtime) where
  -- Client.run: the reply of a command, failed or not.
  unfoldable pub run : List String → Exec rt.World Reply
  run args w = let (reply, w') = rt.run args w in (ok reply, w')

  -- A reply whose error is returned under the operation's name.
  unfoldable pub output : String → Reply → Exec rt.World String
  output op reply = elim reply.failed [
    | none ↦ pure reply.out
    | some text ↦ fail (command_error op text reply.stderr)
  ]

  -- `if _, stderr, err := c.run(ctx, args...); err != nil { return commandError(op, err, stderr) }`
  unfoldable pub command : String → List String → Exec rt.World (Unit {0})
  unfolding run output
  command op args = do reply ← run args; output op reply; pure tt
