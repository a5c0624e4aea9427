-- ===== src/Incus/Lifecycle.antt =====
-- internal/incus/client.go: creating, starting, stopping and deleting instances.
use natbox.Prelude.{
  String, ◌+ₛ◌, none, some, List, [], ◌∷◌, ◌=ₛ◌, if◌then◌else◌, Exec, pure, fail, refuse, ◌>>=◌,
  ◌>>◌,
}
use natbox.Incus.Runner.{
  Runtime, InstanceSpec, command_error, validate_name, validate, bytes_value, run, command,
}

abbrev pub init_command : InstanceSpec → List String
init_command s =
    "init"
    ∷ s.image
    ∷ s.name
    ∷ "--config"
    ∷ ("limits.memory=" +ₛ bytes_value s.memory_bytes)
    ∷ (if s.cpu_allowance =ₛ ""
        then []
        else "--config" ∷ ("limits.cpu.allowance=" +ₛ s.cpu_allowance) ∷ [])

abbrev pub disk_command : InstanceSpec → List String
disk_command s =
    "config"
    ∷ "device"
    ∷ "override"
    ∷ s.name
    ∷ "root"
    ∷ ("size=" +ₛ bytes_value s.root_disk_bytes)
    ∷ []

abbrev pub autostart_command : InstanceSpec → List String
autostart_command s = "config" ∷ "set" ∷ s.name ∷ "boot.autostart" ∷ "true" ∷ []

abbrev pub start_command : InstanceSpec → List String
start_command s = "start" ∷ s.name ∷ []

abbrev pub rollback_command : InstanceSpec → List String
rollback_command s = "delete" ∷ s.name ∷ "--force" ∷ []

module _ (rt : Runtime) where
  unfoldable pub lifecycle : String → String → Exec rt.World (Unit {0})
  unfolding command
  lifecycle op name = do validate_name name; command rt op (op ∷ name ∷ [])

  abbrev pub start : String → Exec rt.World (Unit {0})
  start = lifecycle "start"

  abbrev pub stop : String → Exec rt.World (Unit {0})
  stop = lifecycle "stop"

  abbrev pub restart : String → Exec rt.World (Unit {0})
  restart = lifecycle "restart"

  unfoldable pub delete : String → Exec rt.World (Unit {0})
  unfolding command
  delete name = do validate_name name; command rt "delete" ("delete" ∷ name ∷ "--force" ∷ [])

  -- The closure rollback of Create: the result of the deletion is dropped.
  unfoldable pub rollback : InstanceSpec → Exec rt.World (Unit {0})
  unfolding run
  rollback s = do run rt (rollback_command s); pure tt

  -- A step of Create behind the `init`: where it fails the instance is deleted, and the step's own
  -- error returned.
  unfoldable pub guarded : InstanceSpec → String → List String → Exec rt.World (Unit {0})
  unfolding rollback run
  guarded s op args = do
    reply ← run rt args
    elim reply.failed [
      | none ↦ pure tt
      | some text ↦ (do rollback s; fail (command_error op text reply.stderr))
    ]

  unfoldable pub create : InstanceSpec → Exec rt.World (Unit {0})
  create s = do
    refuse (validate s)
    command rt "init" (init_command s)
    guarded s "set disk" (disk_command s)
    guarded s "enable autostart" (autostart_command s)
    guarded s "start" (start_command s)
