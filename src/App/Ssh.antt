-- ===== src/App/Ssh.antt =====
-- main.go: SSH forwards and the ports in use.
pub mod Free
use natbox.Prelude.{
  ℕ, zero, suc, Bool, true, false, ◌&&◌, String, ◌+ₛ◌, Option, none, some, List, [], ◌∷◌, ℤ, pos,
  negsuc, ◌+ℤ◌, ◌-ℤ◌, ltb_ℤ, leb_ℤ, pos_part, ◌=ₛ◌, any, length, if◌then◌else◌, format_int, Error,
  failure, error_text, Exec, Result, ok, err, pure, fail, reject, ◌>>=◌, ◌>>◌,
}
use natbox.Incus.Runner.{Runtime, Instance}
use natbox.Incus.Query.{list}
use natbox.Incus.Forwards.Endpoint.{PortForward}
use natbox.Incus.Forwards.Listing.{list_port_forwards}
use natbox.Incus.Forwards.Adding.{eq_ℤ, add_port_forward}
use natbox.App.Base.{Config}

abbrev pub is_used : List ℤ → ℤ → Bool
is_used ports p = any (λ q. eq_ℤ q p) ports

-- The keys of a map from ports to true, in the order in which they were first set.
abbrev pub set_port : List ℤ → ℤ → List ℤ
set_port ports p = if is_used ports p then ports else p ∷ ports

unfoldable pub tcp_ports : List ℤ → List PortForward → List ℤ
tcp_ports used [] = used
tcp_ports used (f ∷ fs) =
    tcp_ports (if f.protocol =ₛ "tcp" then set_port used f.listen_port else used) fs

-- Those of checkSSHCapacity: in the range only.
unfoldable pub ssh_ports : Config → List ℤ → List PortForward → List ℤ
ssh_ports config used [] = used
ssh_ports config used (f ∷ fs) =
    ssh_ports config
      (if f.protocol =ₛ "tcp"
          && leb_ℤ config.ssh_port_start f.listen_port
          && leb_ℤ f.listen_port config.ssh_port_end
        then set_port used f.listen_port
        else used)
      fs

-- The forward that already leads to the SSH port.
unfoldable pub ssh_forward : List PortForward → Option PortForward
ssh_forward [] = none
ssh_forward (f ∷ fs) =
    if f.protocol =ₛ "tcp" && eq_ℤ f.target_port (pos 22) then some f else ssh_forward fs

-- `for port := start; port <= end; port++`, with the rounds that the range has.
unfoldable pub first_free : List ℤ → ℕ → ℤ → Option ℤ
first_free used zero port = none
first_free used (suc rounds) port =
    let rest = first_free used rounds (port +ℤ pos 1) in
    if is_used used port then rest else some port

-- end - start + 1, and 0 for an empty range.
abbrev pub range_size : Config → ℕ
range_size config = pos_part (config.ssh_port_end -ℤ config.ssh_port_start +ℤ pos 1)

-- `fmt.Errorf("preflight SSH ports: %w", err)`
abbrev prefixed : {A : Type 0} → Result A → Result A
prefixed (ok a) = ok a
prefixed (err e) = err (failure ("preflight SSH ports: " +ₛ error_text e))

-- The number of ports that are still free.
abbrev pub available : Config → List ℤ → ℤ
available config used = config.ssh_port_end -ℤ config.ssh_port_start +ℤ pos 1 -ℤ pos (length used)

module _ (rt : Runtime) where
  unfoldable pub collect :
      (List ℤ → List PortForward → List ℤ) → List ℤ → List Instance → Exec rt.World (List ℤ)
  collect add used [] = pure used
  collect add used (i ∷ is) = do
    forwards ← list_port_forwards rt i.name
    collect add (add used forwards) is

  allocate_free : Config → String → Option ℤ → Exec rt.World PortForward
  allocate_free config name none = fail (
      failure (
        "no free SSH port in range "
        +ₛ format_int config.ssh_port_start
        +ₛ "-"
        +ₛ format_int config.ssh_port_end))
  allocate_free config name (some port) = do
    add_port_forward rt name "tcp" port (pos 22)
    pure (record { name = name; protocol = "tcp"; listen_port = port; target_port = pos 22 })

  allocate_new : Config → String → Option PortForward → Exec rt.World PortForward
  unfolding collect allocate_free
  allocate_new config name (some forward) = pure forward
  allocate_new config name none = do
    instances ← list rt
    used ← collect tcp_ports [] instances
    allocate_free config name (first_free used (range_size config) config.ssh_port_start)

  unfoldable pub allocate_ssh : Config → String → Exec rt.World PortForward
  unfolding allocate_new
  allocate_ssh config name = do
    forwards ← list_port_forwards rt name
    allocate_new config name (ssh_forward forwards)

  abbrev preflight : {A : Type 0} → Exec rt.World A → Exec rt.World A
  preflight m w = let (r, w') = m w in (prefixed r, w')

  unfoldable pub check_ssh_capacity : Config → ℕ → Exec rt.World (Unit {0})
  check_ssh_capacity config needed = do
    used ← preflight (do instances ← list rt; collect (ssh_ports config) [] instances)
    reject (ltb_ℤ (available config used) (pos needed)) (
        "not enough free SSH ports in range 2201-2299: need "
        +ₛ format_int (pos needed)
        +ₛ ", available "
        +ₛ format_int (available config used))
