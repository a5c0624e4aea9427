-- ===== src/Incus/Guards.antt =====
-- internal/incus/client.go: nameRE, and validateName in front of each operation on an instance.
use natbox.Prelude.{
  ℕ, zero, suc, ◌≡◌, ◌≢◌, refl, true, false, not, String, ◌+ₛ◌, List, ◌∷◌, arith, ℤ, quoted, Error,
  failure, ok, err, codes, Checks, reject-Checks, then-Checks, name_pattern, name_tail,
  is_name_char, inl, inr,
}
use natbox.Prelude.Text.Split.{lacks}
use natbox.Incus.Runner.{Runtime, valid_name, validate_name}
use natbox.Incus.Query.{info, stats, wait_ipv4}
use natbox.Incus.Lifecycle.{lifecycle, delete}
use natbox.Incus.Forwards.Endpoint.{is_protocol, is_port, validate_port}
use natbox.Incus.Forwards.Listing.{list_port_forwards}
use natbox.Incus.Forwards.Adding.{add_port_forward, remove_port_forward}

name_tail-lacks :
    (n sep : ℕ) (s : String) → is_name_char sep ≡ false → name_tail n s ≡ true → lacks sep s ≡ true
unfolding name_tail lacks
name_tail-lacks n sep String.[] out h = refl
name_tail-lacks zero sep (String.◌∷◌ c s) out h = cc
name_tail-lacks (suc n) sep (String.◌∷◌ c s) out h = ground (arith, name_tail-lacks n sep s)

-- A valid name has none of the characters that are not in its pattern, such as `/` and a space, and
-- does not begin like an option.
pub valid_name-safe :
    (name : String) (sep : ℕ)
    → valid_name name ≡ true
    → is_name_char sep ≡ false
    → (lacks sep name ≡ true) × ((c : ℕ) (rest : List ℕ) → codes name ≡ c ∷ rest → c ≢ b'-')
unfolding name_pattern lacks is_name_char
valid_name-safe String.[] sep h out = cc
valid_name-safe (String.◌∷◌ c s) sep h out =
    (ground (arith, name_tail-lacks 62 sep s), λ d rest e. ground arith)

validate_port-Checks :
    {S : Type 0} (protocol : String) (port : ℤ) → Checks (validate_port {S = S} protocol port)
unfolding validate_port
validate_port-Checks protocol port =
    then-Checks _ _ (reject-Checks (not (is_protocol protocol)) _)
      (reject-Checks (not (is_port port)) _)

abbrev pub invalid : String → Error
invalid name = failure ("invalid instance name " +ₛ quoted name)

-- With an invalid name no operation on an instance runs a command: the runtime stays as it was, and
-- the error names the instance, but where the port of a forward is refused first.
invalid_name_runs_nothing :
    (rt : Runtime) (name : String) (w : rt.World) (op cause protocol : String) (ticks : ℕ)
    (port target : ℤ)
    → valid_name name ≡ false
    → (lifecycle rt op name w ≡ (err (invalid name), w))
      × (delete rt name w ≡ (err (invalid name), w))
      × (info rt name w ≡ (err (invalid name), w))
      × (stats rt name w ≡ (err (invalid name), w))
      × (wait_ipv4 rt cause ticks name w ≡ (err (invalid name), w))
      × (list_port_forwards rt name w ≡ (err (invalid name), w))
      × (add_port_forward rt name protocol port target w ≡ (err (invalid name), w))
      × ((remove_port_forward rt name protocol port w).1 ≡ w)
      × ((remove_port_forward rt name protocol port w).0 ≢ ok tt)
unfolding lifecycle delete info stats wait_ipv4 list_port_forwards add_port_forward
    remove_port_forward validate_name
invalid_name_runs_nothing rt name w op cause protocol ticks port target bad = rw bad (
  refl,
  refl,
  refl,
  refl,
  refl,
  refl,
  refl,
  elim (validate_port-Checks protocol port w) [ inl e ↦ rw e refl | inr (x, e) ↦ rw e refl ],
  elim (validate_port-Checks protocol port w) [
    | inl e ↦ rw e (λ x. cc)
    | inr (x, e) ↦ rw e (λ y. cc)
  ],
)
