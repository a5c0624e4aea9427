-- ===== src/Api/Open.antt =====
-- main.go: where the paths that the middleware leaves open lead.
use natbox.Prelude.{
  ℕ, zero, suc, ◌≤◌, ◌≡◌, ◌⊎◌, inl, inr, refl, Bool, true, false, ◌||◌, String, ◌+ₛ◌, arith, eq_iff,
  starts_with, count_chars, lookup, split_on, Bool-cases, Option-cases, sym, ap, ◌∙◌, append_assoc,
  starts_with-append,
}
use text.Mathlib.TextEquality.{starts_with_iff}
use natbox.Api.Targets
use natbox.Api.Targets.{Target, patterns, target, plain_target, is_clean}
use natbox.Auth.Middleware.{
  canonical_api_path, is_open, versioned_path, versioned_path-append, versioned_path-canonical,
}
use natbox.Api.Reach.{every, every-lookup, versioned_path_shorter}

-- What is open to everybody.
abbrev pub is_public : Target → Bool
is_public Targets.health = true
is_public Targets.auth_status = true
is_public Targets.auth_login = true
is_public Targets.index = true
is_public Targets.unrouted = true
is_public Targets.redirect = true
is_public t = false

target-plain :
    (fuel : ℕ) (path : String)
    → is_clean path ≡ true
    → starts_with path "/api/v1/" ≡ false
    → target fuel path ≡ plain_target path
unfolding target
target-plain zero path clean plain = rw (clean, plain) refl
target-plain (suc left) path clean plain = rw (clean, plain) refl

target-redirect :
    (fuel : ℕ) (path : String) → is_clean path ≡ false → target fuel path ≡ Targets.redirect
unfolding target
target-redirect zero path unclean = rw unclean refl
target-redirect (suc left) path unclean = rw unclean refl

-- A versioned path takes a step of the fuel.
target-versioned :
    (fuel : ℕ) (path : String)
    → is_clean path ≡ true
    → starts_with path "/api/v1/" ≡ true
    → count_chars path ≤ fuel
    → (left : ℕ) × (target fuel path ≡ target left (versioned_path path))
      × (count_chars (versioned_path path) ≤ left)
unfolding target
target-versioned zero path clean versioned enough =
    ground (arith, versioned_path_shorter path versioned)
target-versioned (suc left) path clean versioned enough =
    (left, rw (clean, versioned) refl, ground (arith, versioned_path_shorter path versioned))

below_api : (u : String) → true ≡ starts_with ("/api/containers/" +ₛ u) "/api/"
below_api u = sym (
    ap (λ p. starts_with p "/api/") (append_assoc "/api/" "containers/" u)
    ∙ starts_with-append "/api/" ("containers/" +ₛ u))

-- A path that is no versioned one and does not begin with "/api/" is public.
outside_api :
    (path : String) → starts_with path "/api/" ≡ false → is_public (plain_target path) ≡ true
unfolding plain_target patterns every
outside_api path h = elim (Option-cases (lookup path patterns)) [
  | inl missing ↦ rw missing (elim (Bool-cases (starts_with path "/api/containers/")) [
    | inl below ↦ elim (outside_containers path below h) [ ]
    | inr other ↦ rw other refl
  ])
  | inr (t, found) ↦ rw found (
      ground (
        arith,
        h,
        every-lookup (λ k t. starts_with k "/api/" || is_public t) path t patterns refl found,
      ))
]
  where
    outside_containers :
        (path : String)
        → starts_with path "/api/containers/" ≡ true
        → starts_with path "/api/" ≡ false
        → ⊥
    outside_containers path below h =
        let (u, e) = (starts_with_iff path "/api/containers/").0 below in
        ground (arith, h, below_api u ∙ ap (λ p. starts_with p "/api/") e)

-- The three paths below "/api/" that are served to everybody.
public_api :
    (fuel : ℕ) (path : String)
    → (path ≡ "/api/health") ⊎ ((path ≡ "/api/auth/status") ⊎ (path ≡ "/api/auth/login"))
    → is_public (target fuel path) ≡ true
unfolding target plain_target patterns is_clean lookup split_on
public_api zero path (inl e) = rw e refl
public_api zero path (inr (inl e)) = rw e refl
public_api zero path (inr (inr e)) = rw e refl
public_api (suc left) path (inl e) = rw e refl
public_api (suc left) path (inr (inl e)) = rw e refl
public_api (suc left) path (inr (inr e)) = rw e refl

open_paths :
    (path : String)
    → is_open path ≡ true
    → (starts_with path "/api/" ≡ false)
      ⊎ ((path ≡ "/api/health") ⊎ ((path ≡ "/api/auth/status") ⊎ (path ≡ "/api/auth/login")))
open_paths path h = elim (Bool-cases (starts_with path "/api/")) [
  | inr outside ↦ inl outside
  | inl inside ↦ inr (
      ground (
        arith,
        h,
        inside,
        eq_iff path "/api/health",
        eq_iff path "/api/auth/status",
        eq_iff path "/api/auth/login",
      ))
]

-- A path that versionedAPI has rewritten is the one that the middleware has judged, and is below "/api/".
rewritten :
    (path : String)
    → starts_with path "/api/v1/" ≡ true
    → (versioned_path path ≡ canonical_api_path path)
      × (starts_with (versioned_path path) "/api/" ≡ true)
rewritten path h =
    let (t, e) = (starts_with_iff path "/api/v1/").0 h in
    rw (sym e) (
      versioned_path-canonical t,
      ap (λ p. starts_with p "/api/") (versioned_path-append t) ∙ starts_with-append "/api/" t,
    )

unversioned : (path : String) → starts_with path "/api/v1/" ≡ false → canonical_api_path path ≡ path
unfolding canonical_api_path
unversioned path h = rw h refl

rewritten_public :
    (fuel : ℕ) (path : String)
    → starts_with path "/api/" ≡ true
    → is_open path ≡ true
    → is_public (target fuel path) ≡ true
rewritten_public fuel path inside h = elim (open_paths path h) [
  | inl outside ↦ ground (arith, inside, outside)
  | inr same ↦ public_api fuel path same
]

plain_public :
    (fuel : ℕ) (path : String)
    → is_clean path ≡ true
    → starts_with path "/api/v1/" ≡ false
    → is_open path ≡ true
    → is_public (target fuel path) ≡ true
plain_public fuel path clean plain h = elim (open_paths path h) [
  | inr same ↦ public_api fuel path same
  | inl outside ↦ rw (target-plain fuel path clean plain) (outside_api path outside)
]

target-public :
    (fuel : ℕ) (path : String)
    → count_chars path ≤ fuel
    → is_open (canonical_api_path path) ≡ true
    → is_public (target fuel path) ≡ true
target-public fuel path enough h = elim (Bool-cases (is_clean path)) [
  | inr unclean ↦ rw (target-redirect fuel path unclean) refl
  | inl clean ↦ elim (Bool-cases (starts_with path "/api/v1/")) [
    | inl versioned ↦
        let (left, step, room) = target-versioned fuel path clean versioned enough in
        let (same, inside) = rewritten path versioned in
        rw step (rewritten_public left (versioned_path path) inside (ap is_open same ∙ h))
    | inr plain ↦ plain_public fuel path clean plain (ap is_open (sym (unversioned path plain)) ∙ h)
  ]
]

-- A path that the middleware lets everybody pass leads to what is public, and to no other handler.
pub open_public :
    (path : String)
    → is_open (canonical_api_path path) ≡ true
    → is_public (target (count_chars path) path) ≡ true
open_public path h = target-public (count_chars path) path (ground arith) h
