-- ===== src/Api/Reach.antt =====
-- main.go: the mux, which versionedAPI calls again.
use natbox.Prelude.{
  ℕ, zero, suc, ◌+◌, ◌≤◌, ◌≡◌, ◌≢◌, inl, inr, refl, Bool, true, false, not, ◌&&◌, String, ◌+ₛ◌,
  some, List, [], ◌∷◌, arith, eq_iff, ◌=ₛ◌, starts_with, count_chars, lookup, Bool-cases,
  Option-cases, sym, ap, ◌∙◌,
}
use text.Mathlib.TextEquality.{starts_with_iff}
use text.Mathlib.TextLemmas.{cons-append, nil-append}
use natbox.Api.Targets
use natbox.Api.Targets.{Target, patterns, target, plain_target, is_clean}
use natbox.Auth.Middleware.{versioned_path, versioned_path-append}

count_chars-append : (s t : String) → count_chars (s +ₛ t) ≡ count_chars s + count_chars t
unfolding count_chars
count_chars-append String.[] t = ap count_chars (nil-append t) ∙ ground arith
count_chars-append (String.◌∷◌ c s) t =
    rw (cons-append c s t, count_chars-append s t) (ground arith)

-- What holds of every entry of a map holds of the entry that is found.
module _ {V : Type 0} (test : String → V → Bool) where
  unfoldable pub every : List (String × V) → Bool
  every [] = true
  every ((k, v) ∷ m) = test k v && every m

  pub every-lookup :
      (k : String) (v : V) (m : List (String × V))
      → every m ≡ true
      → lookup k m ≡ some v
      → test k v ≡ true
  unfolding every lookup
  every-lookup k v [] h e = ground arith
  every-lookup k v ((j, u) ∷ m) h e = elim (Bool-cases (j =ₛ k)) [
    | inl same ↦ ground (arith, eq_iff j k, same, h, e)
    | inr other ↦ every-lookup k v m (ground arith) (ground (arith, other, e))
  ]

abbrev is_endless : Target → Bool
is_endless Targets.endless = true
is_endless t = false

plain_target-ends : (path : String) → is_endless (plain_target path) ≡ false
unfolding plain_target patterns every
plain_target-ends path = elim (Option-cases (lookup path patterns)) [
  | inl missing ↦ rw missing (elim (Bool-cases (starts_with path "/api/containers/")) [
    | inl below ↦ rw below refl
    | inr other ↦ rw other refl
  ])
  | inr (t, found) ↦
      rw found (ground (arith, every-lookup (λ k t. not (is_endless t)) path t patterns refl found))
]

pub versioned_path_shorter :
    (path : String)
    → starts_with path "/api/v1/" ≡ true
    → count_chars (versioned_path path) + 3 ≡ count_chars path
unfolding count_chars
versioned_path_shorter path h =
    let (t, e) = (starts_with_iff path "/api/v1/").0 h in
    rw
      (
        sym e,
        versioned_path-append t,
        count_chars-append "/api/" t,
        count_chars-append "/api/v1/" t,
      )
      (ground arith)

ended : (t : Target) → is_endless t ≡ false → t ≢ Targets.endless
ended t h e = ground (arith, ap is_endless e)

target-ends :
    (fuel : ℕ) (path : String) → count_chars path ≤ fuel → is_endless (target fuel path) ≡ false
unfolding target
target-ends zero path enough = elim (Bool-cases (is_clean path)) [
  | inr unclean ↦ rw unclean refl
  | inl clean ↦ elim (Bool-cases (starts_with path "/api/v1/")) [
    | inl versioned ↦ ground (arith, versioned_path_shorter path versioned)
    | inr plain ↦ rw (clean, plain) (plain_target-ends path)
  ]
]
target-ends (suc left) path enough = elim (Bool-cases (is_clean path)) [
  | inr unclean ↦ rw unclean refl
  | inl clean ↦ elim (Bool-cases (starts_with path "/api/v1/")) [
    | inl versioned ↦
        rw (clean, versioned)
          (target-ends left (versioned_path path)
            (ground (arith, versioned_path_shorter path versioned)))
    | inr plain ↦ rw (clean, plain) (plain_target-ends path)
  ]
]

-- The mux comes to an end on every path: a path loses three characters each time that versionedAPI passes
-- it on, so its length is fuel enough.
pub target_ends : (path : String) → target (count_chars path) path ≢ Targets.endless
target_ends path = ended _ (target-ends (count_chars path) path (ground arith))
