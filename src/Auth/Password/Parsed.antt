-- ===== src/Auth/Password/Parsed.antt =====
-- internal/auth/password.go: the numbers of a hash that was parsed.
use natbox.Prelude.{
  ℕ, ◌^◌, ◌≤◌, ◌<◌, ◌≡◌, ◌||◌, String, Option, none, some, List, [], ◌∷◌, arith, ltb, ◌=ₛ◌, not,
  length, split_on, parse_digits, Result, ok, err, Bool-cases, Option-cases, inl, inr,
}
use mathlib.Core.Path.{subst}
use natbox.Prelude.Text.Base64.{decode_raw}
use natbox.Auth.Compare.{Bytes}
use natbox.Auth.Password
use natbox.Auth.Password.{PasswordHash}

-- What VerifyPassword passes to argon2: the costs fit their machine types and are not too small.
pub record IsUsable (p : PasswordHash) : Type 0 where
  pub memory_least : 8192 ≤ p.memory
  pub memory_fits : p.memory < 2 ^ 32
  pub iterations_least : 1 ≤ p.iterations
  pub iterations_fits : p.iterations < 2 ^ 32
  pub parallelism_least : 1 ≤ p.parallelism
  pub parallelism_fits : p.parallelism < 2 ^ 8
  pub salt_long : 8 ≤ length p.salt
  pub hash_long : 16 ≤ length p.hash

Usable : Result PasswordHash → Type 0
Usable (ok p) = IsUsable p
Usable (err e) = Unit

Below : ℕ → Option ℕ → Type 0
Below bits none = Unit
Below bits (some n) = n < 2 ^ bits

parse_uint-Below : (bits : ℕ) (s : String) → Below bits (Password.parse_uint bits s)
unfolding Below Password.parse_uint
parse_uint-Below bits s = elim (Option-cases (parse_digits s)) [
  | inl missing ↦ rw missing tt
  | inr (n, read) ↦ elim (Bool-cases (ltb n (2 ^ bits))) [
    | inl small ↦ rw (read, small) (ground arith)
    | inr big ↦ rw (read, big) tt
  ]
]

checked_hash-Usable :
    (m t p : Option ℕ) (salt hash : Option Bytes)
    → Below 32 m
    → Below 32 t
    → Below 8 p
    → Usable (Password.checked_hash m t p salt hash)
unfolding Below Usable Password.checked_hash
checked_hash-Usable (some m) (some t) (some p) (some salt) (some hash) hm ht hp =
    elim (Bool-cases
      (ltb m 8192 || ltb t 1 || ltb p 1 || ltb (length salt) 8 || ltb (length hash) 16)) [
        | inl bad ↦ rw bad tt
        | inr fine ↦ rw fine (record {
          memory_least = ground arith;
          memory_fits = hm;
          iterations_least = ground arith;
          iterations_fits = ht;
          parallelism_least = ground arith;
          parallelism_fits = hp;
          salt_long = ground arith;
          hash_long = ground arith;
        })
      ]
checked_hash-Usable none t p salt hash hm ht hp = tt
checked_hash-Usable (some m) none p salt hash hm ht hp = tt
checked_hash-Usable (some m) (some t) none salt hash hm ht hp = tt
checked_hash-Usable (some m) (some t) (some p) none hash hm ht hp = tt
checked_hash-Usable (some m) (some t) (some p) (some salt) none hm ht hp = tt

parse_fields-Usable :
    (salt hash : String) (params : Option (List (String × String)))
    → Usable (Password.parse_fields salt hash params)
unfolding Usable Password.parse_fields
parse_fields-Usable salt hash none = tt
parse_fields-Usable salt hash (some params) =
    checked_hash-Usable (Password.parse_uint 32 _) (Password.parse_uint 32 _)
      (Password.parse_uint 8 _) (decode_raw salt) (decode_raw hash) (parse_uint-Below 32 _)
      (parse_uint-Below 32 _) (parse_uint-Below 8 _)

parse_parts-Usable : (parts : List String) → Usable (Password.parse_parts parts)
unfolding Usable Password.parse_parts
parse_parts-Usable (a ∷ kind ∷ version ∷ params ∷ salt ∷ hash ∷ []) =
    elim (Bool-cases (not (kind =ₛ "argon2id") || not (version =ₛ "v=19"))) [
      | inl other ↦ rw other tt
      | inr same ↦ rw same (parse_fields-Usable salt hash _)
    ]
parse_parts-Usable [] = tt
parse_parts-Usable (a ∷ []) = tt
parse_parts-Usable (a ∷ b ∷ []) = tt
parse_parts-Usable (a ∷ b ∷ c ∷ []) = tt
parse_parts-Usable (a ∷ b ∷ c ∷ d ∷ []) = tt
parse_parts-Usable (a ∷ b ∷ c ∷ d ∷ e ∷ []) = tt
parse_parts-Usable (a ∷ b ∷ c ∷ d ∷ e ∷ f ∷ g ∷ rest) = tt

-- A text that is accepted as a hash has costs in the ranges of their machine types, at or above the least
-- ones, and a salt and a key of the least length, so nothing is cut off where they are converted.
pub parse-IsUsable : (text : String) (p : PasswordHash) → Password.parse text ≡ ok p → IsUsable p
unfolding Usable Password.parse
parse-IsUsable text p h = subst Usable h (parse_parts-Usable (split_on b'$' text))
