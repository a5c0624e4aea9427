-- ===== src/Auth/Sessions/Racing.antt =====
-- admin_auth.go: the limit on failed attempts from one address, where logins run at the same time. The
-- mutex is not held while the password is checked, so a login is let in before the ones that are under way
-- have counted their failures.
use natbox.Prelude.{
  ℕ, zero, suc, ◌+◌, ◌≤◌, ◌≡◌, refl, sym, Bool, false, String, Option, none, some, List, [], ◌∷◌,
  arith, ◌⊎◌, eq_refl, ltb, if◌then◌else◌, lookup, inl, inr, All, Option-cases,
}
use mathlib.Core.Path.{subst}
use natbox.Auth.Compare.{Bytes}
use natbox.Auth.Sessions.{
  AdminAuth, LoginFailure, allow_attempt, entered, finished, failed, accepted, failure_window,
}

-- What the requests to log in do from one address, in the order in which it happens: one is let in or
-- refused, or one of those under way has its password checked and takes its last steps.
pub data LoginEvent : Type 0 where
  enters : ℕ → LoginEvent
  finishes : ℕ → Option String → String → Bytes → LoginEvent

abbrev pub larger : ℕ → ℕ → ℕ
larger m n = if ltb m n then n else m

module _ (verify : String → String → Bool) (ip : String) where
  -- The number of logins that are let in, so that their passwords are looked at, with `n` under way.
  unfoldable pub let_in : ℕ → List LoginEvent → AdminAuth → ℕ
  let_in n [] a = 0
  let_in n (enters now ∷ es) a = elim (entered now ip a) [
    | some refusal ↦ let_in n es a
    | none ↦ suc (let_in (suc n) es a)
  ]
  let_in zero (finishes now password session_id csrf ∷ es) a = let_in zero es a
  let_in (suc n) (finishes now password session_id csrf ∷ es) a =
      let_in n es (finished verify now ip password session_id csrf a).1

  -- The largest number of logins that are under way at once.
  unfoldable pub at_once : ℕ → List LoginEvent → AdminAuth → ℕ
  at_once n [] a = n
  at_once n (enters now ∷ es) a = elim (entered now ip a) [
    | some refusal ↦ at_once n es a
    | none ↦ at_once (suc n) es a
  ]
  at_once zero (finishes now password session_id csrf ∷ es) a = at_once zero es a
  at_once (suc n) (finishes now password session_id csrf ∷ es) a =
      larger (suc n) (at_once n es (finished verify now ip password session_id csrf a).1)

  -- Every password is wrong, and all happens from `start` on until the window that opens then ends.
  abbrev pub IsGuess : String → ℕ → LoginEvent → Type 0
  IsGuess hash start (enters now) = (start ≤ now) × (now ≤ start + failure_window)
  IsGuess hash start (finishes now password session_id csrf) =
      (accepted verify hash password ≡ false) × (start ≤ now) × (now ≤ start + failure_window)

  -- The failures on record are `count`, in a window that outlasts the one from `start`.
  abbrev Counts : ℕ → ℕ → Option LoginFailure → Type 0
  Counts start count none = count ≡ 0
  Counts start count (some item) = (item.count ≡ count) × (start + failure_window ≤ item.reset_at)

  at_once-least : (n : ℕ) (es : List LoginEvent) (a : AdminAuth) → n ≤ at_once n es a
  unfolding at_once
  at_once-least n [] a = omega arith
  at_once-least n (enters now ∷ es) a = elim (Option-cases (entered now ip a)) [
    | inl free ↦ rw (at_once, free) (omega (arith, at_once-least (suc n) es a))
    | inr (reply, refused) ↦ rw (at_once, refused) (at_once-least n es a)
  ]
  at_once-least zero (finishes now password session_id csrf ∷ es) a = omega arith
  at_once-least (suc n) (finishes now password session_id csrf ∷ es) a = ground arith

  entered_below :
      (start count now : ℕ) (a : AdminAuth)
      → Counts start count (lookup ip a.failures)
      → now ≤ start + failure_window
      → entered now ip a ≡ none
      → count ≤ 4
  unfolding entered allow_attempt
  entered_below start count now a c early free = by_record (lookup ip a.failures) refl c
    where
      by_record :
          (o : Option LoginFailure) → lookup ip a.failures ≡ o → Counts start count o → count ≤ 4
      by_record none e c = ground arith
      by_record (some item) e c = ground (arith, e, c.0, c.1, free)

  finished-Counts :
      (start count now : ℕ) (password : Option String) (session_id : String) (csrf : Bytes)
      (a : AdminAuth)
      → 1 ≤ start
      → Counts start count (lookup ip a.failures)
      → accepted verify a.hash password ≡ false
      → start ≤ now
      → now ≤ start + failure_window
      → Counts start
          (suc count)
          (lookup ip (finished verify now ip password session_id csrf a).1.failures)
        × ((finished verify now ip password session_id csrf a).1.hash ≡ a.hash)
  unfolding finished failed lookup
  finished-Counts start count now password session_id csrf a positive c wrong late early =
      by_record (lookup ip a.failures) refl c
    where
      by_record :
          (o : Option LoginFailure)
          → lookup ip a.failures ≡ o
          → Counts start count o
          → Counts start
              (suc count)
              (lookup ip (finished verify now ip password session_id csrf a).1.failures)
            × ((finished verify now ip password session_id csrf a).1.hash ≡ a.hash)
      by_record none e c =
          rw (finished, wrong, failed, lookup, eq_refl ip, e) (ground (arith, c), refl)
      by_record (some item) e c =
          rw (finished, wrong, failed, lookup, eq_refl ip, e) (ground (arith, c.0, c.1), refl)

  -- Either no more are let in, or those that are counted, under way and still let in are bounded.
  Bounded : ℕ → ℕ → List LoginEvent → AdminAuth → Type 0
  Bounded count n es a = (let_in n es a ≡ 0) ⊎ (count + n + let_in n es a ≤ 4 + at_once n es a)

  let_in-Bounded :
      (start count n : ℕ) (es : List LoginEvent) (a : AdminAuth)
      → 1 ≤ start
      → Counts start count (lookup ip a.failures)
      → All (IsGuess a.hash start) es
      → Bounded count n es a
  unfolding Bounded let_in at_once
  let_in-Bounded start count n [] a positive c wrong = inl refl
  let_in-Bounded start count n (enters now ∷ es) a positive c wrong =
      elim (Option-cases (entered now ip a)) [
        | inr (reply, refused) ↦
            rw (let_in, at_once, refused) (let_in-Bounded start count n es a positive c wrong.1)
        | inl free ↦
            let below = entered_below start count now a c wrong.0.1 free in
            let least = at_once-least (suc n) es a in
            rw (let_in, at_once, free)
              (elim (let_in-Bounded start count (suc n) es a positive c wrong.1) [
                | inl last ↦ inr (ground (arith, last, below, least))
                | inr more ↦ inr (ground (arith, more))
              ])
      ]
  let_in-Bounded start count zero (finishes now password session_id csrf ∷ es) a positive c wrong =
      let_in-Bounded start count zero es a positive c wrong.1
  let_in-Bounded start count (suc n) (finishes now password session_id csrf ∷ es) a positive c
        wrong =
      let after = (finished verify now ip password session_id csrf a).1 in
      let (counts, same) =
        finished-Counts start count now password session_id csrf a positive c wrong.0.0 wrong.0.1
          wrong.0.2 in
      elim (let_in-Bounded start (suc count) n es after positive counts
        (subst (λ hash. All (IsGuess hash start) es) (sym same) wrong.1)) [
          | inl last ↦ inl last
          | inr more ↦ inr (ground (arith, more))
        ]

  -- From an address with no failures on record, of logins with wrong passwords inside one window of five
  -- minutes that begins behind Go's zero time, in whatever order their steps interleave, those that are
  -- let in to have their password looked at are at most four more than were under way at once.
  pub let_in-at_once :
      (start : ℕ) (es : List LoginEvent) (a : AdminAuth)
      → 1 ≤ start
      → lookup ip a.failures ≡ none
      → All (IsGuess a.hash start) es
      → let_in 0 es a ≤ 4 + at_once 0 es a
  unfolding Bounded
  let_in-at_once start es a positive fresh wrong =
      elim (let_in-Bounded start 0 0 es a positive (rw fresh refl) wrong) [
        | inl last ↦ omega (arith, last)
        | inr more ↦ omega (arith, more)
      ]
