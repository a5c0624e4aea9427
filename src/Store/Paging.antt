-- ===== src/Store/Paging.antt =====
-- The order of the audit log of internal/store/store.go.
use mathlib.Core.List.{append-nil, reverse, reverse-cons}
use natbox.Prelude.{
  ℕ, suc, ◌≤◌, ◌<◌, ◌≡◌, refl, sym, ◌∙◌, Bool, List, [], ◌∷◌, ◌++◌, arith, keep, Bool-cases, inl,
  inr,
}
use natbox.Store.{AuditEvent, newest_first, insert_by_id}

-- Ids rise from `lo` on and stay below `next`.
abbrev pub Rises : ℕ → ℕ → List AuditEvent → Type 0
Rises lo next [] = lo ≤ next
Rises lo next (e ∷ es) = (lo ≤ e.id) × Rises (suc e.id) next es

-- Ids fall, below `hi`.
abbrev pub Falls : ℕ → List AuditEvent → Type 0
Falls hi [] = Unit
Falls hi (e ∷ es) = (e.id < hi) × Falls e.id es

pub append_event-Rises :
    (lo next : ℕ) (es : List AuditEvent) (e : AuditEvent)
    → Rises lo next es
    → e.id ≡ next
    → Rises lo (suc next) (es ++ e ∷ [])
append_event-Rises lo next [] e r h = ground arith
append_event-Rises lo next (x ∷ es) e r h = (r.0, append_event-Rises (suc x.id) next es e r.1 h)

Rises-le : (lo next : ℕ) (es : List AuditEvent) → Rises lo next es → lo ≤ next
Rises-le lo next [] r = r
Rises-le lo next (e ∷ es) r = omega (arith, Rises-le (suc e.id) next es r.1)

Rises-weaken :
    (lo lo' next : ℕ) (es : List AuditEvent) → lo ≤ lo' → Rises lo' next es → Rises lo next es
Rises-weaken lo lo' next [] h r = omega arith
Rises-weaken lo lo' next (e ∷ es) h r = (omega arith, r.1)

pub keep-Rises :
    (p : AuditEvent → Bool) (lo next : ℕ) (es : List AuditEvent)
    → Rises lo next es
    → Rises lo next (keep p es)
keep-Rises p lo next [] r = r
keep-Rises p lo next (e ∷ es) r =
    let rest = keep-Rises p (suc e.id) next es r.1 in
    elim (Bool-cases (p e)) [
      | inl kept ↦ rw kept (r.0, rest)
      | inr dropped ↦ rw dropped (Rises-weaken lo (suc e.id) next (keep p es) (omega arith) rest)
    ]

-- An event older than all others goes to the end.
abbrev Above : ℕ → List AuditEvent → Type 0
Above n [] = Unit
Above n (e ∷ es) = (n < e.id) × Above n es

insert_oldest :
    (e : AuditEvent) (xs : List AuditEvent) → Above e.id xs → insert_by_id e xs ≡ xs ++ e ∷ []
unfolding insert_by_id
insert_oldest e [] h = refl
insert_oldest e (x ∷ xs) h = ground (arith, insert_oldest e xs h.1)

append-Above :
    (n : ℕ) (xs : List AuditEvent) (e : AuditEvent) → Above n xs → n < e.id → Above n (xs ++ e ∷ [])
append-Above n [] e h lt = (lt, tt)
append-Above n (x ∷ xs) e h lt = (h.0, append-Above n xs e h.1 lt)

Rises-Above :
    (n lo next : ℕ) (es : List AuditEvent) → n < lo → Rises lo next es → Above n (reverse es)
Rises-Above n lo next [] h r = tt
Rises-Above n lo next (e ∷ es) h r = rw reverse-cons (
    append-Above n (reverse es) e (Rises-Above n (suc e.id) next es (omega arith) r.1)
      (omega arith))

-- So `ORDER BY id DESC` reverses the order of insertion.
pub newest_first-reverse :
    (lo next : ℕ) (es : List AuditEvent) → Rises lo next es → newest_first es ≡ reverse es
unfolding newest_first
newest_first-reverse lo next [] r = refl
newest_first-reverse lo next (e ∷ es) r = rw (newest_first-reverse (suc e.id) next es r.1) (
    insert_oldest e (reverse es) (Rises-Above e.id (suc e.id) next es (omega arith) r.1)
    ∙ sym (reverse-cons e es))

pub keep-append :
    (p : AuditEvent → Bool) (xs ys : List AuditEvent) → keep p (xs ++ ys) ≡ keep p xs ++ keep p ys
keep-append p [] ys = refl
keep-append p (x ∷ xs) ys = ground (arith, keep-append p xs ys)

pub keep-reverse :
    (p : AuditEvent → Bool) (es : List AuditEvent) → keep p (reverse es) ≡ reverse (keep p es)
keep-reverse p [] = refl
keep-reverse p (e ∷ es) = elim (Bool-cases (p e)) [
  | inl kept ↦
      rw (reverse-cons e es, keep-append p, keep-reverse p es, kept)
        (sym (reverse-cons e (keep p es)))
  | inr dropped ↦
      rw (reverse-cons e es, keep-append p, keep-reverse p es, dropped)
        (append-nil (reverse (keep p es)))
]

pub reverse-Falls :
    (lo next : ℕ) (es : List AuditEvent) → Rises lo next es → Falls next (reverse es)
reverse-Falls lo next [] r = tt
reverse-Falls lo next (e ∷ es) r = rw reverse-cons (
    append-Falls next (reverse es) e (reverse-Falls (suc e.id) next es r.1)
      (Rises-Above e.id (suc e.id) next es (omega arith) r.1)
      (omega (arith, Rises-le (suc e.id) next es r.1)))
  where
    append-Falls :
        (hi : ℕ) (xs : List AuditEvent) (e : AuditEvent)
        → Falls hi xs
        → Above e.id xs
        → e.id < hi
        → Falls hi (xs ++ e ∷ [])
    append-Falls hi [] e f a lt = (lt, tt)
    append-Falls hi (x ∷ xs) e f a lt = (f.0, append-Falls x.id xs e f.1 a.1 a.0)
