-- ===== src/Store/Pages.antt =====
-- ListAudit of internal/store/store.go, called page after page.
use mathlib.Core.List.{reverse, reverse-cons}
use natbox.Prelude.{
  ℕ, zero, suc, ◌≤◌, ◌<◌, ◌≡◌, refl, sym, ap, ◌∙◌, Bool, List, [], ◌∷◌, ◌++◌, arith, ltb, ℤ, pos,
  negsuc, ok, err, Result, keep, take, drop, length, if◌then◌else◌, Bool-cases, inl, inr,
  take-append-drop, length-append, All,
}
use natbox.Store.{AuditEvent, Db, list_audit, page_size, before_id}
use natbox.Store.Paging.{
  Rises, Falls, keep-Rises, newest_first-reverse, keep-reverse, reverse-Falls,
}

-- The id that a client passes on as `beforeId`: that of the last event of its page.
abbrev pub last_id : AuditEvent → List AuditEvent → ℕ
last_id e [] = e.id
last_id e (x ∷ xs) = last_id x xs

abbrev pub page_events : Result (List AuditEvent) → List AuditEvent
page_events (ok es) = es
page_events (err e) = []

-- A client that asks for page after page until one is empty.
pub walk : ℕ → ℤ → ℤ → Db → List AuditEvent
walk zero limit before db = []
walk (suc f) limit before db = elim (page_events (list_audit limit before db).0) [
  | [] ↦ []
  | e ∷ es ↦ e ∷ (es ++ walk f limit (pos (last_id e es)) db)
]

abbrev below : ℕ → AuditEvent → Bool
below n e = ltb e.id n

keep-below_all : (hi n : ℕ) (es : List AuditEvent) → hi ≤ n → Falls hi es → keep (below n) es ≡ es
keep-below_all hi n [] h f = refl
keep-below_all hi n (e ∷ es) h f = ground (arith, keep-below_all e.id n es)

keep-below_below :
    (l b : ℕ) (es : List AuditEvent)
    → l ≤ b
    → keep (below l) (keep (below b) es) ≡ keep (below l) es
keep-below_below l b [] h = refl
keep-below_below l b (e ∷ es) h = ground (arith, keep-below_below l b es h)

Falls-weaken : (lo hi : ℕ) (es : List AuditEvent) → lo ≤ hi → Falls lo es → Falls hi es
Falls-weaken lo hi [] h f = tt
Falls-weaken lo hi (e ∷ es) h f = (omega arith, f.1)

keep-below-Falls : (n hi : ℕ) (es : List AuditEvent) → Falls hi es → Falls n (keep (below n) es)
keep-below-Falls n hi [] f = tt
keep-below-Falls n hi (e ∷ es) f = elim (Bool-cases (below n e)) [
  | inl under ↦ rw under (ground arith, rw (keep-below_all e.id n es (ground arith) f.1) f.1)
  | inr over ↦ rw over (keep-below-Falls n e.id es f.1)
]

last_id-le :
    (hi : ℕ) (e : AuditEvent) (k : ℕ) (es : List AuditEvent)
    → Falls hi (e ∷ es)
    → last_id e (take k es) < hi
last_id-le hi e zero es f = f.0
last_id-le hi e (suc k) [] f = f.0
last_id-le hi e (suc k) (x ∷ es) f = omega (arith, last_id-le e.id x k es f.1)

-- What lies below the last event of a page is what the page left.
rest_of_page :
    (hi : ℕ) (e : AuditEvent) (k : ℕ) (es : List AuditEvent)
    → Falls hi (e ∷ es)
    → keep (below (last_id e (take k es))) (e ∷ es) ≡ drop k es
rest_of_page hi e zero es f = ground (arith, keep-below_all e.id e.id es)
rest_of_page hi e (suc k) [] f = ground arith
rest_of_page hi e (suc k) (x ∷ es) f =
    ground (arith, last_id-le e.id x k es f.1, rest_of_page e.id x k es f.1)

abbrev Positive : List AuditEvent → Type 0
Positive = All (λ e. 1 ≤ e.id)

last_id-pos :
    (e : AuditEvent) (k : ℕ) (es : List AuditEvent) → Positive (e ∷ es) → 1 ≤ last_id e (take k es)
last_id-pos e zero es h = h.0
last_id-pos e (suc k) [] h = h.0
last_id-pos e (suc k) (x ∷ es) h = last_id-pos x k es h.1

keep-Positive : (p : AuditEvent → Bool) (es : List AuditEvent) → Positive es → Positive (keep p es)
keep-Positive p [] h = tt
keep-Positive p (e ∷ es) h = ground (arith, keep-Positive p es h.1)

Rises-Positive : (lo next : ℕ) (es : List AuditEvent) → 1 ≤ lo → Rises lo next es → Positive es
Rises-Positive lo next [] h r = tt
Rises-Positive lo next (e ∷ es) h r =
    (omega arith, Rises-Positive (suc e.id) next es (omega arith) r.1)

append-Positive : (xs ys : List AuditEvent) → Positive xs → Positive ys → Positive (xs ++ ys)
append-Positive [] ys h k = k
append-Positive (x ∷ xs) ys h k = (h.0, append-Positive xs ys h.1 k)

reverse-Positive : (es : List AuditEvent) → Positive es → Positive (reverse es)
reverse-Positive [] h = tt
reverse-Positive (e ∷ es) h =
    rw reverse-cons (append-Positive (reverse es) (e ∷ []) (reverse-Positive es h.1) (h.0, tt))

page_size-pos : (limit : ℤ) → (k : ℕ) × (page_size limit ≡ suc k)
unfolding page_size
page_size-pos (pos zero) = (49, ground arith)
page_size-pos (pos (suc n)) = (if ltb 200 (suc n) then 199 else n, ground arith)
page_size-pos (negsuc n) = (49, ground arith)

before_id-below : (n : ℕ) → 1 ≤ n → before_id (pos n) ≡ below n
before_id-below zero h = absurd (omega arith)
before_id-below (suc n) h = refl

length-drop-le : (k : ℕ) (es : List AuditEvent) → length (drop k es) ≤ length es
length-drop-le zero es = omega arith
length-drop-le (suc k) [] = omega arith
length-drop-le (suc k) (e ∷ es) = omega (arith, length-drop-le k es)

length-reverse : (es : List AuditEvent) → length (reverse es) ≡ length es
length-reverse [] = refl
length-reverse (e ∷ es) =
    rw (reverse-cons e es, length-append (reverse es) (e ∷ [])) (omega (arith, length-reverse es))

keep_all : (es : List AuditEvent) → keep (before_id (pos 0)) es ≡ es
keep_all [] = refl
keep_all (e ∷ es) = ap (λ rest. e ∷ rest) (keep_all es)

module _ (limit : ℤ) (db : Db) (quiet : db.faults ≡ [])
    (rises : Rises 1 db.next_id db.audit_events) where
  abbrev log : List AuditEvent
  log = reverse db.audit_events

  -- A page is the newest part of what lies before the given id.
  page_lem :
      (before : ℤ)
      → page_events (list_audit limit before db).0
        ≡ take (page_size limit) (keep (before_id before) log)
  unfolding list_audit
  page_lem before =
      rw
        (
          quiet,
          newest_first-reverse 1 db.next_id (keep (before_id before) db.audit_events)
              (keep-Rises (before_id before) 1 db.next_id db.audit_events rises),
        )
        (rw (keep-reverse (before_id before) db.audit_events) refl)

  -- What is below the last event of a page that starts at `e`, in the whole log.
  next_page :
      (b k : ℕ) (e : AuditEvent) (es : List AuditEvent)
      → keep (below b) log ≡ e ∷ es
      → (keep (below (last_id e (take k es))) log ≡ drop k es)
        × (keep (before_id (pos (last_id e (take k es)))) log ≡ drop k es)
  next_page b k e es under =
      let falls : Falls b (e ∷ es) =
        rw under at
          (keep-below-Falls b db.next_id log (reverse-Falls 1 db.next_id db.audit_events rises)) in
      let positive : Positive (e ∷ es) = rw under at (
        keep-Positive (below b) log (
          reverse-Positive db.audit_events
            (Rises-Positive 1 db.next_id db.audit_events (omega arith) rises))) in
      let l = last_id e (take k es) in
      let rest : keep (below l) log ≡ drop k es =
        sym (keep-below_below l b log (omega (arith, last_id-le b e k es falls)))
        ∙ ap (keep (below l)) under
        ∙ rest_of_page b e k es falls in
      (rest, rw (before_id-below l (last_id-pos e k es positive)) rest)

  walk_from :
      (f b : ℕ) (before : ℤ) (rest : List AuditEvent)
      → keep (before_id before) log ≡ rest
      → keep (below b) log ≡ rest
      → length rest < f
      → walk f limit before db ≡ rest
  unfolding walk
  walk_from zero b before rest this under fuel = absurd (omega arith)
  walk_from (suc f) b before [] this under fuel =
      let (k, sized) = page_size-pos limit in rw (page_lem before, this, sized, walk)
  walk_from (suc f) b before (e ∷ es) this under fuel =
      let (k, sized) = page_size-pos limit in
      let (below_last, before_last) = next_page b k e es under in
      rw (page_lem before, this, sized, walk)
        (rw
          (walk_from f (last_id e (take k es)) (pos (last_id e (take k es))) (drop k es) before_last
            below_last (omega (arith, length-drop-le k es)))
          (ap (λ rest. e ∷ rest) (take-append-drop k es)))

  -- However small or large the page size asked for, a client that pages through a log whose ids rise
  -- until a page is empty sees every event once, newest first, if the driver refuses nothing and
  -- nothing is added meanwhile.
  pub walk_all : walk (suc (length db.audit_events)) limit (pos 0) db ≡ reverse db.audit_events
  walk_all =
      let falls = reverse-Falls 1 db.next_id db.audit_events rises in
      walk_from (suc (length db.audit_events)) db.next_id (pos 0) log (keep_all log)
        (keep-below_all db.next_id db.next_id log (omega arith) falls)
        (omega (arith, length-reverse db.audit_events))
