-- ===== src/Store/Schema/Widening.antt =====
-- internal/store/store.go: database files of which one has all that the other has.
use natbox.Prelude.{
  ℕ, ◌≡◌, refl, sym, ap, ◌∙◌, String, Option, none, some, List, [], ◌∷◌, ◌++◌, map, All,
}
use mathlib.Core.Path.{subst}
use mathlib.Core.List.{append-nil, append_assoc, Memᴰ}
use natbox.Store.Schema.{Value, Row, Table, Schema, or_new, policy_columns, widened}

-- The second list has values behind the first one's.
abbrev pub Begins {ℓ} : {A : Type ℓ} → List A → List A → Type ℓ
Begins {A} xs ys = (more : List A) × (ys ≡ xs ++ more)

Begins-refl : {A : Type 0} (xs : List A) → Begins xs xs
Begins-refl xs = ([], sym (append-nil xs))

Begins-trans : {A : Type 0} (xs ys zs : List A) → Begins xs ys → Begins ys zs → Begins xs zs
Begins-trans xs ys zs (m, p) (n, q) = (m ++ n, q ∙ ap (λ l. l ++ n) p ∙ append_assoc xs m n)

-- A column of the policies, with its default.
abbrev pub IsPolicyColumn : String × Value → Type 0
IsPolicyColumn column = Memᴰ column policy_columns

-- The second table has the first one's columns with some of the policies' behind them, and its rows in their
-- order, each with its values and the defaults of just these columns behind them.
pub record Widens (t u : Table) : Type 0 where
  pub added : List (String × Value)
  pub policies : All IsPolicyColumn added
  pub columns : u.columns ≡ t.columns ++ map (λ (column : String × Value). column.0) added
  pub rows : u.rows ≡ map (λ row. row ++ added) t.rows

map-nothing : (rows : List Row) → map (λ row. row ++ []) rows ≡ rows
map-nothing [] = refl
map-nothing (row ∷ rows) = rw (append-nil row, map-nothing rows) refl

map-appended :
    (xs ys : Row) (rows : List Row)
    → map (λ row. row ++ ys) (map (λ row. row ++ xs) rows) ≡ map (λ row. row ++ (xs ++ ys)) rows
map-appended xs ys [] = refl
map-appended xs ys (row ∷ rows) = rw (append_assoc row xs ys, map-appended xs ys rows) refl

names-append :
    (xs ys : List (String × Value))
    → map (λ (column : String × Value). column.0) (xs ++ ys)
      ≡ map (λ (column : String × Value). column.0) xs
        ++ map (λ (column : String × Value). column.0) ys
names-append [] ys = refl
names-append (x ∷ xs) ys = rw (names-append xs ys) refl

All-append :
    (xs ys : List (String × Value))
    → All IsPolicyColumn xs
    → All IsPolicyColumn ys
    → All IsPolicyColumn (xs ++ ys)
All-append [] ys h k = k
All-append (x ∷ xs) ys h k = (h.0, All-append xs ys h.1 k)

Widens-refl : (t : Table) → Widens t t
Widens-refl t = record {
  added = [];
  policies = tt;
  columns = sym (append-nil t.columns);
  rows = sym (map-nothing t.rows);
}

Widens-trans : (t u v : Table) → Widens t u → Widens u v → Widens t v
Widens-trans t u v w x = record {
  added = w.added ++ x.added;
  policies = All-append w.added x.added w.policies x.policies;
  columns =
      x.columns
      ∙ rw w.columns (
          append_assoc t.columns _ _
          ∙ ap (λ l. t.columns ++ l) (sym (names-append w.added x.added)));
  rows = x.rows ∙ rw w.rows (map-appended w.added x.added t.rows);
}

pub widened-Widens :
    (column : String × Value) (t : Table) → IsPolicyColumn column → Widens t (widened column t)
widened-Widens column t h = record {
  added = column ∷ [];
  policies = (h, tt);
  columns = refl;
  rows = refl;
}

-- A table of containers that was there is widened at most.
abbrev pub KeepsTable : Option Table → Option Table → Type 0
KeepsTable none after = Unit
KeepsTable (some t) none = ⊥
KeepsTable (some t) (some u) = Widens t u

pub KeepsTable-refl : (o : Option Table) → KeepsTable o o
KeepsTable-refl none = tt
KeepsTable-refl (some t) = Widens-refl t

KeepsTable-trans : (a b c : Option Table) → KeepsTable a b → KeepsTable b c → KeepsTable a c
KeepsTable-trans none b c k l = tt
KeepsTable-trans (some t) none c k l = elim k [ ]
KeepsTable-trans (some t) (some u) none k l = elim l [ ]
KeepsTable-trans (some t) (some u) (some v) k l = Widens-trans t u v k l

pub KeepsTable-or_new : (new : Table) (o : Option Table) → KeepsTable o (or_new new o)
KeepsTable-or_new new none = tt
KeepsTable-or_new new (some t) = Widens-refl t

-- A table of audit events that was there is as it was.
abbrev pub KeepsEvents : Option Table → Option Table → Type 0
KeepsEvents none after = Unit
KeepsEvents (some t) after = after ≡ some t

pub KeepsEvents-refl : (o : Option Table) → KeepsEvents o o
KeepsEvents-refl none = tt
KeepsEvents-refl (some t) = refl

KeepsEvents-trans : (a b c : Option Table) → KeepsEvents a b → KeepsEvents b c → KeepsEvents a c
KeepsEvents-trans none b c k l = tt
KeepsEvents-trans (some t) b c k l = subst (λ o. KeepsEvents o c) k l

pub KeepsEvents-or_new : (new : Table) (o : Option Table) → KeepsEvents o (or_new new o)
KeepsEvents-or_new new none = tt
KeepsEvents-or_new new (some t) = refl

abbrev pub KeepsVersions : Option (List (ℕ × String)) → Option (List (ℕ × String)) → Type 0
KeepsVersions none after = Unit
KeepsVersions (some v) none = ⊥
KeepsVersions (some v) (some w) = Begins v w

pub KeepsVersions-refl : (o : Option (List (ℕ × String))) → KeepsVersions o o
KeepsVersions-refl none = tt
KeepsVersions-refl (some v) = Begins-refl v

pub KeepsVersions-or_new : (o : Option (List (ℕ × String))) → KeepsVersions o (or_new [] o)
KeepsVersions-or_new none = tt
KeepsVersions-or_new (some v) = Begins-refl v

KeepsVersions-trans :
    (a b c : Option (List (ℕ × String))) → KeepsVersions a b → KeepsVersions b c → KeepsVersions a c
KeepsVersions-trans none b c k l = tt
KeepsVersions-trans (some t) none c k l = elim k [ ]
KeepsVersions-trans (some t) (some u) none k l = elim l [ ]
KeepsVersions-trans (some t) (some u) (some v) k l = Begins-trans t u v k l

-- Nothing that was in the file is lost or changed.
abbrev pub Keeps : Schema → Schema → Type 0
Keeps s t =
    KeepsTable s.managed_containers t.managed_containers
    × KeepsEvents s.audit_events t.audit_events
    × KeepsVersions s.migrations t.migrations

pub Keeps-here : (s : Schema) → Keeps s s
Keeps-here s = (
  KeepsTable-refl s.managed_containers,
  KeepsEvents-refl s.audit_events,
  KeepsVersions-refl s.migrations,
)

pub Keeps-trans : (s t u : Schema) → Keeps s t → Keeps t u → Keeps s u
Keeps-trans s t u k l = (
  KeepsTable-trans s.managed_containers t.managed_containers u.managed_containers k.0 l.0,
  KeepsEvents-trans s.audit_events t.audit_events u.audit_events k.1 l.1,
  KeepsVersions-trans s.migrations t.migrations u.migrations k.2 l.2,
)
