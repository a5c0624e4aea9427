-- ===== src/Store/Schema/Migrating.antt =====
-- internal/store/store.go: the migration, step by step.
use natbox.Prelude.{
  Bool, true, false, ◌≡◌, refl, ap, ◌∙◌, String, Option, none, some, List, [], Exec, if◌then◌else◌,
  pure, arith,
}
use natbox.Store.Schema.{
  Table, Schema, statement, wrapping, statements, run_statements, create_index, create_versions,
  create_containers, create_events, indexable, or_new,
}
use natbox.Store.Schema.Running.{IsUsable, Runs, then-Runs, Does, wrapped-Runs, statement-Runs}

abbrev pub is_some {ℓ} : {A : Type ℓ} → Option A → Bool
is_some none = false
is_some (some a) = true

-- What the statements of migrate have made.
abbrev Versions : Schema → Type 0
Versions s = (is_some s.migrations ≡ true) × IsUsable s

abbrev Containers : Schema → Type 0
Containers s = (is_some s.managed_containers ≡ true) × (is_some s.migrations ≡ true) × IsUsable s

abbrev Events : Schema → Type 0
Events s =
    (is_some s.audit_events ≡ true)
    × (is_some s.managed_containers ≡ true)
    × (is_some s.migrations ≡ true)
    × IsUsable s

abbrev pub Indexed : Schema → Type 0
Indexed s =
    (s.indexed ≡ true)
    × (is_some s.audit_events ≡ true)
    × (is_some s.managed_containers ≡ true)
    × (is_some s.migrations ≡ true)
    × IsUsable s

pub if_intro :
    {A : Type 0} (P : A → Type 0) (b : Bool) (x y : A)
    → (b ≡ true → P x)
    → (b ≡ false → P y)
    → P (if b then x else y)
if_intro P true x y h k = h refl
if_intro P false x y h k = k refl

is_some-or_new : {A : Type 0} (new : A) (o : Option A) → is_some (or_new new o) ≡ true
is_some-or_new new none = refl
is_some-or_new new (some a) = refl

or_new-twice : {A : Type 0} (new : A) (o : Option A) → or_new new (or_new new o) ≡ or_new new o
or_new-twice new none = refl
or_new-twice new (some a) = refl

indexable-or_new :
    (new : Table) (o : Option Table)
    → indexable (or_new new o) ≡ true
    → is_some o ≡ true
    → indexable o ≡ true
indexable-or_new new none h k = ground arith
indexable-or_new new (some t) h k = h

create_index-Does : (s : Schema) → Events s → Does (λ _. Indexed) s (create_index s)
create_index-Does s h =
    if_intro (Does (λ _. Indexed) s) s.indexed _ _ (λ there. ((there, h.0, h.1, h.2, h.3), refl))
      λ new.
        if_intro (Does (λ _. Indexed) s) (indexable s.audit_events) _ _
          (λ fits. ((refl, h.0, h.1, h.2, h.3), refl))
          λ misses. cc (misses, indexable-or_new _ s.audit_events (h.3) (h.0))

pub run_statements-Runs : Runs IsUsable (λ _. Indexed) (run_statements statements)
unfolding run_statements
run_statements-Runs =
    then-Runs (λ _. IsUsable) _ _ pragma
      λ _.
        then-Runs (λ _. IsUsable) _ _ pragma
          λ _.
            then-Runs (λ _. IsUsable) _ _ pragma
              λ _.
                then-Runs (λ _. Versions) _ _
                  (step IsUsable Versions create_versions (λ s h. h) (λ s fs h. h)
                    λ s h. ((is_some-or_new [] s.migrations, h), refl))
                  λ _.
                    then-Runs (λ _. Containers) _ _
                      (step Versions Containers create_containers (λ s h. h.1) (λ s fs h. h)
                        λ s h. ((is_some-or_new _ s.managed_containers, h.0, h.1), refl))
                      λ _.
                        then-Runs (λ _. Events) _ _
                          (step Containers Events create_events (λ s h. h.2) (λ s fs h. h)
                            λ s h. (
                              (
                                is_some-or_new _ s.audit_events,
                                h.0,
                                h.1,
                                ap indexable (or_new-twice _ s.audit_events) ∙ h.2,
                              ),
                              refl,
                            ))
                          λ _.
                            then-Runs (λ _. Indexed) _ _
                              (step Events Indexed create_index (λ s h. h.3) (λ s fs h. h)
                                create_index-Does)
                              λ _. record { at = λ s h. (h, λ e. e) }
  where
    step :
        (P Q : Schema → Type 0) (body : Exec Schema (Unit {0}))
        → ((s : Schema) → P s → IsUsable s)
        → ((s : Schema) (fs : List (Option String)) → P s → P (record s { faults = fs }))
        → ((s : Schema) → P s → Does (λ _. Q) s (body s))
        → Runs P (λ _. Q) (wrapping "database migration: " (statement body))
    step P Q body usable shifts does =
        wrapped-Runs "database migration: " _ (statement-Runs P (λ _. Q) body usable shifts does)

    pragma : Runs IsUsable (λ _. IsUsable) (wrapping "database migration: " (statement (pure tt)))
    pragma = step IsUsable IsUsable (pure tt) (λ s h. h) (λ s fs h. h) λ s h. (h, refl)
