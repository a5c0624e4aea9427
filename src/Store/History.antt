-- ===== src/Store/History.antt =====
-- internal/store/store.go: what a use of its methods does to the database, as the history of the calls.
use mathlib.Core.List.{append-nil, append_assoc}
use natbox.Prelude.{
  ◌≡◌, refl, sym, ◌∙◌, ap, ℕ, String, List, [], ◌++◌, arith, ℤ, inl, inr, Option-cases, Result, ok,
  err,
}
use natbox.Prelude.Follows.{Follows}
use natbox.Store.{
  ManagedContainer, AuditEvent, Backup, Db, later_faults, next_fault, upsert_container,
  set_desired_state, update_policy, delete_container, restore, audit, list_containers, list_audit,
  export, affected,
}
use natbox.Store.Restoring.{Restores, restore_all_or_nothing}
use natbox.Store.Calls.{
  Call, upserts, sets_state, deletes, sets_policy, restores, audits, perform, IsSound,
  perform-IsSound,
}

-- The second database comes from the first one by calls; one that reads only meets the driver.
pub data Reaches (d : Db) : Db → Type 0 where
  here : Reaches d d
  writes : {e : Db} → Reaches d e → (c : Call) → Reaches d (perform c e)
  reads : {e : Db} → Reaches d e → Reaches d (record e { faults = later_faults e.faults })

pub Reaches-trans : {d e f : Db} → Reaches d e → Reaches e f → Reaches d f
Reaches-trans r here = r
Reaches-trans r (writes q c) = writes (Reaches-trans r q) c
Reaches-trans r (reads q) = reads (Reaches-trans r q)

pub upsert_container-Reaches :
    (now : String) (c : ManagedContainer) → Follows Reaches (upsert_container now c)
unfolding perform
upsert_container-Reaches now c = record { at = λ db. writes here (upserts now c) }

pub set_desired_state-Reaches :
    (now name state : String) → Follows Reaches (set_desired_state now name state)
unfolding perform
set_desired_state-Reaches now name state = record {
  at = λ db. writes here (sets_state now name state);
}

pub delete_container-Reaches : (name : String) → Follows Reaches (delete_container name)
unfolding perform
delete_container-Reaches name = record { at = λ db. writes here (deletes name) }

pub update_policy-Reaches :
    (now name : String) (quota rx tx : ℤ) (reset_at expires_at : String)
    → Follows Reaches (update_policy now name quota rx tx reset_at expires_at)
unfolding perform
update_policy-Reaches now name quota rx tx reset_at expires_at = record {
  at = λ db. writes here (sets_policy now name quota rx tx reset_at expires_at);
}

pub restore-Reaches :
    (clock : ℕ → String) (backup : Backup) → Follows Reaches (restore clock backup)
unfolding perform
restore-Reaches clock backup = record { at = λ db. writes here (restores clock backup) }

pub audit-Reaches : (now : String) (event : AuditEvent) → Follows Reaches (audit now event)
unfolding perform
audit-Reaches now event = record { at = λ db. writes here (audits now event) }

pub list_containers-Reaches : Follows Reaches list_containers
unfolding list_containers
list_containers-Reaches = record {
  at = λ db. elim (Option-cases (next_fault db.faults)) [
    | inl passed ↦ rw passed (reads here)
    | inr (text, refused) ↦ rw refused (reads here)
  ];
}

pub list_audit-Reaches : (limit before : ℤ) → Follows Reaches (list_audit limit before)
unfolding list_audit
list_audit-Reaches limit before = record {
  at = λ db. elim (Option-cases (next_fault db.faults)) [
    | inl passed ↦ rw passed (reads here)
    | inr (text, refused) ↦ rw refused (reads here)
  ];
}

pub export-Reaches : (now : String) → Follows Reaches (export now)
unfolding export list_containers
export-Reaches now = record {
  at = λ db. elim (Option-cases (next_fault db.faults)) [
    | inl passed ↦ rw passed (reads here)
    | inr (text, refused) ↦ rw refused (reads here)
  ];
}

pub Reaches-IsSound : {d e : Db} → Reaches d e → IsSound d → IsSound e
Reaches-IsSound here s = s
Reaches-IsSound (writes {e} r c) s = perform-IsSound c e (Reaches-IsSound r s)
Reaches-IsSound (reads r) s =
    let before = Reaches-IsSound r s in record { keyed = before.keyed; numbered = before.numbered }

-- The audit log of `e` is that of `d` with events behind it.
abbrev pub Extends : Db → Db → Type 0
Extends d e = (more : List AuditEvent) × (e.audit_events ≡ d.audit_events ++ more)

same-Extends : (d e : Db) → e.audit_events ≡ d.audit_events → Extends d e
same-Extends d e same = ([], same ∙ sym (append-nil d.audit_events))

Extends-trans : (d e f : Db) → Extends d e → Extends e f → Extends d f
Extends-trans d e f (xs, p) (ys, q) =
    (xs ++ ys, q ∙ ap (λ l. l ++ ys) p ∙ append_assoc d.audit_events xs ys)

Restores-log :
    (clock : ℕ → String) (backup : Backup) (db : Db) (out : Result (Unit {0}) × Db)
    → Restores clock backup db out
    → out.1.audit_events ≡ db.audit_events
Restores-log clock backup db (ok u, after) r = r.4
Restores-log clock backup db (err e, after) r = r.1

audit-Extends : (now : String) (event : AuditEvent) (db : Db) → Extends db (audit now event db).1
unfolding audit
audit-Extends now event db = elim (Option-cases (next_fault db.faults)) [
  | inl passed ↦ rw passed (_, refl)
  | inr (text, refused) ↦ rw refused (same-Extends db db refl)
]

perform-Extends : (c : Call) (db : Db) → Extends db (perform c db)
unfolding perform upsert_container set_desired_state affected delete_container update_policy
perform-Extends (upserts now c) db = same-Extends db (perform (upserts now c) db) (ground arith)
perform-Extends (sets_state now name state) db =
    same-Extends db (perform (sets_state now name state) db) (ground arith)
perform-Extends (deletes name) db = same-Extends db (perform (deletes name) db) (ground arith)
perform-Extends (sets_policy now name quota rx tx reset_at expires_at) db =
    same-Extends db (perform (sets_policy now name quota rx tx reset_at expires_at) db)
      (ground arith)
perform-Extends (restores clock backup) db =
    same-Extends db (perform (restores clock backup) db)
      (Restores-log clock backup db _ (restore_all_or_nothing clock backup db))
perform-Extends (audits now event) db = audit-Extends now event db

pub Reaches-Extends : {d e : Db} → Reaches d e → Extends d e
Reaches-Extends {d} here = same-Extends d d refl
Reaches-Extends {d} (writes {e} r c) =
    Extends-trans d e (perform c e) (Reaches-Extends r) (perform-Extends c e)
Reaches-Extends {d} (reads {e} r) = Reaches-Extends r
