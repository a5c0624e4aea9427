-- ===== src/Store/Calls.antt =====
-- The writing methods of internal/store/store.go, as histories of calls from an empty database.
use natbox.Prelude.{
  ℕ, Bool, true, false, ◌≡◌, refl, String, Option, List, [], ◌∷◌, arith, ℤ, pos, Bool-cases,
  Option-cases, inl, inr, ok, err, Result, ◌=ₛ◌, ◌||◌, ◌&&◌, not, ltb_ℤ, trim_space,
}
use natbox.Store.{
  ManagedContainer, AuditEvent, Backup, Db, upsert_container, set_desired_state, update_policy,
  delete_container, restore, audit, next_fault, affected,
}
use natbox.Store.Keys.{IsKeyed, upsert_row-IsKeyed, update_rows-IsKeyed, delete_rows-IsKeyed}
use natbox.Store.Paging.{Rises, append_event-Rises}
use natbox.Store.Restoring.{Restores, restore_all_or_nothing}

-- The calls that write; the first argument of each is the clock.
pub data Call : Type 0 where
  upserts : String → ManagedContainer → Call
  sets_state : String → String → String → Call
  deletes : String → Call
  sets_policy : String → String → ℤ → ℤ → ℤ → String → String → Call
  restores : (ℕ → String) → Backup → Call
  audits : String → AuditEvent → Call

unfoldable pub perform : Call → Db → Db
perform (upserts now c) db = (upsert_container now c db).1
perform (sets_state now name state) db = (set_desired_state now name state db).1
perform (deletes name) db = (delete_container name db).1
perform (sets_policy now name quota rx tx reset_at expires_at) db =
    (update_policy now name quota rx tx reset_at expires_at db).1
perform (restores clock backup) db = (restore clock backup db).1
perform (audits now event) db = (audit now event db).1

pub perform_all : List Call → Db → Db
perform_all [] db = db
perform_all (c ∷ cs) db = perform_all cs (perform c db)

-- AUTOINCREMENT starts at 1.
abbrev pub empty_db : List (Option String) → String → Db
empty_db faults duplicate_text = record {
  containers = [];
  audit_events = [];
  next_id = 1;
  faults = faults;
  duplicate_text = duplicate_text;
}

pub record IsSound (db : Db) : Type 0 where
  pub keyed : IsKeyed db.containers
  pub numbered : Rises 1 db.next_id db.audit_events

upsert_container-IsSound :
    (now : String) (c : ManagedContainer) (db : Db)
    → IsSound db
    → IsSound (upsert_container now c db).1
unfolding upsert_container
upsert_container-IsSound now c db s = elim (Bool-cases (trim_space c.name =ₛ "")) [
  | inl blank ↦ rw blank s
  | inr named ↦ rw named (elim (Option-cases (next_fault db.faults)) [
    | inr (text, refused) ↦ rw refused (record { keyed = s.keyed; numbered = s.numbered })
    | inl passed ↦
        rw passed
          (record { keyed = upsert_row-IsKeyed _ db.containers s.keyed; numbered = s.numbered })
  ])
]

affected-same : (found : Bool) (db : Db) → (affected found db).1 ≡ db
unfolding affected
affected-same true db = refl
affected-same false db = refl

set_desired_state-IsSound :
    (now name state : String) (db : Db)
    → IsSound db
    → IsSound (set_desired_state now name state db).1
unfolding set_desired_state
set_desired_state-IsSound now name state db s =
    elim (Bool-cases (name =ₛ "" || (not (state =ₛ "running") && not (state =ₛ "stopped")))) [
      | inl wrong ↦ rw wrong s
      | inr fine ↦ rw fine (elim (Option-cases (next_fault db.faults)) [
        | inr (text, refused) ↦ rw refused (record { keyed = s.keyed; numbered = s.numbered })
        | inl passed ↦
            rw (passed, affected-same)
              (record {
                keyed = update_rows-IsKeyed name _ (λ r. refl) db.containers s.keyed;
                numbered = s.numbered;
              })
      ])
    ]

update_policy-IsSound :
    (now name : String) (quota rx tx : ℤ) (reset_at expires_at : String) (db : Db)
    → IsSound db
    → IsSound (update_policy now name quota rx tx reset_at expires_at db).1
unfolding update_policy
update_policy-IsSound now name quota rx tx reset_at expires_at db s =
    elim (Bool-cases (name =ₛ "" || ltb_ℤ quota (pos 0) || ltb_ℤ rx (pos 0) || ltb_ℤ tx (pos 0))) [
      | inl wrong ↦ rw wrong s
      | inr fine ↦ rw fine (elim (Option-cases (next_fault db.faults)) [
        | inr (text, refused) ↦ rw refused (record { keyed = s.keyed; numbered = s.numbered })
        | inl passed ↦
            rw (passed, affected-same)
              (record {
                keyed = update_rows-IsKeyed name _ (λ r. refl) db.containers s.keyed;
                numbered = s.numbered;
              })
      ])
    ]

delete_container-IsSound :
    (name : String) (db : Db) → IsSound db → IsSound (delete_container name db).1
unfolding delete_container
delete_container-IsSound name db s = elim (Option-cases (next_fault db.faults)) [
  | inr (text, refused) ↦ rw refused (record { keyed = s.keyed; numbered = s.numbered })
  | inl passed ↦
      rw passed
        (record { keyed = delete_rows-IsKeyed name db.containers s.keyed; numbered = s.numbered })
]

audit-IsSound :
    (now : String) (event : AuditEvent) (db : Db) → IsSound db → IsSound (audit now event db).1
unfolding audit
audit-IsSound now event db s = elim (Option-cases (next_fault db.faults)) [
  | inr (text, refused) ↦ rw refused (record { keyed = s.keyed; numbered = s.numbered })
  | inl passed ↦ rw passed (record {
    keyed = s.keyed;
    numbered = append_event-Rises 1 db.next_id db.audit_events _ s.numbered refl;
  })
]

Restores-IsSound :
    (clock : ℕ → String) (backup : Backup) (db : Db) (out : Result (Unit {0}) × Db)
    → Restores clock backup db out
    → IsSound db
    → IsSound out.1
Restores-IsSound clock backup db (ok u, after) r s = record {
  keyed = r.3;
  numbered = rw (r.4, r.5) s.numbered;
}
Restores-IsSound clock backup db (err e, after) r s = record {
  keyed = rw (r.0) s.keyed;
  numbered = rw (r.1, r.2) s.numbered;
}

pub perform-IsSound : (c : Call) (db : Db) → IsSound db → IsSound (perform c db)
unfolding perform
perform-IsSound (upserts now c) db s = upsert_container-IsSound now c db s
perform-IsSound (sets_state now name state) db s = set_desired_state-IsSound now name state db s
perform-IsSound (deletes name) db s = delete_container-IsSound name db s
perform-IsSound (sets_policy now name quota rx tx reset_at expires_at) db s =
    update_policy-IsSound now name quota rx tx reset_at expires_at db s
perform-IsSound (restores clock backup) db s =
    Restores-IsSound clock backup db _ (restore_all_or_nothing clock backup db) s
perform-IsSound (audits now event) db s = audit-IsSound now event db s

perform_all-IsSound : (cs : List Call) (db : Db) → IsSound db → IsSound (perform_all cs db)
unfolding perform_all
perform_all-IsSound [] db s = s
perform_all-IsSound (c ∷ cs) db s = perform_all-IsSound cs (perform c db) (perform-IsSound c db s)

-- From an empty database, after any calls that write, whichever statements the driver refuses, the
-- names of the rows are distinct and the ids of the audit events rise from 1 and lie below the next
-- one.
reachable-IsSound :
    (cs : List Call) (faults : List (Option String)) (duplicate_text : String)
    → IsSound (perform_all cs (empty_db faults duplicate_text))
reachable-IsSound cs faults duplicate_text =
    perform_all-IsSound cs (empty_db faults duplicate_text)
      (record { keyed = tt; numbered = omega arith })
