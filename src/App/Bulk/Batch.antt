-- ===== src/App/Bulk/Batch.antt =====
-- main.go: the answer of bulkCreate, seen at its names.
use mathlib.Core.List.{append-nil}
use mathlib.Core.Path.{subst}
use natbox.Prelude.{
  ◌≡◌, refl, sym, ap, List, [], ◌∷◌, ◌++◌, map, String, Error, Result, ok, err, Exec, ◌>>=◌,
  attempt, Result-cases, ◌⊎◌, inl, inr, Bool-cases, ◌=ₛ◌,
}
use natbox.Incus.Runner.{Runtime}
use natbox.App.Base.{Config, Request, System, on_runtime, record_audit, record_system_audit}
use natbox.App.Create.{create_one, persist_managed, cleanup_container, creation_details}
use natbox.App.Ssh
use natbox.Incus.Lifecycle
use natbox.App.Bulk.{
  Entry, BulkCreateRequest, BulkReply, created, rolled_back, bulk_ssh, bulk_persist, bulk_one,
  bulk_loop, request_for, rollback_bulk,
}

abbrev pub entry_names : List Entry → List String
entry_names es = map (λ e. e.name) es

-- The entry of a round is of its name.
abbrev pub Named : String → Result (Result Entry) → Type 0
Named name (ok (ok entry)) = entry.name ≡ name
Named name (ok (err e)) = Unit
Named name (err e) = ⊥

-- The call gives no error.
abbrev Works : {S A : Type 0} → Exec S A → Type 0
Works {S} {A} m = (s : S) → (a : A) × ((m s).0 ≡ ok a)

then-Named :
    {S A : Type 0} (name : String) (m : Exec S A) (f : A → Exec S (Result Entry))
    → Works m
    → ((a : A) (t : S) → Named name (f a t).0)
    → (s : S) → Named name ((m >>= f) s).0
then-Named name m f works all_named s = let (a, done) = works s in rw done (all_named a (m s).1)

attempted-Named :
    {S A : Type 0} (name : String) (m : Exec S A) (good : A → Exec S (Result Entry))
    (bad : Error → Exec S (Result Entry))
    → ((a : A) (t : S) → Named name (good a t).0)
    → ((e : Error) (t : S) → Named name (bad e t).0)
    → (s : S) → Named name ((attempt m >>= (λ r. elim r [ ok a ↦ good a | err e ↦ bad e ])) s).0
unfolding attempt
attempted-Named name m good bad g b s = elim (Result-cases (m s).0) [
  | inl (a, done) ↦ rw done (g a (m s).1)
  | inr (e, broke) ↦ rw broke (b e (m s).1)
]

-- The answer accounts for the batch: all of its names, or those up to the one that failed.
abbrev pub Answers : List String → Result BulkReply → Type 0
Answers batch (ok (created es)) = entry_names es ≡ batch
Answers batch (ok (rolled_back es name e)) =
    (rest : List String) × (entry_names es ++ name ∷ rest ≡ batch)
Answers batch (err e) = ⊥

pub Named-cases :
    (name : String) (out : Result (Result Entry))
    → Named name out
    → ((entry : Entry) × (out ≡ ok (ok entry)) × (entry.name ≡ name))
      ⊎ ((e : Error) × (out ≡ ok (err e)))
Named-cases name (ok (ok entry)) n = inl (entry, refl, n)
Named-cases name (ok (err e)) n = inr (e, refl)
Named-cases name (err e) n = elim n [ ]

-- The names behind one more entry.
names_behind :
    (done : List Entry) (entry : Entry) (name : String) (names : List String)
    → entry.name ≡ name
    → entry_names (done ++ entry ∷ []) ++ names ≡ entry_names done ++ name ∷ names
names_behind [] entry name names e = ap (λ n. n ∷ names) e
names_behind (d ∷ ds) entry name names e =
    ap (λ ns. d.name ∷ ns) (names_behind ds entry name names e)

module _ {rt : Runtime} (request : Request) where
  audit-Works :
      (action target id result details : String)
      → Works (record_audit {rt = rt} request action target id result details)
  unfolding record_audit attempt
  audit-Works action target id result details s = (tt, refl)

  system_audit-Works :
      (action id result details : String)
      → Works (record_system_audit {rt = rt} request.now action id result details)
  unfolding record_system_audit attempt
  system_audit-Works action id result details s = (tt, refl)

  pub cleanup-Works : (name : String) → Works (cleanup_container {rt = rt} request name)
  unfolding cleanup_container attempt
  cleanup-Works name s = elim (Result-cases (Lifecycle.delete rt name s.world).0) [
    | inl (a, done) ↦ rw done (system_audit-Works _ _ _ _ _)
    | inr (e, broke) ↦ rw broke (system_audit-Works _ _ _ _ _)
  ]

  pub rollback-Works : (done : List Entry) → Works (rollback_bulk {rt = rt} request done)
  unfolding rollback_bulk
  rollback-Works [] s = (tt, refl)
  rollback-Works (e ∷ es) s = elim (Bool-cases (e.name =ₛ "")) [
    | inl unnamed ↦ rw unnamed (rollback-Works es s)
    | inr named ↦
        let (a, done) = cleanup-Works e.name s in
        rw (named, done) (rollback-Works es (cleanup_container request e.name s).1)
  ]

module _ {rt : Runtime} (config : Config) (request : Request) (req : BulkCreateRequest) where
  ssh-Named :
      (done : List Entry) (name : String) (s : System rt)
      → Named name (bulk_ssh config request req done name s).0
  unfolding bulk_ssh
  ssh-Named done name s = elim (Bool-cases req.allocate_ssh) [
    | inr off ↦ rw off refl
    | inl on ↦ rw on (
        attempted-Named name (on_runtime (Ssh.allocate_ssh rt config name)) _ _ (λ forward t. refl)
          (λ e.
            then-Named name
              (record_audit request "port.allocate_ssh" "container" name "failure"
                "batch allocation")
              _ (audit-Works request _ _ _ _ _)
              (λ a.
                then-Named name (cleanup_container request name) _ (cleanup-Works request name)
                  (λ b.
                    then-Named name (rollback_bulk request done) _ (rollback-Works request done)
                      (λ c u. tt))))
          s)
  ]

  persist-Named :
      (done : List Entry) (name : String) (s : System rt)
      → Named name (bulk_persist config request req done name s).0
  unfolding bulk_persist
  persist-Named done name =
      attempted-Named name (persist_managed request (request_for req name)) _ _
        (λ u.
          then-Named name
            (record_audit request "container.create" "container" name "success"
              (creation_details (request_for req name)))
            _ (audit-Works request _ _ _ _ _) (λ a. ssh-Named done name))
        (λ e. then-Named name (cleanup_container request name) _ (cleanup-Works request name) (λ a.
          then-Named name (rollback_bulk request done) _ (rollback-Works request done) (λ b.
            then-Named name
              (record_audit request "container.create" "container" name "failure"
                "metadata persistence")
              _ (audit-Works request _ _ _ _ _) (λ c u. tt))))

  pub one-Named :
      (done : List Entry) (name : String) (s : System rt)
      → Named name (bulk_one config request req done name s).0
  unfolding bulk_one
  one-Named done name =
      attempted-Named name (create_one request (request_for req name)) _ _
        (λ u. persist-Named done name)
        (λ e.
          then-Named name
            (record_audit request "container.create" "container" name "failure" "runtime create") _
            (audit-Works request _ _ _ _ _)
            (λ a.
              then-Named name (rollback_bulk request done) _ (rollback-Works request done)
                (λ b u. tt)))

  -- Behind the names that are done, the loop of a batch always answers: with an entry for every name, in
  -- order, or with those up to the name that failed.
  pub bulk_loop-Answers :
      (done : List Entry) (names : List String) (s : System rt)
      → Answers (entry_names done ++ names) (bulk_loop config request req done names s).0
  unfolding bulk_loop
  bulk_loop-Answers done [] s = sym (append-nil (entry_names done))
  bulk_loop-Answers done (name ∷ names) s =
      elim (Named-cases name (bulk_one config request req done name s).0 (one-Named done name s)) [
        | inl (entry, made, named) ↦ rw made (
            subst
              (λ batch.
                Answers batch
                  (bulk_loop config request req (done ++ entry ∷ []) names
                    (bulk_one config request req done name s).1).0)
              (names_behind done entry name names named)
              (bulk_loop-Answers (done ++ entry ∷ []) names
                (bulk_one config request req done name s).1))
        | inr (e, broke) ↦ rw broke (names, refl)
      ]
