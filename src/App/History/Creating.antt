-- ===== src/App/History/Creating.antt =====
-- main.go: the creation of one container or of a batch, as a history of calls of the store's methods.
use natbox.Prelude.{
  ℤ, String, List, [], ◌∷◌, ◌++◌, ◌=ₛ◌, trim_space, length, Result, ok, err, refuse,
}
use natbox.Incus.Runner.{Runtime}
use natbox.Incus.Query.{wait_ipv4, list}
use natbox.Incus.Lifecycle
use natbox.Incus.Ssh.{configure_ssh}
use natbox.Store.History.{upsert_container-Reaches}
use natbox.App.Ssh.{allocate_ssh, check_ssh_capacity}
use natbox.App.Base.{Config, Request}
use natbox.App.Capacity.{HostSnapshot}
use natbox.App.Create
use natbox.App.Create.{CreateContainerRequest}
use natbox.App.Names.{bulk_names}
use natbox.App.Bulk
use natbox.App.Bulk.{BulkCreateRequest, Entry, Outcome}
use natbox.App.History.{
  IsHistory, then-IsHistory, attempt-IsHistory, cases-IsHistory, on_error-IsHistory, if-IsHistory,
  refuse-IsHistory, runtime-IsHistory, pure-IsHistory, record_audit-IsHistory,
  record_system_audit-IsHistory,
}

module _ {rt : Runtime} where
  cleaned-IsHistory :
      (request : Request) (name : String) (r : Result (Unit {0}))
      → IsHistory {rt = rt} (Create.cleaned request name r)
  unfolding Create.cleaned
  cleaned-IsHistory request name (ok _) = record_system_audit-IsHistory _ _ _ _ _
  cleaned-IsHistory request name (err e) = record_system_audit-IsHistory _ _ _ _ _

  cleanup-IsHistory :
      (request : Request) (name : String)
      → IsHistory {rt = rt} (Create.cleanup_container request name)
  unfolding Create.cleanup_container
  cleanup-IsHistory request name =
      attempt-IsHistory _ _ (runtime-IsHistory (Lifecycle.delete rt name))
        (cleaned-IsHistory request name)

  create_one-IsHistory :
      (request : Request) (req : CreateContainerRequest)
      → IsHistory {rt = rt} (Create.create_one request req)
  unfolding Create.create_one
  create_one-IsHistory request req =
      then-IsHistory (refuse (Create.validate_create_request req)) _ (refuse-IsHistory _) λ _.
        then-IsHistory _ _ (runtime-IsHistory (Lifecycle.create rt (Create.spec_of req))) λ _.
          then-IsHistory _ _
            (on_error-IsHistory _ _
              (runtime-IsHistory (wait_ipv4 rt request.cause (request.ticks req.name) req.name))
              λ e. cleanup-IsHistory request req.name)
            λ _. if-IsHistory (trim_space req.public_key =ₛ "") _ _ (pure-IsHistory (ok tt)) (
              on_error-IsHistory _ _ (runtime-IsHistory (configure_ssh rt req.name req.public_key))
                λ e. cleanup-IsHistory request req.name)

  persist-IsHistory :
      (request : Request) (req : CreateContainerRequest)
      → IsHistory {rt = rt} (Create.persist_managed request req)
  unfolding Create.persist_managed
  persist-IsHistory request req = record {
    at = λ s. (upsert_container-Reaches request.now _).at s.db;
  }

  create_and_persist-IsHistory :
      (request : Request) (req : CreateContainerRequest)
      → IsHistory {rt = rt} (Create.create_and_persist request req)
  unfolding Create.create_and_persist
  create_and_persist-IsHistory request req =
      then-IsHistory _ _ (create_one-IsHistory request req) λ _.
        on_error-IsHistory _ _ (persist-IsHistory request req)
          λ e. cleanup-IsHistory request req.name

  audited_creation-IsHistory :
      (request : Request) (req : CreateContainerRequest) (r : Result (Unit {0}))
      → IsHistory {rt = rt} (Create.audited_creation request req r)
  unfolding Create.audited_creation
  audited_creation-IsHistory request req (ok _) =
      then-IsHistory _ _ (record_audit-IsHistory _ _ _ _ _ _) λ _. pure-IsHistory _
  audited_creation-IsHistory request req (err e) =
      then-IsHistory _ _ (record_audit-IsHistory _ _ _ _ _ _) λ _. pure-IsHistory _

  pub create_container-IsHistory :
      (format_bytes : ℤ → String) (config : Config) (host : Result HostSnapshot) (request : Request)
      (body : CreateContainerRequest)
      → IsHistory {rt = rt} (Create.create_container format_bytes config host request body)
  unfolding Create.create_container
  create_container-IsHistory format_bytes config host request body =
      let req = record body { image = Create.default_image body.image } in
      then-IsHistory _ _ (pure-IsHistory _) λ _.
        attempt-IsHistory _ _ (create_and_persist-IsHistory request req)
          (audited_creation-IsHistory request req)

  rollback-IsHistory :
      (request : Request) (done : List Entry)
      → IsHistory {rt = rt} (Bulk.rollback_bulk request done)
  unfolding Bulk.rollback_bulk
  rollback-IsHistory request [] = pure-IsHistory _
  rollback-IsHistory request (e ∷ es) =
      then-IsHistory _ _
        (if-IsHistory (e.name =ₛ "") _ _ (pure-IsHistory _) (cleanup-IsHistory request e.name))
        λ _. rollback-IsHistory request es

  module _ (config : Config) (request : Request) (req : BulkCreateRequest) where
    bulk_ssh-IsHistory :
        (done : List Entry) (name : String)
        → IsHistory {rt = rt} (Bulk.bulk_ssh config request req done name)
    unfolding Bulk.bulk_ssh
    bulk_ssh-IsHistory done name =
        if-IsHistory req.allocate_ssh _ _
          (attempt-IsHistory _ _ (runtime-IsHistory (allocate_ssh rt config name)) (
            cases-IsHistory _ (λ forward. pure-IsHistory _)
              λ e. then-IsHistory _ _ (record_audit-IsHistory _ _ _ _ _ _) λ _.
                then-IsHistory _ _ (cleanup-IsHistory request name)
                  λ _. then-IsHistory _ _ (rollback-IsHistory request done) λ _. pure-IsHistory _))
          (pure-IsHistory _)

    bulk_persist-IsHistory :
        (done : List Entry) (name : String)
        → IsHistory {rt = rt} (Bulk.bulk_persist config request req done name)
    unfolding Bulk.bulk_persist
    bulk_persist-IsHistory done name = attempt-IsHistory _ _ (persist-IsHistory request _) (
        cases-IsHistory _
          (λ _.
            then-IsHistory _ _ (record_audit-IsHistory _ _ _ _ _ _)
              λ _. bulk_ssh-IsHistory done name)
          λ e. then-IsHistory _ _ (cleanup-IsHistory request name) λ _.
            then-IsHistory _ _ (rollback-IsHistory request done)
              λ _. then-IsHistory _ _ (record_audit-IsHistory _ _ _ _ _ _) λ _. pure-IsHistory _)

    bulk_one-IsHistory :
        (done : List Entry) (name : String)
        → IsHistory {rt = rt} (Bulk.bulk_one config request req done name)
    unfolding Bulk.bulk_one
    bulk_one-IsHistory done name = attempt-IsHistory _ _ (create_one-IsHistory request _) (
        cases-IsHistory _ (λ _. bulk_persist-IsHistory done name)
          λ e.
            then-IsHistory _ _ (record_audit-IsHistory _ _ _ _ _ _)
              λ _. then-IsHistory _ _ (rollback-IsHistory request done) λ _. pure-IsHistory _)

    bulk_loop-IsHistory :
        (done : List Entry) (names : List String)
        → IsHistory {rt = rt} (Bulk.bulk_loop config request req done names)
    unfolding Bulk.bulk_loop
    bulk_loop-IsHistory done [] = pure-IsHistory _
    bulk_loop-IsHistory done (name ∷ names) = then-IsHistory _ _ (bulk_one-IsHistory done name) (
        cases-IsHistory _ (λ entry. bulk_loop-IsHistory (done ++ entry ∷ []) names)
          λ e. pure-IsHistory _)

    pub bulk_create-IsHistory :
        (format_bytes : ℤ → String) (host : Result HostSnapshot)
        → IsHistory {rt = rt} (Bulk.bulk_create format_bytes config host request req)
    unfolding Bulk.bulk_create
    bulk_create-IsHistory format_bytes host =
        then-IsHistory (refuse (Create.validate_create_request (Bulk.request_for req "nat01"))) _
          (refuse-IsHistory _)
          λ _.
            then-IsHistory _ _ (pure-IsHistory (bulk_names req.prefix req.start_index req.count))
              λ names. attempt-IsHistory _ _ (runtime-IsHistory (list rt)) λ instances.
                then-IsHistory _ _ (pure-IsHistory (Bulk.listed instances)) λ present.
                  then-IsHistory (refuse (Bulk.taken_fault (Bulk.taken present names))) _
                    (refuse-IsHistory _)
                    λ _.
                      then-IsHistory _ _
                        (if-IsHistory req.allocate_ssh _ _
                          (runtime-IsHistory (check_ssh_capacity rt config (length names)))
                          (pure-IsHistory (ok tt)))
                        λ _. then-IsHistory _ _ (pure-IsHistory _) λ _. bulk_loop-IsHistory [] names
