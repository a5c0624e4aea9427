-- ===== src/App/Bulk/Undone.antt =====
-- main.go: what a batch that is rolled back leaves on the runtime.
use natbox.Prelude.{
  ◌≡◌, refl, true, false, List, [], ◌∷◌, String, none, Result, ok, err, attempt, All,
}
use natbox.Incus.Runner.{Runtime, valid_name, run}
use natbox.Incus.Creating.{Hosts}
use natbox.Incus.Lifecycle
use natbox.App.Base.{Config, Request, System, record_audit}
use natbox.App.Ssh
use natbox.App.Bulk.{Entry, BulkCreateRequest, BulkReply, created, rolled_back}
use natbox.App.Bulk.Batch.{Answers}

-- What a deletion does on the runtime: it works where the instance is there, and makes no other one.
pub record Deletes (rt : Runtime) (h : Hosts rt) : Type 0 where
  pub works :
      (name : String) (w : rt.World)
      → h.present w name ≡ true
      → (rt.run ("delete" ∷ name ∷ "--force" ∷ []) w).0.failed ≡ none
  pub makes_none :
      (name other : String) (w : rt.World)
      → h.present w other ≡ false
      → h.present (rt.run ("delete" ∷ name ∷ "--force" ∷ []) w).1 other ≡ false

module _ {rt : Runtime} (h : Hosts rt) (d : Deletes rt h) (request : Request) where
  abbrev Absent : System rt → Entry → Type 0
  Absent s e = h.present s.world e.name ≡ false

  audit-world :
      (action target id result details : String) (s : System rt)
      → (record_audit {rt = rt} request action target id result details s).1.world ≡ s.world
  unfolding record_audit attempt
  audit-world action target id result details s = refl

  abbrev IsNamed : Entry → Type 0
  IsNamed e = valid_name e.name ≡ true

  -- A round that ends the batch leaves none of the instances that were done before it.
  abbrev Ends : List Entry → Result (Result Entry) × System rt → Type 0
  Ends done (ok (err e), t) = All (Absent t) done
  Ends done (ok (ok entry), t) = Unit
  Ends done (err e, t) = Unit

module _ {rt : Runtime} (h : Hosts rt) (d : Deletes rt h) (config : Config) (request : Request)
    (req : BulkCreateRequest) where
  -- The instances that a batch had made when it was rolled back are gone.
  abbrev Clears : Result BulkReply × System rt → Type 0
  Clears (ok (rolled_back es name e), t) = All (Absent h d request t) es
  Clears (ok (created es), t) = Unit
  Clears (err e, t) = Unit

  -- What a batch answers for its names, and leaves of them on the runtime.
  abbrev pub Undoes : List String → Result BulkReply × System rt → Type 0
  Undoes batch out = Answers batch out.0 × Clears out
