-- ===== src/Incus/Creating.antt =====
-- internal/incus/client.go: the command lines that Create runs, for every runtime and every failure.
use natbox.Prelude.{
  ◌≡◌, ◌≢◌, refl, ◌∙◌, Bool, true, false, String, none, some, List, [], ◌∷◌, ◌++◌, map, drop, ◌⊎◌,
  inl, inr, Error, Result, ok, err, Exec, Bool-cases, Option-cases, ◌>>◌, continue,
}
use natbox.Incus.Runner.{Runtime, Reply, InstanceSpec, validate, command, command_error, run}
use natbox.Incus.Lifecycle.{
  create, guarded, rollback, init_command, disk_command, autostart_command, start_command,
  rollback_command,
}

-- A command line and the reply to it.
abbrev pub Log : Type 0
Log = List (List String × Reply)

-- The same runtime, which also keeps the command lines that it was given, each with its reply.
abbrev pub recorded : Runtime → Runtime
recorded rt = record {
  World = rt.World × Log;
  run = λ args s.
      let (w, log) = s in
      let (reply, w') = rt.run args w in (reply, (w', log ++ (args, reply) ∷ []));
  decode_instances = rt.decode_instances;
  decode_info = rt.decode_info;
  decode_counters = rt.decode_counters;
  decode_devices = rt.decode_devices;
  decode_instance_devices = rt.decode_instance_devices;
}

-- The steps of a creation in their order, each with the operation that its error names.
abbrev pub steps : InstanceSpec → List (String × List String)
steps s =
    ("init", init_command s)
    ∷ ("set disk", disk_command s)
    ∷ ("enable autostart", autostart_command s)
    ∷ ("start", start_command s)
    ∷ []

abbrev pub behind_init : InstanceSpec → List (String × List String)
behind_init s = drop 1 (steps s)

-- The log is that of the steps, all of which worked.
abbrev pub AllWorked : List (String × List String) → Log → Type 0
AllWorked [] [] = Unit
AllWorked [] (entry ∷ log) = ⊥
AllWorked (step ∷ more) [] = ⊥
AllWorked (step ∷ more) ((args, reply) ∷ log) =
    (args ≡ step.1) × (reply.failed ≡ none) × AllWorked more log

-- The log is that of the steps up to the first one that failed, whose error is `e`, and then that of the
-- command lines `behind`, whatever the replies to them.
abbrev pub Stopped : List (String × List String) → List (List String) → Error → Log → Type 0
Stopped [] behind e log = ⊥
Stopped (step ∷ more) behind e [] = ⊥
Stopped ((op, args) ∷ more) behind e ((ran, reply) ∷ log) =
    (ran ≡ args)
    × (((text : String) × (reply.failed ≡ some text)
          × (e ≡ command_error op text reply.stderr)
          × (map (λ (entry : List String × Reply). entry.0) log ≡ behind))
        ⊎ ((reply.failed ≡ none) × Stopped more behind e log))

-- A refused specification; a failed `init`, behind which nothing runs; or an `init` that worked, and the
-- deletion behind the first of the other steps that failed.
abbrev pub StopsAt : InstanceSpec → Error → Log → Type 0
StopsAt s e [] = validate s ≢ none
StopsAt s e ((args, reply) ∷ log) =
    (validate s ≡ none)
    × (args ≡ init_command s)
    × (((text : String) × (reply.failed ≡ some text)
          × (e ≡ command_error "init" text reply.stderr)
          × (log ≡ []))
        ⊎ ((reply.failed ≡ none) × Stopped (behind_init s) (rollback_command s ∷ []) e log))

abbrev pub Creates : {W : Type 0} → InstanceSpec → Result (Unit {0}) × (W × Log) → Type 0
Creates s (ok _, (_, log)) = (validate s ≡ none) × AllWorked (steps s) log
Creates s (err e, (_, log)) = StopsAt s e log

module _ (rt : Runtime) (s : InstanceSpec) where
  -- For every runtime and every failure, with the commands that Create runs and the replies to them: where it
  -- succeeds, its four commands ran and each worked; a specification that is refused runs nothing; and
  -- otherwise the error is that of the first command that failed, behind which nothing runs where it
  -- was the `init`, and else the deletion alone.
  pub create-Creates : (w : rt.World) → Creates {W = rt.World} s (create (recorded rt) s (w, []))
  unfolding create guarded command rollback run
  create-Creates w = elim (Option-cases (validate s)) [
    | inr (text, refused) ↦ rw refused (λ e. cc)
    | inl fine ↦ rw fine (elim (Option-cases (rt.run (init_command s) w).0.failed) [
      | inr (text, failed) ↦ rw failed (fine, refl, inl (text, refl, refl, refl))
      | inl made ↦ rw made (
          let w1 = (rt.run (init_command s) w).1 in
          elim (Option-cases (rt.run (disk_command s) w1).0.failed) [
            | inr (text, failed) ↦
                rw failed (fine, refl, inr (refl, (refl, inl (text, refl, refl, refl))))
            | inl sized ↦ rw sized (
                let w2 = (rt.run (disk_command s) w1).1 in
                elim (Option-cases (rt.run (autostart_command s) w2).0.failed) [
                  | inr (text, failed) ↦ rw failed (
                    fine,
                    refl,
                    inr (refl, (refl, inr (refl, (refl, inl (text, refl, refl, refl))))),
                  )
                  | inl starting ↦ rw starting (
                      let w3 = (rt.run (autostart_command s) w2).1 in
                      elim (Option-cases (rt.run (start_command s) w3).0.failed) [
                        | inr (text, failed) ↦ rw failed (
                          fine,
                          refl,
                          inr (
                            refl,
                            (
                              refl,
                              inr (refl, (refl, inr (refl, (refl, inl (text, refl, refl, refl))))),
                            ),
                          ),
                        )
                        | inl started ↦
                            rw started
                              (fine, (refl, refl, (refl, refl, (refl, refl, (refl, refl, tt)))))
                      ])
                ])
          ])
    ])
  ]

-- What the runtime is taken to do: a failed `init` makes no instance, a deletion that does not fail
-- leaves none of that name, and one that fails leaves the name as it was.
pub record Hosts (rt : Runtime) : Type 0 where
  pub present : rt.World → String → Bool
  pub init_failed :
      (args : List String) (w : rt.World) (text name : String)
      → (rt.run ("init" ∷ args) w).0.failed ≡ some text
      → present (rt.run ("init" ∷ args) w).1 name ≡ present w name
  pub deleted :
      (name : String) (w : rt.World)
      → (rt.run ("delete" ∷ name ∷ "--force" ∷ []) w).0.failed ≡ none
      → present (rt.run ("delete" ∷ name ∷ "--force" ∷ []) w).1 name ≡ false
  pub delete_failed :
      (name : String) (w : rt.World) (text : String)
      → (rt.run ("delete" ∷ name ∷ "--force" ∷ []) w).0.failed ≡ some text
      → present (rt.run ("delete" ∷ name ∷ "--force" ∷ []) w).1 name ≡ present w name

module _ (rt : Runtime) (h : Hosts rt) (s : InstanceSpec)
    (deletable : (w : rt.World)
      → h.present w s.name ≡ true
      → (rt.run (rollback_command s) w).0.failed ≡ none) where
  -- Where it fails, there is no instance of this name.
  abbrev Gone : Result (Unit {0}) × rt.World → Type 0
  Gone (ok _, w) = Unit
  Gone (err e, w) = h.present w s.name ≡ false

  -- The deletion leaves no instance, whether there was one or not.
  rollback-Gone : (w : rt.World) → h.present (rt.run (rollback_command s) w).1 s.name ≡ false
  rollback-Gone w = elim (Option-cases (rt.run (rollback_command s) w).0.failed) [
    | inl done ↦ h.deleted s.name w done
    | inr (text, failed) ↦ elim (Bool-cases (h.present w s.name)) [
      | inl there ↦ cc (deletable w there, failed)
      | inr absent ↦ h.delete_failed s.name w text failed ∙ absent
    ]
  ]

  guarded-Gone : (op : String) (args : List String) (w : rt.World) → Gone (guarded rt s op args w)
  unfolding guarded
  guarded-Gone op args w = elim (Option-cases (rt.run args w).0.failed) [
    | inl done ↦ rw done tt
    | inr (text, failed) ↦ rw failed (rollback-Gone (rt.run args w).1)
  ]

  then-Gone :
      (m n : Exec rt.World (Unit {0})) (w : rt.World)
      → Gone (m w)
      → ((w' : rt.World) → Gone (n w'))
      → Gone ((m >> n) w)
  then-Gone m n w g f = go (m w) g
    where
      go : (out : Result (Unit {0}) × rt.World) → Gone out → Gone (continue out.0 (λ _. n) out.1)
      go (ok u, w') g' = f w'
      go (err e, w') g' = g'

  -- After a failure there is no instance of this name, or as before.
  abbrev pub CleansUp : rt.World → Result (Unit {0}) × rt.World → Type 0
  CleansUp w (ok _, w') = Unit
  CleansUp w (err e, w') =
      (h.present w' s.name ≡ false) ⊎ (h.present w' s.name ≡ h.present w s.name)

  Gone-CleansUp : (w : rt.World) (out : Result (Unit {0}) × rt.World) → Gone out → CleansUp w out
  Gone-CleansUp w (ok u, w') g = tt
  Gone-CleansUp w (err e, w') g = inl g

  -- If a failed `init` makes nothing, a failed deletion leaves the name as it was, and an instance of the
  -- name that is there can be deleted, then a Create that fails leaves no instance of its name, or leaves
  -- the name as it found it.
  pub create-CleansUp : (w : rt.World) → CleansUp w (create rt s w)
  unfolding create command
  create-CleansUp w = elim (Option-cases (validate s)) [
    | inr (text, refused) ↦ rw refused (inr refl)
    | inl fine ↦ rw fine (elim (Option-cases (rt.run (init_command s) w).0.failed) [
      | inr (text, failed) ↦ rw failed (inr (h.init_failed _ w text s.name failed))
      | inl made ↦ rw made (
          Gone-CleansUp w _ (
            then-Gone (guarded rt s "set disk" (disk_command s)) _ _
              (guarded-Gone "set disk" (disk_command s) _)
              (λ w'.
                then-Gone (guarded rt s "enable autostart" (autostart_command s)) _ w'
                  (guarded-Gone "enable autostart" (autostart_command s) w')
                  (λ w''. guarded-Gone "start" (start_command s) w''))))
    ])
  ]
