-- ===== src/Backups/Pruning.antt =====
-- backup_scheduler.go: which files pruneBackups removes.
use natbox.Prelude.{
  ℕ, zero, suc, ◌+◌, ◌-◌, ◌≤◌, ◌<◌, ◌≡◌, ◌≢◌, refl, sym, ◌∙◌, Bool, true, false, String, none, List,
  [], ◌∷◌, arith, eq_iff, ◌=ₛ◌, str_le, leb, if◌then◌else◌, length, take, drop, keep, any, lookup,
  attempt, Bool-cases, Option-cases, inl, inr,
}
use mathlib.Core.Path.{subst}
use natbox.Prelude.Text.Sorting.{
  sort_texts, IsSorted, NotBefore, sort_texts-IsSorted, keep-sort_texts, any-sort_texts,
}
use natbox.Backups
use natbox.Backups.Files.{Tables, Disk, without, remove, is_backup, paths_of, glob}

pub lookup-without :
    (p q : String) (files : List (String × Tables))
    → lookup q (without p files) ≡ (if p =ₛ q then none else lookup q files)
unfolding lookup without
lookup-without p q [] = ground arith
lookup-without p q ((key, value) ∷ files) =
    ground (arith, lookup-without p q files, eq_iff p q, eq_iff key p, eq_iff key q)

-- What a removal leaves at another path.
pub remove-other :
    (p q : String) (d : Disk) → (p =ₛ q) ≡ false → lookup q (remove p d).1.files ≡ lookup q d.files
unfolding remove
remove-other p q d other = ground (arith, other, lookup-without p q d.files)

abbrev pub named : String → List String → Bool
named q = any (λ p. p =ₛ q)

remove_each-other :
    (q : String) (paths : List String) (d : Disk)
    → named q paths ≡ false
    → lookup q (Backups.remove_each paths d).1.files ≡ lookup q d.files
unfolding Backups.remove_each attempt
remove_each-other q [] d h = refl
remove_each-other q (p ∷ ps) d h =
    remove_each-other q ps (remove p d).1 (ground arith) ∙ remove-other p q d (ground arith)

-- With no fault to come, a removal takes its path away and adds no fault.
remove-quiet :
    (p q : String) (d : Disk)
    → d.faults ≡ []
    → (lookup q (remove p d).1.files ≡ (if p =ₛ q then none else lookup q d.files))
      × ((remove p d).1.faults ≡ [])
unfolding remove
remove-quiet p q d quiet = elim (Option-cases (lookup p d.files)) [
  | inl missing ↦ rw (quiet, missing) (ground (arith, eq_iff p q, missing), refl)
  | inr (tables, found) ↦ rw (quiet, found) (lookup-without p q d.files, refl)
]

pub remove_each-quiet :
    (q : String) (paths : List String) (d : Disk)
    → d.faults ≡ []
    → lookup q (Backups.remove_each paths d).1.files
      ≡ (if named q paths then none else lookup q d.files)
unfolding Backups.remove_each attempt
remove_each-quiet q [] d quiet = refl
remove_each-quiet q (p ∷ ps) d quiet =
    let (found, still) = remove-quiet p q d quiet in
    remove_each-quiet q ps (remove p d).1 still ∙ ground (arith, found)

module _ (q : String) where
  keep-NotBefore : (ss : List String) → NotBefore q ss → length (keep (str_le q) ss) ≡ length ss
  keep-NotBefore [] h = refl
  keep-NotBefore (s ∷ ss) (h, hs) = ground (arith, h, keep-NotBefore ss hs)

  length-drop : (k : ℕ) (ss : List String) → length (drop k ss) ≤ length ss
  length-drop zero ss = ground arith
  length-drop (suc k) [] = ground arith
  length-drop (suc k) (s ∷ ss) = ground (arith, length-drop k ss)

  -- Behind one of the first `k` of a sorted list are all those that are dropped with them left out.
  before_dropped :
      (k : ℕ) (ss : List String)
      → IsSorted ss
      → named q (take k ss) ≡ true
      → length (drop k ss) < length (keep (str_le q) ss)
  unfolding IsSorted
  before_dropped zero ss sorted h = ground arith
  before_dropped (suc k) [] sorted h = ground arith
  before_dropped (suc k) (s ∷ ss) (least, sorted) h = elim (Bool-cases (s =ₛ q)) [
    | inl same ↦ behind same
    | inr other ↦ ground (arith, before_dropped k ss sorted (ground arith))
  ]
    where
      behind : (s =ₛ q) ≡ true → length (drop k ss) < length (keep (str_le q) (s ∷ ss))
      behind same =
          let equal : s ≡ q = ground (arith, eq_iff s q, same) in
          let all_behind = keep-NotBefore ss (subst (λ t. NotBefore t ss) equal least) in
          ground (arith, all_behind, length-drop k ss)

pub length-dropped : (k : ℕ) (ss : List String) → k ≤ length ss → length (drop k ss) + k ≡ length ss
length-dropped zero ss h = ground arith
length-dropped (suc k) [] h = ground arith
length-dropped (suc k) (s ∷ ss) h = ground (arith, length-dropped k ss (ground arith))

-- A path that is over the number has at least that many others at or behind it.
pub too_many_old :
    (q : String) (retention : ℕ) (ss : List String)
    → IsSorted ss
    → named q (Backups.too_many retention ss) ≡ true
    → retention < length (keep (str_le q) ss)
too_many_old q retention ss sorted h = elim (Bool-cases (leb (length ss) retention)) [
  | inl few ↦ ground (arith, few, h)
  | inr many ↦
      let taken : named q (take (length ss - retention) ss) ≡ true = ground (arith, many, h) in
      ground (
        arith,
        before_dropped q (length ss - retention) ss sorted taken,
        length-dropped (length ss - retention) ss (ground arith),
      )
]

pub named-keep :
    (p : String → Bool) (q : String) (ss : List String) → named q (keep p ss) ≡ true → p q ≡ true
named-keep p q [] h = ground arith
named-keep p q (s ∷ ss) h = elim (Bool-cases (p s)) [
  | inr out ↦ named-keep p q ss (ground (arith, out, h))
  | inl kept ↦ elim (Bool-cases (s =ₛ q)) [
    | inl same ↦ subst (λ t. p t ≡ true) ((eq_iff s q).0 same) kept
    | inr other ↦ named-keep p q ss (ground (arith, kept, other, h))
  ]
]

named-take :
    (k : ℕ) (q : String) (ss : List String) → named q (take k ss) ≡ true → named q ss ≡ true
named-take zero q ss h = ground arith
named-take (suc k) q [] h = ground arith
named-take (suc k) q (s ∷ ss) h = ground (arith, named-take k q ss)

pub named-too_many :
    (q : String) (retention : ℕ) (ss : List String)
    → named q (Backups.too_many retention ss) ≡ true
    → named q ss ≡ true
named-too_many q retention ss h = elim (Bool-cases (leb (length ss) retention)) [
  | inl few ↦ ground (arith, few, h)
  | inr many ↦ named-take (length ss - retention) q ss (ground (arith, many, h))
]

-- Pruning leaves every file alone but a backup behind which, in the order of the names, more backups remain than
-- are to be kept, itself counted; whatever the operating system refuses.
pub prune_backups-keeps :
    (directory : String) (retention : ℕ) (d : Disk) (q : String)
    → lookup q (Backups.prune_backups directory retention d).1.files ≢ lookup q d.files
    → (is_backup directory q ≡ true)
      × (retention < length (keep (str_le q) (glob directory d.files)))
unfolding Backups.prune_backups glob
prune_backups-keeps directory retention d q changed =
    let paths = glob directory d.files in
    let doomed = Backups.too_many retention (sort_texts paths) in
    elim (Bool-cases (named q doomed)) [
      | inr spared ↦ elim (changed (remove_each-other q doomed d spared)) [ ]
      | inl taken ↦ (
        named-keep (is_backup directory) q (paths_of d.files) (
            sym (any-sort_texts (λ p. p =ₛ q) paths)
            ∙ named-too_many q retention (sort_texts paths) taken),
        subst (λ n. retention < n) (keep-sort_texts (str_le q) paths)
            (too_many_old q retention (sort_texts paths) (sort_texts-IsSorted paths) taken),
      )
    ]
