-- ===== src/Backups/Retaining.antt =====
-- backup_scheduler.go: what pruneBackups leaves where nothing is refused.
use natbox.Prelude.{
  ℕ, zero, suc, ◌-◌, ◌≤◌, ◌<◌, ◌≡◌, refl, sym, ◌∙◌, Bool, true, ◌&&◌, String, none, some, List, [],
  ◌∷◌, arith, eq_iff, ◌=ₛ◌, str_le, ltb, leb, if◌then◌else◌, length, take, drop, keep, lookup,
  Bool-cases, Option-cases, inl, inr,
}
use mathlib.Core.Path.{subst}
use natbox.Prelude.Text.Order.{str_le_antisym}
use natbox.Prelude.Text.Sorting.{
  sort_texts, IsSorted, NotBefore, sort_texts-IsSorted, keep-sort_texts, any-sort_texts,
}
use natbox.Backups
use natbox.Backups.Files.{Tables, Disk, is_backup, paths_of, glob}
use natbox.Backups.Pruning.{
  named, remove_each-quiet, length-dropped, too_many_old, named-keep, named-too_many,
}

-- A backup of the directory behind which, in the order of the names, there are at least as many others as
-- are to be kept.
abbrev pub is_surplus : String → ℕ → Disk → String → Bool
is_surplus directory retention d q =
    is_backup directory q && ltb retention (length (keep (str_le q) (glob directory d.files)))

module _ (q : String) where
  length-keep : (ss : List String) → length (keep (str_le q) ss) ≤ length ss
  length-keep [] = ground arith
  length-keep (s ∷ ss) = ground (arith, length-keep ss)

  NotBefore-named :
      (s : String) (ss : List String) → NotBefore s ss → named q ss ≡ true → str_le s q ≡ true
  NotBefore-named s [] h k = ground arith
  NotBefore-named s (t ∷ ts) (h, hs) k = elim (Bool-cases (t =ₛ q)) [
    | inl same ↦ subst (λ u. str_le s u ≡ true) ((eq_iff t q).0 same) h
    | inr other ↦ NotBefore-named s ts hs (ground (arith, other, k))
  ]

  -- One behind which there are more than are dropped is among the first `k` of a sorted list.
  named_first :
      (k : ℕ) (ss : List String)
      → IsSorted ss
      → named q ss ≡ true
      → length (drop k ss) < length (keep (str_le q) ss)
      → named q (take k ss) ≡ true
  unfolding IsSorted
  named_first zero ss sorted there h = ground (arith, length-keep ss)
  named_first (suc k) [] sorted there h = ground arith
  named_first (suc k) (s ∷ ss) (least, sorted) there h = elim (Bool-cases (s =ₛ q)) [
    | inl same ↦ ground (arith, same)
    | inr other ↦
        let later : named q ss ≡ true = ground (arith, other, there) in
        elim (Bool-cases (str_le q s)) [
          | inl behind ↦ ground (
            arith,
            other,
            eq_iff s q,
            str_le_antisym s q (NotBefore-named s ss least later) behind,
          )
          | inr before ↦
              ground (arith, other, named_first k ss sorted later (ground (arith, before, h)))
        ]
  ]

old_too_many :
    (q : String) (retention : ℕ) (ss : List String)
    → IsSorted ss
    → named q ss ≡ true
    → retention < length (keep (str_le q) ss)
    → named q (Backups.too_many retention ss) ≡ true
old_too_many q retention ss sorted there h = elim (Bool-cases (leb (length ss) retention)) [
  | inl few ↦ ground (arith, few, h, length-keep q ss)
  | inr many ↦
      let first : named q (take (length ss - retention) ss) ≡ true =
        named_first q (length ss - retention) ss sorted there
          (ground (arith, many, h, length-dropped (length ss - retention) ss (ground arith))) in
      ground (arith, many, first)
]

keep-named :
    (p : String → Bool) (q : String) (ss : List String)
    → p q ≡ true
    → named q ss ≡ true
    → named q (keep p ss) ≡ true
keep-named p q [] h k = k
keep-named p q (s ∷ ss) h k = elim (Bool-cases (s =ₛ q)) [
  | inl same ↦
      let kept : p s ≡ true = subst (λ t. p t ≡ true) (sym ((eq_iff s q).0 same)) h in
      ground (arith, same, kept)
  | inr other ↦
      let rest : named q (keep p ss) ≡ true = keep-named p q ss h (ground (arith, other, k)) in
      elim (Bool-cases (p s)) [
        | inl kept ↦ ground (arith, kept, rest)
        | inr out ↦ ground (arith, out, rest)
      ]
]

named-paths_of :
    (q : String) (tables : Tables) (files : List (String × Tables))
    → lookup q files ≡ some tables
    → named q (paths_of files) ≡ true
unfolding lookup paths_of
named-paths_of q tables [] h = ground arith
named-paths_of q tables ((key, value) ∷ files) h = ground (arith, h, named-paths_of q tables files)

-- What is removed of the files that are there.
too_many-is_surplus :
    (directory : String) (retention : ℕ) (d : Disk) (q : String) (tables : Tables)
    → lookup q d.files ≡ some tables
    → named q (Backups.too_many retention (sort_texts (glob directory d.files)))
      ≡ is_surplus directory retention d q
unfolding glob
too_many-is_surplus directory retention d q tables found =
    let paths = glob directory d.files in
    let sorted = sort_texts paths in
    let counts = keep-sort_texts (str_le q) paths in
    elim (Bool-cases (named q (Backups.too_many retention sorted))) [
      | inl taken ↦
          let old = too_many_old q retention sorted (sort_texts-IsSorted paths) taken in
          let backup =
            named-keep (is_backup directory) q (paths_of d.files) (
              sym (any-sort_texts (λ p. p =ₛ q) paths) ∙ named-too_many q retention sorted taken) in
          taken ∙ sym (ground (arith, old, backup, counts))
      | inr spared ↦ elim (Bool-cases (is_surplus directory retention d q)) [
        | inr few ↦ spared ∙ sym few
        | inl surplus ↦
            let listed =
              keep-named (is_backup directory) q (paths_of d.files) (ground (arith, surplus))
                (named-paths_of q tables d.files found) in
            let old =
              old_too_many q retention sorted (sort_texts-IsSorted paths)
                (any-sort_texts (λ p. p =ₛ q) paths ∙ listed) (ground (arith, surplus, counts)) in
            old ∙ sym surplus
      ]
    ]

-- With no refused call to come, pruning takes away just the backups of the directory behind which, in the order of
-- the names and themselves counted, there are more than are to be kept; every other file is left.
pub prune_backups-is_surplus :
    (directory : String) (retention : ℕ) (d : Disk) (q : String)
    → d.faults ≡ []
    → lookup q (Backups.prune_backups directory retention d).1.files
      ≡ (if is_surplus directory retention d q then none else lookup q d.files)
unfolding Backups.prune_backups
prune_backups-is_surplus directory retention d q quiet =
    remove_each-quiet q (Backups.too_many retention (sort_texts (glob directory d.files))) d quiet
    ∙ elim (Option-cases (lookup q d.files)) [
      | inl absent ↦ ground (arith, absent)
      | inr (tables, found) ↦ rw (too_many-is_surplus directory retention d q tables found) refl
    ]
