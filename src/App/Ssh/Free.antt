-- ===== src/App/Ssh/Free.antt =====
-- main.go: the search of allocateSSH for a free port.
use natbox.Prelude.{
  ℕ, zero, suc, ◌+◌, ◌≤◌, ◌<◌, ◌≡◌, ◌≢◌, inl, inr, true, false, none, some, Option, Option-cases,
  negsuc, ap, ◌∙◌, List, ℤ, pos, ◌+ℤ◌, arith, ltb, leb, not, ◌&&◌, Bool-cases,
}
use natbox.App.Ssh.{is_used, first_free}

nothing_found : (p : ℤ) → none ≢ some p
nothing_found p h = ground arith

next_port : (start : ℕ) → pos start +ℤ pos 1 ≡ pos (start + 1)
unfolding ◌+ℤ◌
next_port start = ground arith

same_port : (start port : ℕ) → start ≤ port → ltb start port ≡ false → port ≡ start
same_port start port low first = ground arith

never : (start earlier port : ℕ) → port ≡ start → start ≤ earlier → ¬ (earlier < port)
never start earlier port e low high = omega arith

found_before :
    (used : List ℤ) (rounds start port : ℕ)
    → first_free used rounds (pos start) ≡ some (pos port)
    → (start ≤ port)
      × (port < start + rounds)
      × (is_used used (pos port) ≡ false)
      × ((earlier : ℕ) → start ≤ earlier → earlier < port → is_used used (pos earlier) ≡ true)
unfolding first_free ◌+ℤ◌
found_before used zero start port h = elim (nothing_found (pos port) h) [ ]
found_before used (suc rounds) start port h = elim (Bool-cases (is_used used (pos start))) [
  | inl busy ↦
      let later = found_before used rounds (start + 1) port (ground (arith, next_port start)) in
      (
        omega arith,
        omega arith,
        later.2,
        λ earlier low high. elim (Bool-cases (ltb start earlier)) [
          | inl behind ↦ later.3 earlier (ground arith) high
          | inr first ↦ rw (same_port start earlier low first) busy
        ],
      )
  | inr free ↦
      let found : port ≡ start = ground arith in
      (
        omega arith,
        omega arith,
        rw found free,
        λ earlier low high. elim (never start earlier port found low high) [ ],
      )
]

-- The port that the search finds is in the range and not used, and no earlier port of the range is unused.
first_free_least :
    (used : List ℤ) (rounds start port earlier : ℕ)
    → first_free used rounds (pos start) ≡ some (pos port)
    → (start ≤ port)
      × (port < start + rounds)
      × (is_used used (pos port) ≡ false)
      × ((leb start earlier && ltb earlier port && not (is_used used (pos earlier))) ≡ false)
first_free_least used rounds start port earlier h =
    let found = found_before used rounds start port h in
    (found.0, found.1, found.2, ground (arith, found.3 earlier))

-- The search finds none just when every port of the range is used.
first_free-none :
    (used : List ℤ) (rounds start : ℕ)
    → first_free used rounds (pos start) ≡ none
    → (port : ℕ) → start ≤ port
    → port < start + rounds
    → is_used used (pos port) ≡ true
unfolding first_free ◌+ℤ◌
first_free-none used zero start h port low high = ground arith
first_free-none used (suc rounds) start h port low high = elim (Bool-cases (ltb start port)) [
  | inl behind ↦
      first_free-none used rounds (start + 1) (ground (arith, next_port start)) port (ground arith)
        (omega arith)
  | inr first ↦ rw (same_port start port low first) (ground arith)
]

found_port :
    (used : List ℤ) (rounds start : ℕ) (p : ℤ)
    → first_free used rounds (pos start) ≡ some p
    → (port : ℕ) × (p ≡ pos port)
unfolding first_free ◌+ℤ◌
found_port used zero start p h = elim (nothing_found p h) [ ]
found_port used (suc rounds) start p h = elim (Bool-cases (is_used used (pos start))) [
  | inl busy ↦ found_port used rounds (start + 1) p (ground (arith, next_port start))
  | inr free ↦ (start, ground arith)
]

-- What the search of a range has to answer, seen at some other port.
pub IsFirstFree : List ℤ → ℕ → ℕ → ℕ → Option ℤ → Type 0
IsFirstFree used rounds start other (some (pos port)) =
    (start ≤ port)
    × (port < start + rounds)
    × (is_used used (pos port) ≡ false)
    × ((leb start other && ltb other port && not (is_used used (pos other))) ≡ false)
IsFirstFree used rounds start other (some (negsuc n)) = ⊥
IsFirstFree used rounds start other none =
    (leb start other && ltb other (start + rounds) && not (is_used used (pos other))) ≡ false

-- The search of a range answers the first port that is not used, or none if every port of the range is used.
pub first_free-IsFirstFree :
    (used : List ℤ) (rounds start other : ℕ)
    → IsFirstFree used rounds start other (first_free used rounds (pos start))
unfolding IsFirstFree
first_free-IsFirstFree used rounds start other =
    elim (Option-cases (first_free used rounds (pos start))) [
      | inl nothing ↦ rw nothing (all_used nothing)
      | inr (p, found) ↦
          let (port, e) = found_port used rounds start p found in
          let there : first_free used rounds (pos start) ≡ some (pos port) = found ∙ ap some e in
          rw there (first_free_least used rounds start port other there)
    ]
  where
    all_used :
        first_free used rounds (pos start) ≡ none
        → (leb start other && ltb other (start + rounds) && not (is_used used (pos other))) ≡ false
    all_used nothing = ground (arith, first_free-none used rounds start nothing other)
