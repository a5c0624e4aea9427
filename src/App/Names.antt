-- ===== src/App/Names.antt =====
-- main.go: the names of a batch of containers.
pub mod Valid
pub mod Complete
use Prim.Native.String.{len}
use natbox.Prelude.{
  ℕ, zero, suc, ◌+◌, ◌-◌, Bool, true, false, not, ◌||◌, String, ◌+ₛ◌, List, [], ◌∷◌, ◌++◌, ℤ, pos,
  ltb_ℤ, pos_part, ltb, leb, ◌=ₛ◌, any, if◌then◌else◌, count_chars, itoa, quoted, name_pattern,
  failure, Result, ok, err,
}

zeros : ℕ → String
zeros zero = ""
zeros (suc n) = "0" +ₛ zeros n

-- `fmt.Sprintf("%0*d", width, n)`
unfoldable pub pad : ℕ → ℕ → String
unfolding zeros
pad width n = zeros (width - count_chars (itoa n)) +ₛ itoa n

-- The number of digits of the batch: 2, or as many as the last index has from 100 on.
unfoldable pub bulk_width : ℕ → ℕ
bulk_width last = if leb 100 last then count_chars (itoa last) else 2

-- The loop over the indices: `rounds` are left, `i` is next, `names` are those so far, which are also
-- the keys of the map `seen`.
unfoldable pub bulk_loop : String → ℕ → ℕ → ℕ → List String → Result (List String)
bulk_loop prefix width zero i names = ok names
bulk_loop prefix width (suc rounds) i names =
    let name = prefix +ₛ pad width i in
    let rest = bulk_loop prefix width rounds (i + 1) (names ++ name ∷ []) in
    if ltb 63 (len name) || any (λ n. n =ₛ name) names
    then err (failure ("generated container name " +ₛ quoted name +ₛ " is invalid or duplicated"))
    else rest

unfoldable pub bulk_names : String → ℤ → ℤ → Result (List String)
bulk_names prefix start count =
    if not (name_pattern 58 prefix)
    then err (failure "invalid prefix: use letters, numbers, dot, or hyphen")
    else if ltb_ℤ start (pos 0) || ltb_ℤ (pos 999999) start
    then err (failure "startIndex must be between 0 and 999999")
    else if ltb_ℤ count (pos 1) || ltb_ℤ (pos 32) count
    then err (failure "count must be between 1 and 32")
    else bulk_loop prefix (bulk_width (pos_part start + pos_part count - 1)) (pos_part count)
        (pos_part start) []
