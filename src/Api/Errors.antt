-- ===== src/Api/Errors.antt =====
-- main.go: classifyError.
use natbox.Prelude.{
  ℕ, Bool, true, false, ◌||◌, String, List, [], ◌∷◌, any, if◌then◌else◌, contains, to_lower, Error,
  no_rows, failure, error_text,
}

abbrev pub is_no_rows : Error → Bool
is_no_rows no_rows = true
is_no_rows (failure text) = false

-- One of the markers is in the text.
abbrev marked : String → List String → Bool
marked text markers = any (λ marker. contains text marker) markers

abbrev pub conflict_markers : List String
conflict_markers = "already exists" ∷ "already assigned" ∷ "duplicate" ∷ "conflict" ∷ []

abbrev pub invalid_markers : List String
invalid_markers =
    "required" ∷ "invalid" ∷ "must be" ∷ "between" ∷ "unsupported" ∷ "confirm must" ∷ "one line"
    ∷ []

-- The HTTP status and code of an error. Errors that wrap sql.ErrNoRows do not occur.
unfoldable pub classify_error : Error → ℕ × String
unfolding contains to_lower error_text
classify_error e =
    let message = to_lower (error_text e) in
    if is_no_rows e || contains message "not found" || contains message "not managed"
    then (404, "not_found")
    else if marked message conflict_markers
    then (409, "conflict")
    else if marked message invalid_markers
    then (400, "invalid_request")
    else if contains message "incus "
        || contains message "runtime "
        || contains message "waiting for"
    then (502, "runtime_error")
    else (500, "internal_error")
