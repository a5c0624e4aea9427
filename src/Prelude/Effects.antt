-- ===== src/Prelude/Effects.antt =====
-- Go's error values, and functions that return `(value, error)` while they change a state.
use Prim.Native.String.{String}
use mathlib.Core.Path.{◌≡◌, refl, ◌∙◌}
use mathlib.Core.Bool.{Bool, true, false}
use mathlib.Core.Logic.{◌⊎◌, inl, inr}
use mathlib.Core.Option.{Option, none, some}

-- `no_rows` is sql.ErrNoRows; every other error is known by its text alone.
pub data Error : Type 0 where
  no_rows : Error
  failure : String → Error

-- err.Error()
unfoldable pub error_text : Error → String
error_text no_rows = "sql: no rows in result set"
error_text (failure text) = text

pub data Result {ℓ} (A : Type ℓ) : Type ℓ where
  ok : A → Result A
  err : Error → Result A

-- What was changed before an error stays changed, so the state comes back beside the error too.
abbrev pub Exec {ℓ} : Type ℓ → Type ℓ → Type ℓ
Exec S A = S → Result A × S

abbrev pub pure {ℓ} : {S A : Type ℓ} → A → Exec S A
pure a s = (ok a, s)

abbrev pub fail {ℓ} : {S A : Type ℓ} → Error → Exec S A
fail e s = (err e, s)

abbrev pub continue {ℓ} : {S A B : Type ℓ} → Result A → (A → Exec S B) → Exec S B
continue (ok a) f s = f a s
continue (err e) f s = (err e, s)

infixl 5 ◌>>=◌ ◌>>◌
abbrev pub ◌>>=◌ {ℓ} : {S A B : Type ℓ} → Exec S A → (A → Exec S B) → Exec S B
◌>>=◌ m f s = let (r, s') = m s in continue r f s'

abbrev pub ◌>>◌ {ℓ} : {S A B : Type ℓ} → Exec S A → Exec S B → Exec S B
m >> n = m >>= λ _. n

-- `if test { return error }`
abbrev pub reject : {S : Type 0} → Bool → String → Exec S (Unit {0})
reject true text s = (err (failure text), s)
reject false text s = (ok tt, s)

-- `x, err := m()` where the error is looked at and not returned.
unfoldable pub attempt {ℓ} : {S A : Type ℓ} → Exec S A → Exec S (Result A)
attempt m s = let (r, s') = m s in (ok r, s')

pub Result-cases {ℓ} :
    {A : Type ℓ} (r : Result A) → ((a : A) × (r ≡ ok a)) ⊎ ((e : Error) × (r ≡ err e))
Result-cases (ok a) = inl (a, refl)
Result-cases (err e) = inr (e, refl)

-- A validation: it succeeds or fails, and leaves the state.
abbrev pub Checks : {S : Type 0} → Exec S (Unit {0}) → Type 0
Checks {S} m = (s : S) → (m s ≡ (ok tt, s)) ⊎ ((e : Error) × (m s ≡ (err e, s)))

pub reject-Checks : {S : Type 0} (b : Bool) (text : String) → Checks (reject {S = S} b text)
reject-Checks true text s = inr (failure text, refl)
reject-Checks false text s = inl refl

pub then-Checks : {S : Type 0} (m n : Exec S (Unit {0})) → Checks m → Checks n → Checks (m >> n)
then-Checks m n cm cn s = elim (cm s) [
  | inl passed ↦ rw passed (cn s)
  | inr (e, refused) ↦ rw refused (inr (e, refl))
]

-- The error of a pure validation, if it has one, is returned.
abbrev pub refuse : {S : Type 0} → Option String → Exec S (Unit {0})
refuse none = pure tt
refuse (some text) = fail (failure text)

pub refuse-Checks : {S : Type 0} (o : Option String) → Checks (refuse {S = S} o)
refuse-Checks none s = inl refl
refuse-Checks (some text) s = inr (failure text, refl)

-- Where a call failed, `h` is run for its effect and the call's error returned.
abbrev pub recovered : {S A : Type 0} → (Error → Exec S (Unit {0})) → Result A → S → Result A × S
recovered h (ok a) s = (ok a, s)
recovered h (err e) s = (err e, (h e s).1)

abbrev pub on_error : {S A : Type 0} → Exec S A → (Error → Exec S (Unit {0})) → Exec S A
on_error m h s = let (r, s') = m s in recovered h r s'

-- What `view` shows of the state is left as it is.
abbrev pub Stays : {S X A : Type 0} → (S → X) → Exec S A → Type 0
Stays {S} view m = (s : S) → view (m s).1 ≡ view s

pub then-Stays :
    {S X A B : Type 0} (view : S → X) (m : Exec S A) (f : A → Exec S B)
    → Stays view m
    → ((a : A) → Stays view (f a))
    → Stays view (m >>= f)
then-Stays view m f km kf s = elim (Result-cases (m s).0) [
  | inl (a, done) ↦ rw done (kf a (m s).1 ∙ km s)
  | inr (e, broke) ↦ rw broke (km s)
]

pub attempt-Stays :
    {S X A B : Type 0} (view : S → X) (m : Exec S A) (f : Result A → Exec S B)
    → Stays view m
    → ((r : Result A) → Stays view (f r))
    → Stays view (attempt m >>= f)
unfolding attempt
attempt-Stays view m f km kf s = kf (m s).0 (m s).1 ∙ km s
