-- ===== src/Prelude/Follows.antt =====
-- Calls that change the state along a relation which is reflexive and transitive.
use mathlib.Core.Bool.{Bool, true, false}
use mathlib.Core.Logic.{inl, inr}
use mathlib.Core.Option.{Option, none, some}
use Prim.Native.String.{String}
use natbox.Prelude.Tests.{if◌then◌else◌}
use natbox.Prelude.Effects.{
  Error, Result, Exec, reject, refuse, attempt, on_error, ◌>>=◌, Result-cases,
}

pub record Follows {S A : Type 0} (R : S → S → Type 0) (m : Exec S A) : Type 0 where
  pub at : (s : S) → R s (m s).1

module _ {S : Type 0} (R : S → S → Type 0) (stay : (s : S) → R s s)
    (chain : (s t u : S) → R s t → R t u → R s u) where
  pub then-Follows :
      {A B : Type 0} (m : Exec S A) (f : A → Exec S B)
      → Follows R m
      → ((a : A) → Follows R (f a))
      → Follows R (m >>= f)
  then-Follows m f km kf = record {
    at = λ s. elim (Result-cases (m s).0) [
      | inl (a, done) ↦ rw done (chain s (m s).1 _ (km.at s) ((kf a).at (m s).1))
      | inr (e, broke) ↦ rw broke (km.at s)
    ];
  }

  pub attempt-Follows :
      {A B : Type 0} (m : Exec S A) (f : Result A → Exec S B)
      → Follows R m
      → ((r : Result A) → Follows R (f r))
      → Follows R (attempt m >>= f)
  unfolding attempt
  attempt-Follows m f km kf = record {
    at = λ s. chain s (m s).1 _ (km.at s) ((kf (m s).0).at (m s).1);
  }

  pub on_error-Follows :
      {A : Type 0} (m : Exec S A) (h : Error → Exec S (Unit {0}))
      → Follows R m
      → ((e : Error) → Follows R (h e))
      → Follows R (on_error m h)
  on_error-Follows m h km kh = record {
    at = λ s. elim (Result-cases (m s).0) [
      | inl (a, done) ↦ rw done (km.at s)
      | inr (e, broke) ↦ rw broke (chain s (m s).1 _ (km.at s) ((kh e).at (m s).1))
    ];
  }

  pub if-Follows :
      {A : Type 0} (b : Bool) (m n : Exec S A)
      → Follows R m
      → Follows R n
      → Follows R (if b then m else n)
  if-Follows true m n km kn = km
  if-Follows false m n km kn = kn

  -- Checks and answers leave the state.
  pub reject-Follows : (b : Bool) (text : String) → Follows R (reject {S = S} b text)
  reject-Follows true text = record { at = stay }
  reject-Follows false text = record { at = stay }

  pub refuse-Follows : (o : Option String) → Follows R (refuse {S = S} o)
  refuse-Follows none = record { at = stay }
  refuse-Follows (some text) = record { at = stay }
