-- ===== src/Base/Result.antt =====
-- Results of fallible code: a value, an error, a panic of the Go runtime, or the end of the process
-- by `os.Exit(0)` behind some output. An error keeps its message pieces: the format string of the source
-- with what it is filled with.
use Prim.Native.String.{String}
use mathlib.Core.Path.{◌≡◌, refl}
use mathlib.Core.Bool.{Bool, true, false}
use mathlib.Core.List.{List, [], ◌∷◌, ◌++◌}
use mathlib.Core.Logic.{◌↔◌}
use mathlib.Core.Option.{Option, none, some}
use talm.Base.Text.{Text, codes}
use talm.Base.Tests.{if◌then◌else◌, ◌==◌}

-- `fmt.Errorf`: the format and its arguments; `wrapped` holds an inner error behind a format.
pub data Error : Type 0 where
  errorf : String → List Text → Error
  wrapped : String → List Text → Error → Error

pub data Result {ℓ} (A : Type ℓ) : Type ℓ where
  ok : A → Result A
  err : Error → Result A
  panic : Result A
  exit : Text → Result A

module _ {ℓ κ} {A : Type ℓ} {B : Type κ} where
  infixl 5 ◌>>=◌
  abbrev pub ◌>>=◌ : Result A → (A → Result B) → Result B
  ok a >>= f = f a
  err e >>= f = err e
  panic >>= f = panic
  exit out >>= f = exit out

  -- What a step and its rest give, the step gave a value for, and the rest gave it from that value.
  pub >>=-eq-ok :
      (step : Result A) (rest : A → Result B) {result : B}
      → (step >>= rest) ≡ ok result
      → (value : A) × (step ≡ ok value) × (rest value ≡ ok result)
  >>=-eq-ok (ok value) rest given = (value, refl, given)
  >>=-eq-ok (err x) rest given = cc
  >>=-eq-ok panic rest given = cc
  >>=-eq-ok (exit out) rest given = cc

-- A format of one-letter verbs, filled in.
abbrev fill : Text → List Text → Text
fill [] args = []
fill (c ∷ []) args = c ∷ []
fill (c ∷ d ∷ s) [] = c ∷ d ∷ s
fill (c ∷ d ∷ s) (arg ∷ args) =
    let filled = fill s args in
    let kept = fill (d ∷ s) (arg ∷ args) in if c == b'%' then arg ++ filled else c ∷ kept

-- `err.Error()`; an inner error is the last argument of its format.
unfoldable pub message : Error → Text
message (errorf format args) = fill (codes format) args
message (wrapped format args e) = fill (codes format) (args ++ message e ∷ [])

-- An error of a callee under the caller's message.
abbrev pub wrap {ℓ} : {A : Type ℓ} → String → List Text → Result A → Result A
wrap format args (ok a) = ok a
wrap format args (err e) = err (wrapped format args e)
wrap format args panic = panic
wrap format args (exit out) = exit out

abbrev pub is_ok {ℓ} : {A : Type ℓ} → Result A → Bool
is_ok (ok a) = true
is_ok (err e) = false
is_ok panic = false
is_ok (exit out) = false

abbrev pub from_option {ℓ} : {A : Type ℓ} → Error → Option A → Result A
from_option e none = err e
from_option e (some a) = ok a

-- What a nil dereference or an index out of range does.
abbrev pub or_panic {ℓ} : {A : Type ℓ} → Option A → Result A
or_panic none = panic
or_panic (some a) = ok a

pub ok_injective {ℓ} : {A : Type ℓ} (a b : A) → ok a ≡ ok b → a ≡ b
ok_injective a b h = cc

pub ok_of_is_ok {ℓ} : {A : Type ℓ} (r : Result A) → is_ok r ≡ true → (a : A) × (r ≡ ok a)
ok_of_is_ok (ok a) h = (a, refl)
ok_of_is_ok (err e) h = cc
ok_of_is_ok panic h = cc
ok_of_is_ok (exit out) h = cc

pub >>=_assoc {ℓ κ ι} :
    {A : Type ℓ} {B : Type κ} {C : Type ι} (m : Result A) (f : A → Result B) (g : B → Result C)
    → ((m >>= f) >>= g) ≡ (m >>= λ a. f a >>= g)
>>=_assoc (ok a) f g = refl
>>=_assoc (err e) f g = refl
>>=_assoc panic f g = refl
>>=_assoc (exit out) f g = refl

-- A wrapped result is a success exactly when the result is.
pub wrap-eq-ok {ℓ} :
    {A : Type ℓ} (format : String) (args : List Text) (r : Result A) {a : A}
    → (wrap format args r ≡ ok a) ↔ (r ≡ ok a)
wrap-eq-ok format args (ok a) = (λ h. h, λ h. h)
wrap-eq-ok format args (err e) = (λ h. cc, λ h. cc)
wrap-eq-ok format args panic = (λ h. cc, λ h. cc)
wrap-eq-ok format args (exit out) = (λ h. cc, λ h. cc)

pub >>=_ok {ℓ} : {A : Type ℓ} (m : Result A) → (m >>= λ a. ok a) ≡ m
>>=_ok (ok a) = refl
>>=_ok (err e) = refl
>>=_ok panic = refl
>>=_ok (exit out) = refl

pub err-ne-ok {ℓ} : {A : Type ℓ} {e : Error} {a : A} → err e ≡ ok a → ⊥
err-ne-ok h = cc
