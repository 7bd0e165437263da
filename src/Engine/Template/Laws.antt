-- ===== src/Engine/Template/Laws.antt =====
-- A successful request has one patch for each template, and a missing template is an error.
use talm.Base.FilePath.{join}
use talm.Base.Result.{>>=-eq-ok, ok, Error, ok_injective, from_option}
use talm.Base.Dict.{Dict, lookup}
use talm.Base.Text.{Text}
use talm.Base.{subst, refl, ◌≡◌, ap, ◌↔◌, Option, none, some, List, [], ◌∷◌}
use talm.Base.FilePath
use talm.Engine.Template.{requested}

-- The patches are the rendered texts of the requested templates, one for each and in their order.
abbrev pub Rendered : Text → Dict Text → List Text → List Text → Type 0
Rendered chart out [] [] = Unit
Rendered chart out [] (p ∷ ps) = ⊥
Rendered chart out (f ∷ fs) [] = ⊥
Rendered chart out (f ∷ fs) (p ∷ ps) =
    (lookup (FilePath.join (chart ∷ f ∷ [])) out ≡ some p) × Rendered chart out fs ps

from_option-eq-ok :
    {A : Type 0} (e : Error) (o : Option A) {a : A} → from_option e o ≡ ok a → o ≡ some a
from_option-eq-ok e none h = cc
from_option-eq-ok e (some a) h = ap some (ok_injective _ _ h)

requested-forth :
    (chart : Text) (out : Dict Text) (files patches : List Text)
    → requested chart out files ≡ ok patches
    → Rendered chart out files patches
unfolding requested
requested-forth chart out [] [] h = tt
requested-forth chart out [] (p ∷ ps) h = cc
requested-forth chart out (f ∷ fs) patches h =
    let (p, e, h1) = >>=-eq-ok (from_option _ (lookup (FilePath.join (chart ∷ f ∷ [])) out)) _ h in
    let (ps, e2, h2) = >>=-eq-ok (requested chart out fs) _ h1 in
    subst (Rendered chart out (f ∷ fs)) (ok_injective _ _ h2)
      (from_option-eq-ok _ _ e, requested-forth chart out fs ps e2)

requested-back :
    (chart : Text) (out : Dict Text) (files patches : List Text)
    → Rendered chart out files patches
    → requested chart out files ≡ ok patches
unfolding requested
requested-back chart out [] [] h = refl
requested-back chart out [] (p ∷ ps) h = absurd h
requested-back chart out (f ∷ fs) [] h = absurd h
requested-back chart out (f ∷ fs) (p ∷ ps) (e, h) = rw (e, requested-back chart out fs ps h)

-- Requested templates are given exactly when all of them were rendered, and then as they were.
pub requested-Rendered :
    (chart : Text) (out : Dict Text) (files patches : List Text)
    → (requested chart out files ≡ ok patches) ↔ Rendered chart out files patches
requested-Rendered chart out files patches =
    (requested-forth chart out files patches, requested-back chart out files patches)
