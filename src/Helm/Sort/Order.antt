-- ===== src/Helm/Sort/Order.antt =====
-- The orders that sortTemplates and package sort promise, without their code.
use talm.Base.{
  ℕ, ◌+◌, ◌<◌, ◌==◌, ◌≡◌, ◌⊎◌, refl, ap, subst, true, false, inl, inr, List, [], ◌∷◌, if◌then◌else◌,
  arith,
}
use talm.Base.Text.{Text, count}
use talm.Helm.Sort.{text_lt, less}

-- Lexicographic order: a text is not behind another one.
pub data LexLe : Text → Text → Type 0 where
  at_end : (t : Text) → LexLe [] t
  smaller : (c d : ℕ) (s t : Text) → c < d → LexLe (c ∷ s) (d ∷ t)
  same : (c : ℕ) (s t : Text) → LexLe s t → LexLe (c ∷ s) (c ∷ t)

-- Each text is followed by none that is before it.
abbrev pub IsAscending : List Text → Type 0
IsAscending [] = Unit
IsAscending (k ∷ []) = Unit
IsAscending (k ∷ j ∷ keys) = LexLe k j × IsAscending (j ∷ keys)

-- The number of directories in a path.
abbrev pub depth : Text → ℕ
depth [] = 0
depth (c ∷ s) = (if c == b'/' then 1 else 0) + depth s

-- `a` is deeper than `b`, or as deep and not before `b`.
abbrev pub DeeperFirst : Text → Text → Type 0
DeeperFirst a b = (depth b < depth a) ⊎ ((depth a ≡ depth b) × LexLe b a)

LexLe-head : (c d : ℕ) (s t : Text) → (c < d) ⊎ ((c ≡ d) × LexLe s t) → LexLe (c ∷ s) (d ∷ t)
LexLe-head c d s t (inl h) = smaller c d s t h
LexLe-head c d s t (inr (e, h)) = subst (λ x. LexLe (c ∷ s) (x ∷ t)) e (same c s t h)

pub text_lt-LexLe : (a b : Text) → text_lt a b ≡ true → LexLe a b
unfolding text_lt
text_lt-LexLe [] t h = at_end t
text_lt-LexLe (c ∷ s) [] h = cc
text_lt-LexLe (c ∷ s) (d ∷ t) h = LexLe-head c d s t (ground (arith, text_lt-LexLe s t))

pub text_ge-LexLe : (a b : Text) → text_lt a b ≡ false → LexLe b a
unfolding text_lt
text_ge-LexLe s [] h = at_end s
text_ge-LexLe [] (d ∷ t) h = cc
text_ge-LexLe (c ∷ s) (d ∷ t) h = LexLe-head d c t s (ground (arith, text_ge-LexLe s t))

depth_lem : (s : Text) → count b'/' s ≡ depth s
unfolding count
depth_lem [] = refl
depth_lem (c ∷ s) = ap (λ n. (if c == b'/' then 1 else 0) + n) (depth_lem s)

pub less-DeeperFirst : (a b : Text) → less a b ≡ false → DeeperFirst a b
unfolding less
less-DeeperFirst a b h = ground (arith, depth_lem a, depth_lem b, text_ge-LexLe a b)
