-- ===== src/Tests/Paths.antt =====
-- Paths as package path/filepath joins and splits them.
use talm.Base.{◌≡◌, refl, [], ◌∷◌}
use talm.Base.Text.{codes}
use talm.Base.FilePath.{base, join, dir}

base-join_test : base (codes "/a/b.yaml/") ≡ codes "b.yaml"
unfolding base
base-join_test = refl

join_test :
    join (codes "talm" ∷ [] ∷ codes "../x/./templates//a.yaml" ∷ []) ≡ codes "x/templates/a.yaml"
unfolding join
join_test = refl

dir_test : dir (codes "out/charts/talm/Chart.yaml") ≡ codes "out/charts/talm"
unfolding dir
dir_test = refl
