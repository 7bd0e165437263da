-- ===== src/Engine/Render/Laws.antt =====
-- Rendering and applying build the same config, and comments change nothing else.
use talm.Engine.Bundle.Laws.{full_config_process-rebuild_bundle}
use talm.Base.Result.{
  >>=_ok, wrap, Result, wrap-eq-ok, panic, err, exit, >>=-eq-ok, ok, ok_injective,
}
use talm.Base.Text.{Text}
use talm.Base.{refl, ◌≡◌, sym, ap, ◌∙◌, true, false, List, [], ◌∷◌}
use talm.Engine.Bundle.{
  GenOption, Talos, Options, gen_options, initialize_config_bundle, input_options, or_debug,
  known_type, discover, rebuild_bundle, full_config_process,
}
use talm.Engine.Render.{MapCodec, target_config, patched_target, add_comments}
use talm.Yaml.{Node}
use talm.Yaml.Comments.{copy_comments, apply_comments, clear_comments}
use talm.Yaml.Comments.Laws.{clear_comments-apply_comments}
use talm.Yaml.Diff.{Codec}

-- The comments of the patches, whatever they are, change no node of the target but its comments.
pub clear_comments-add_comments :
    (t : Talos) (yaml : Codec) (maps : MapCodec) (patches : List Text) (target : Node) {n : Node}
    → add_comments t yaml maps patches target ≡ ok n
    → clear_comments n ≡ clear_comments target
unfolding add_comments
clear_comments-add_comments t yaml maps [] target h = ap clear_comments (sym (ok_injective _ _ h))
clear_comments-add_comments t yaml maps (patch ∷ patches) target h =
    let (source, _, e) = >>=-eq-ok (yaml.unmarshal patch) _ h in
    let paths = copy_comments source [] [] in
    clear_comments-add_comments t yaml maps patches (apply_comments paths target []) e
    ∙ clear_comments-apply_comments paths target []

-- Options of no debug run, with no cluster name and no endpoint, as both commands pass them.
abbrev pub plain_options : Text → Text → Text → Options
plain_options talos_version with_secrets kubernetes_version = record {
  talos_version = talos_version;
  with_secrets = with_secrets;
  kubernetes_version = kubernetes_version;
  cluster_name = [];
  endpoint = [];
  debug = false;
}

or_debug-eq-ok :
    {A : Type 0} (t : Talos) (o : Options) (patches : List Text) (r : Result A) {a : A}
    → o.debug ≡ false
    → or_debug t o patches r ≡ ok a
    → r ≡ ok a
or_debug-eq-ok t o patches (ok x) d h = h
or_debug-eq-ok t o patches (err e) d h = cc (rw d at h)
or_debug-eq-ok t o patches panic d h = h
or_debug-eq-ok t o patches (exit out) d h = h

module _ (t : Talos) (v s k : Text) (patches : List Text) where
  abbrev o : Options
  o = plain_options v s k

  new_of_initialize :
      (gen : List (GenOption t.Contract t.Secrets)) (n e : Text) (b : t.Bundle)
      → gen_options t v s ≡ ok gen
      → initialize_config_bundle t (record o { cluster_name = n; endpoint = e }) ≡ ok b
      → t.new_bundle (input_options t n e k gen) ≡ ok b
  unfolding initialize_config_bundle
  new_of_initialize gen n e b g h = rw g at h

  -- The steps of a discovery that succeeds.
  record Discovered (loaded : List t.Patch) (patched : t.Bundle) : Type 0 where
    gen : List (GenOption t.Contract t.Secrets)
    first : t.Bundle
    generated : gen_options t v s ≡ ok gen
    made : t.new_bundle (input_options t [] [] k gen) ≡ ok first
    loads : t.load_patches patches ≡ ok loaded
    applied : t.apply_patches loaded true false first ≡ ok patched

  discover-Discovered :
      (loaded : List t.Patch) (patched : t.Bundle)
      → discover t o patches ≡ ok (loaded, patched)
      → Discovered loaded patched
  unfolding discover
  discover-Discovered loaded patched h =
      let (first, m, h₁) = >>=-eq-ok (wrap _ _ (initialize_config_bundle t o)) _ h in
      let made = (wrap-eq-ok _ _ _).0 m in
      let (gen, g, _) = >>=-eq-ok (gen_options t v s) _ (unfold initialize_config_bundle in made) in
      let (ps, l, h₂) = >>=-eq-ok (or_debug t o patches (t.load_patches patches)) _ h₁ in
      let (b, a, same) =
        >>=-eq-ok (or_debug t o patches (wrap _ _ (t.apply_patches ps true false first))) _ h₂ in
      let both = ok_injective _ _ same in
      record {
        gen = gen;
        first = first;
        generated = g;
        made = new_of_initialize gen [] [] first g made;
        loads =
            or_debug-eq-ok t o patches _ refl l ∙ ap (λ (p : List t.Patch × t.Bundle). ok p.0) both;
        applied =
            ap (λ (p : List t.Patch × t.Bundle). t.apply_patches p.0 true false first) (sym both)
            ∙ (wrap-eq-ok _ _ _).0 (or_debug-eq-ok t o patches _ refl a)
            ∙ ap (λ (p : List t.Patch × t.Bundle). ok p.1) both;
      }

  rebuilt :
      (gen : List (GenOption t.Contract t.Secrets)) (loaded : List t.Patch) (patched b : t.Bundle)
      (m : t.Machine)
      → gen_options t v s ≡ ok gen
      → rebuild_bundle t o loaded m patched ≡ ok b
      → (second : t.Bundle) × (t.new_bundle
            (input_options t (t.cluster_name patched) (t.endpoint patched) k gen)
          ≡ ok second)
        × (t.apply_patches loaded
              (t.same_machine m t.type_control_plane)
              (t.same_machine m t.type_worker)
              second
            ≡ ok b)
  unfolding rebuild_bundle
  rebuilt gen loaded patched b m g h =
      let (second, made, e) = >>=-eq-ok (wrap _ _ (initialize_config_bundle t _)) _ h in
      (
        second,
        new_of_initialize gen _ _ second g ((wrap-eq-ok _ _ _).0 made),
        (wrap-eq-ok _ _ _).0 e,
      )

-- With `--full` what `template` renders is the config of the bundle that `apply` builds from the
-- same options and patches, if that bundle can be built.
pub target_config-full_config_process :
    (t : Talos) (yaml : Codec) (maps : MapCodec) (v s k : Text) (patches : List Text)
    (loaded : List t.Patch) (patched b : t.Bundle)
    → discover t (plain_options v s k) patches ≡ ok (loaded, patched)
    → full_config_process t (plain_options v s k) patches ≡ ok b
    → target_config t yaml maps true (plain_options v s k) patches
      ≡ t.serialize (known_type t (t.machine_type patched)) b
unfolding target_config patched_target
target_config-full_config_process t yaml maps v s k patches loaded patched b found h =
    let d = discover-Discovered t v s k patches loaded patched found in
    let same =
      full_config_process-rebuild_bundle t (plain_options v s k) patches loaded patched refl
        found in
    let (second, made, applied) =
      rebuilt t v s k patches d.gen loaded patched b _ d.generated (sym same ∙ h) in
    rw (d.generated, d.made, d.loads, d.applied, made, applied, >>=_ok)
