-- ===== src/Engine/Render.antt =====
-- applyPatchesAndRenderConfig. YAML documents are decoded to nodes and to maps by parameters.
pub mod Laws
use talm.Base.Result.{◌>>=◌, ok, Result}
use talm.Base.Text.{codes, Text}
use talm.Base.{Bool, true, false, Option, none, some, List, [], ◌∷◌, if◌then◌else◌}
use talm.Engine.Values.{text, table, Fields, end, get, put, table_of}
use talm.Engine.Bundle.{
  GenOption, Talos, Options, gen_options, input_options, or_debug, debug_phase, known_type,
}
use talm.Yaml.{Node}
use talm.Yaml.Comments.{copy_comments, apply_comments}
use talm.Yaml.Diff.{Codec, diff_yamls}

-- `yaml.Unmarshal` into a map, and `yaml.Marshal` of one
pub record MapCodec : Type 0 where
  pub unmarshal_map : Text → Result Fields
  pub marshal_map : Fields → Result Text

-- A map below a key, changed in place if it is one.
abbrev pub change_table : Text → (Fields → Fields) → Fields → Fields
change_table key f m = elim (table_of (get key m)) [ none ↦ m | some n ↦ put key (table (f n)) m ]

abbrev pub table_or_new : Option Fields → Fields
table_or_new none = end
table_or_new (some m) = m

-- The fields that are overwritten so that the diff keeps them.
unfoldable pub overwrite_cluster : Fields → Fields
overwrite_cluster cluster =
    let named = put (codes "clusterName") (text []) cluster in
    put (codes "controlPlane")
      (table (
        put (codes "endpoint") (text [])
          (table_or_new (table_of (get (codes "controlPlane") named)))))
      named

unfoldable pub overwrite_fields : Fields → Fields
unfolding overwrite_cluster
overwrite_fields config =
    change_table (codes "cluster") overwrite_cluster
      (change_table (codes "machine") (put (codes "type") (text (codes "unknown"))) config)

module _ (t : Talos) (yaml : Codec) (maps : MapCodec) where
  unfoldable pub overwrite_origin : Text → Result Text
  unfolding overwrite_fields
  overwrite_origin origin = do
    config ← maps.unmarshal_map origin
    maps.marshal_map (overwrite_fields config)

  -- The config that the comments go onto: whole, or as the difference to the config without patches.
  unfoldable pub patched_target :
      Bool
      → Options
      → List (GenOption t.Contract t.Secrets)
      → List t.Patch
      → t.Machine
      → t.Bundle
      → Result Text
  patched_target full o gen loaded m patched = do
    second ←
        t.new_bundle
          (input_options t (t.cluster_name patched) (t.endpoint patched) o.kubernetes_version gen)
    origin ← if full then ok [] else (t.serialize m second >>= overwrite_origin)
    final ←
        t.apply_patches loaded (t.same_machine m t.type_control_plane)
          (t.same_machine m t.type_worker) second
    config ← t.serialize m final
    if full then ok config else diff_yamls yaml origin config

  unfoldable pub target_config : Bool → Options → List Text → Result Text
  target_config full o patches = do
    gen ← gen_options t o.talos_version o.with_secrets
    first ← t.new_bundle (input_options t [] [] o.kubernetes_version gen)
    loaded ← or_debug t o patches (t.load_patches patches)
    patched ← or_debug t o patches (t.apply_patches loaded true false first)
    let m = known_type t (t.machine_type patched)
    if o.debug
        then debug_phase t o patches (t.cluster_name patched) (t.endpoint patched) m
        else patched_target full o gen loaded m patched

  -- The comments of each patch, from its own text, onto the target.
  unfoldable pub add_comments : List Text → Node → Result Node
  add_comments [] target = ok target
  add_comments (patch ∷ patches) target = do
    source ← yaml.unmarshal patch
    add_comments patches (apply_comments (copy_comments source [] []) target [])

  unfoldable pub apply_patches_and_render_config : Bool → Options → List Text → Result Text
  unfolding target_config add_comments copy_comments apply_comments
  apply_patches_and_render_config full o patches = do
    target ← target_config full o patches
    node ← yaml.unmarshal target
    commented ← add_comments patches node
    yaml.encode commented
