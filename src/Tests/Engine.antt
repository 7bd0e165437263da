-- ===== src/Tests/Engine.antt =====
-- Values, bundles and templates at small inputs.
use talm.Engine.Lookup.{Callback, Resource, found, failed, with_yaml, resources, lookup_function}
use talm.Engine.Lookup.Laws.{item_key, item_at, get-lookup_function}
use talm.Base.{arith, ◌≡◌, refl, some, true, inr, List, [], ◌∷◌}
use talm.Base.Text.{Text, codes, text_eq}
use talm.Base.Dict.{insert, lookup}
use talm.Base.Result.{ok, errorf}
use talm.Engine.Values.{Fields, end, field, text, table, get, put, merge_maps}
use talm.Engine.Values.Laws.{
  IsMap, get_path, get_path-merge_maps_override, get_path-merge_maps_kept,
}
use talm.Engine.Load.{load_values}
use talm.Engine.Load.Laws.{load_values-last_file}
use talm.Engine.Bundle.{rebuild_bundle, discover, known_type, full_config_process}
use talm.Engine.Bundle.Laws.{machine_type-full_config_process}
use talm.Engine.Render.{target_config, add_comments}
use talm.Engine.Render.Laws.{
  plain_options, target_config-full_config_process, clear_comments-add_comments,
}
use talm.Engine.Template.{requested}
use talm.Engine.Template.Laws.{Rendered, requested-Rendered}
use talm.Yaml.{Node, Remarks, node, document, scalar, nil, cons, no_attributes, no_remarks}
use talm.Yaml.Comments.{child_path, apply_remarks, clear_comments, apply_comments, copy_comments}
use mathlib.Core.List.{Permᴰ}
use talm.Helm.Sort.{sort_templates}
use talm.Helm.Sort.Laws.{IsSorted, sort_templates-IsSorted, sort_templates_perm}
use talm.Tests.Fixtures.{
  small_talos, small_talos-IsTalos, small_yaml, small_maps, small_sources, rendered_texts,
}

-- `{a: {b: x}, c: y}` and `{a: {d: z}}`
abbrev base_map : Fields
base_map =
    field (codes "a") (table (field (codes "b") (text (codes "x")) end))
      (field (codes "c") (text (codes "y")) end)

abbrev override : Fields
override = field (codes "a") (table (field (codes "d") (text (codes "z")) end)) end

override-IsMap : IsMap override
unfolding IsMap get
override-IsMap = (refl, (refl, tt, tt), tt)

get_path-merge_maps_override_example :
    get_path (codes "a") (codes "d" ∷ []) (merge_maps base_map override) ≡ some (text (codes "z"))
unfolding get text_eq
get_path-merge_maps_override_example =
    get_path-merge_maps_override (codes "d" ∷ []) (codes "a") base_map override (text (codes "z"))
      override-IsMap refl refl

get_path-merge_maps_kept_example :
    get_path (codes "a") (codes "b" ∷ []) (merge_maps base_map override) ≡ some (text (codes "x"))
unfolding get text_eq
get_path-merge_maps_kept_example =
    get_path-merge_maps_kept (codes "b" ∷ []) (codes "a") base_map override (text (codes "x"))
      override-IsMap refl (inr (field (codes "d") (text (codes "z")) end, refl, refl))

abbrev one_value : Fields
one_value = field (codes "f") (text (codes "1")) end

one_value-IsMap : IsMap one_value
unfolding IsMap get
one_value-IsMap = (refl, tt, tt)

load_values-last_file_example :
    get_path
      (codes "f")
      []
      (field (codes "e") (text (codes "1")) (field (codes "f") (text (codes "1")) end))
    ≡ some (text (codes "1"))
unfolding load_values merge_maps get text_eq put
load_values-last_file_example =
    load_values-last_file small_sources (codes "e" ∷ []) (codes "f") (codes "f") (codes "f") []
      one_value (text (codes "1")) refl refl refl one_value-IsMap refl refl

abbrev worker_patches : List Text
worker_patches = codes "@worker.yaml" ∷ []

machine_type-full_config_process_example : small_talos.machine_type (2, codes "bw") ≡ 2
unfolding discover full_config_process text_eq known_type rebuild_bundle
machine_type-full_config_process_example =
    machine_type-full_config_process small_talos small_talos-IsTalos (plain_options [] [] [])
      worker_patches worker_patches (1, codes "bp") (2, codes "bw") refl refl refl refl

target_config-full_config_process_example :
    target_config small_talos small_yaml small_maps true (plain_options [] [] []) worker_patches
    ≡ ok (codes "bw")
unfolding discover full_config_process text_eq rebuild_bundle known_type
target_config-full_config_process_example =
    target_config-full_config_process small_talos small_yaml small_maps [] [] [] worker_patches
      worker_patches (1, codes "bp") (2, codes "bw") refl refl

abbrev page : Text → Remarks → Node
page v r = node document [] no_attributes no_remarks (cons (node scalar v no_attributes r nil) nil)

-- The comment of the patch is on the target.
clear_comments-add_comments_example :
    clear_comments (page (codes "p") (record { head = codes "p"; line = []; foot = [] }))
    ≡ clear_comments (page (codes "p") no_remarks)
unfolding add_comments apply_comments apply_remarks lookup copy_comments insert text_eq child_path
clear_comments-add_comments_example =
    clear_comments-add_comments small_talos small_yaml small_maps (codes "p" ∷ [])
      (page (codes "p") no_remarks) refl

requested-Rendered_example :
    Rendered (codes "c") rendered_texts (codes "b.yaml" ∷ []) (codes "y" ∷ [])
unfolding requested lookup
requested-Rendered_example =
    (requested-Rendered (codes "c") rendered_texts (codes "b.yaml" ∷ []) (codes "y" ∷ [])).0 refl

abbrev keys : List Text
keys = codes "a" ∷ (codes "c/d" ∷ (codes "b" ∷ []))

sort_templates-IsSorted_example : IsSorted (sort_templates keys) × Permᴰ (sort_templates keys) keys
sort_templates-IsSorted_example = sort_templates-IsSorted keys

sort_templates_perm_example :
    sort_templates (codes "a" ∷ (codes "c/d" ∷ []))
    ≡ sort_templates (codes "c/d" ∷ (codes "a" ∷ []))
sort_templates_perm_example = sort_templates_perm (Permᴰ.swap refl refl)

abbrev disk_resource : Text → Resource
disk_resource size = record {
  metadata = field (codes "kind") (text (codes "disk")) end;
  spec = with_yaml size;
}

abbrev disk_calls : List Callback
disk_calls =
    found (disk_resource (codes "1"))
    ∷ (failed (errorf "unreachable" []) ∷ (found (disk_resource (codes "2")) ∷ []))

get-lookup_function_example :
    (m : Fields) × (items : Fields) × (lookup_function
        (λ s. ok (text s))
        (λ namespace kind id. ok disk_calls)
        (codes "disks")
        []
        []
      ≡ ok m)
    × (get (codes "items") m ≡ some (table items))
    × (get (item_key 1) items ≡ item_at 1 (resources (λ s. ok (text s)) disk_calls))
unfolding resources
get-lookup_function_example =
    get-lookup_function (λ s. ok (text s)) (λ namespace kind id. ok disk_calls) (codes "disks") []
      [] disk_calls 1 refl refl (omega arith)
