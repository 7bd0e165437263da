-- ===== src/Commands/Init.antt =====
-- pkg/commands/init.go. The secrets, the generated configs, the absolute path of the root and
-- `fmt.Sprintf` on a preset's text are parameters; so are the generated presets, in the order in which
-- the loop over the map meets them.
pub mod Laws
use talm.Base.{
  Bool, true, false, not, ◌&&◌, if◌then◌else◌, List, [], ◌∷◌, ◌++◌, Option, none, some, is_nil,
}
use talm.Base.Text.{Text, codes, text_eq, cut}
use talm.Base.Dict.{Dict, lookup}
use talm.Base.FilePath.{join, base, dir}
use talm.Base.Result.{Error, Result, ok, err, panic, exit, wrap, errorf, or_panic, from_option}
use talm.Engine.Bundle.{GenOption, with_version_contract, with_secrets_bundle}
use talm.Commands.Root.{TemplateOptions}
use talm.Commands.{◌>>=◌, ◌>>◌, FileSystem, Command, done, fail, lift, on_disk}

-- `initCmdFlags`
pub record Flags : Type 0 where
  pub force : Bool
  pub preset : Text
  pub talos_version : Text
  pub update : Bool

-- The flag for the Talos version, or the configuration's where it is not changed.
unfoldable pub pre_run : Bool → TemplateOptions → Flags → Flags
pre_run changed c f = record f {
  talos_version = if changed then f.talos_version else c.talos_version;
}

-- What init runs in. `version` and `root_dir` are the configuration's; `set_endpoints` changes the
-- endpoints of a context of the talosconfig, which may be missing.
pub record Environment : Type 1 where
  pub fs : FileSystem
  pub root_dir : Text
  pub version : Text
  pub absolute : Text → Result Text
  pub sprintf : Text → Text → Text → Text
  pub preset_files : Dict Text
  pub available_presets : List Text
  pub Contract : Type 0
  pub Secrets : Type 0
  pub Bundle : Type 0
  pub parse_contract_from_version : Text → Result Contract
  pub new_secrets : Option Contract → Result Secrets
  pub marshal_secrets : Secrets → Result Text
  pub generate_config_bundle : List (GenOption Contract Secrets) → Text → Text → Result Bundle
  pub set_endpoints : Text → List Text → Bundle → Option Bundle
  pub marshal_talosconfig : Bundle → Result Text

unfoldable pub is_valid_preset : Text → List Text → Bool
is_valid_preset preset [] = false
is_valid_preset preset (p ∷ presets) =
    if text_eq preset p then true else is_valid_preset preset presets

-- `strings.SplitN(path, "/", 2)`: the first part, the parts behind it and the last part.
unfoldable pub split_chart : Text → Text × List Text × Text
split_chart path = elim (cut b'/' path) [
  | none ↦ (path, [], path)
  | some (chart, file) ↦ (chart, file ∷ [], file)
]

-- A dropped error: the step's changes stay.
abbrev pub dropped : {D A : Type 0} → Command D A → Command D (Unit {0})
dropped c w = ((c w).0, ok tt)

abbrev pub library_name : Text
library_name = codes "talm"

abbrev pub chart_yaml : Text
chart_yaml = codes "Chart.yaml"

abbrev some_of : {A : Type 0} → Result A → Result (Option A)
some_of (ok a) = ok (some a)
some_of (err x) = err x
some_of panic = panic
some_of (exit out) = exit out

abbrev pub already_exists : Text → Error
already_exists file =
    errorf
      "file %q already exists, use --force to overwrite, and --update to update Talm library chart only"
      (file ∷ [])

module _ (e : Environment) (f : Flags) where
  unfoldable pub validate_file_exists : Text → Command e.fs.Disk (Unit {0})
  validate_file_exists file w =
      if not f.force && e.fs.exists w.disk file then fail (already_exists file) w else done tt w

  abbrev pub make_dir : Text → Command e.fs.Disk (Unit {0})
  make_dir path w = (
    record w { disk = (e.fs.mkdir_all path w.disk).0 },
    wrap "failed to create output dir: %w" [] (e.fs.mkdir_all path w.disk).1,
  )

  unfoldable pub write_to_destination : Text → Text → Command e.fs.Disk (Unit {0})
  unfolding validate_file_exists
  write_to_destination content destination = do
    validate_file_exists destination
    make_dir (dir destination)
    on_disk (e.fs.write_file destination content)

  -- A file of a chart; the error of a Chart.yaml is dropped.
  unfoldable pub write_chart_file : Text → Text → Text → Text → Command e.fs.Disk (Unit {0})
  unfolding write_to_destination
  write_chart_file name last content file =
      if text_eq last chart_yaml
      then dropped (write_to_destination (e.sprintf content name e.version) file)
      else write_to_destination content file

  unfoldable pub write_preset_file :
      Text → Text × List Text × Text → Text → Command e.fs.Disk (Unit {0})
  unfolding write_chart_file
  write_preset_file cluster_name (chart, file, last) content =
      if text_eq chart f.preset
      then write_chart_file cluster_name last content (join (e.root_dir ∷ join file ∷ []))
      else done tt

  unfoldable pub write_library_file :
      Text → Text × List Text × Text → Text → Command e.fs.Disk (Unit {0})
  unfolding write_chart_file
  write_library_file path (chart, file, last) content =
      if text_eq chart library_name
      then write_chart_file library_name last content
          (join (e.root_dir ∷ join (codes "charts" ∷ path ∷ []) ∷ []))
      else done tt

  unfoldable pub write_presets : Text → Dict Text → Command e.fs.Disk (Unit {0})
  unfolding write_preset_file write_library_file split_chart
  write_presets cluster_name [] = done tt
  write_presets cluster_name ((path, content) ∷ files) = do
    write_preset_file cluster_name (split_chart path) content
    write_library_file path (split_chart path) content
    write_presets cluster_name files

  unfoldable pub write_library : Dict Text → Command e.fs.Disk (Unit {0})
  unfolding write_library_file split_chart
  write_library [] = done tt
  write_library ((path, content) ∷ files) = do
    write_library_file path (split_chart path) content
    write_library files

  abbrev remove_chart : Text → Command e.fs.Disk (Unit {0})
  remove_chart path w = (
    record w { disk = (e.fs.remove_all path w.disk).0 },
    wrap "failed to remove existing talm chart directory: %w" [] (e.fs.remove_all path w.disk).1,
  )

  abbrev talm_chart_dir : Text
  talm_chart_dir = join (e.root_dir ∷ codes "charts/talm" ∷ [])

  unfoldable pub update_talm_library_chart : Command e.fs.Disk (Unit {0})
  unfolding write_to_destination write_library
  update_talm_library_chart = do
    remove_chart talm_chart_dir
    content ← lift (
        from_option (errorf "talm chart preset not found" [])
          (lookup (codes "talm/Chart.yaml") e.preset_files))
    write_to_destination (e.sprintf content library_name e.version)
        (join (talm_chart_dir ∷ chart_yaml ∷ []))
    remove_chart talm_chart_dir
    write_library e.preset_files

  unfoldable pub write_secrets_bundle_to_file : e.Secrets → Command e.fs.Disk (Unit {0})
  unfolding validate_file_exists write_to_destination
  write_secrets_bundle_to_file bundle = do
    bytes ← lift (e.marshal_secrets bundle)
    validate_file_exists (join (e.root_dir ∷ codes "secrets.yaml" ∷ []))
    write_to_destination bytes (join (e.root_dir ∷ codes "secrets.yaml" ∷ []))

  -- The version contract of the flag, if it is given.
  unfoldable pub version_contract : Result (Option e.Contract)
  version_contract =
      if is_nil f.talos_version
      then ok none
      else some_of
          (wrap "invalid talos-version: %w" [] (e.parse_contract_from_version f.talos_version))

  abbrev contract_options : Option e.Contract → List (GenOption e.Contract e.Secrets)
  contract_options none = []
  contract_options (some c) = with_version_contract c ∷ []

  unfoldable pub require_preset : Command e.fs.Disk (Unit {0})
  unfolding is_valid_preset
  require_preset =
      if is_valid_preset f.preset e.available_presets
      then done tt
      else fail
          (errorf "invalid preset: %s. Valid presets are: %s" (f.preset ∷ e.available_presets))

  -- The bundle is used before its error is looked at.
  unfoldable pub talosconfig_bundle : List (GenOption e.Contract e.Secrets) → Text → Result e.Bundle
  talosconfig_bundle options cluster_name =
      elim (e.generate_config_bundle options cluster_name (codes "https://192.168.0.1:6443")) [
        | ok b ↦ or_panic (e.set_endpoints cluster_name (codes "127.0.0.1" ∷ []) b)
        | err _ ↦ panic
        | panic ↦ panic
        | exit out ↦ exit out
      ]

  unfoldable pub init : Command e.fs.Disk (Unit {0})
  unfolding version_contract require_preset write_secrets_bundle_to_file talosconfig_bundle
      write_presets
  init = do
    version ← lift version_contract
    secrets ← lift (wrap "failed to create secrets bundle: %w" [] (e.new_secrets version))
    require_preset
    write_secrets_bundle_to_file secrets
    path ← lift (e.absolute e.root_dir)
    bundle ← lift (
        talosconfig_bundle (contract_options version ++ with_secrets_bundle secrets ∷ [])
          (base path))
    talosconfig ← lift (wrap "failed to marshal config: %+v" [] (e.marshal_talosconfig bundle))
    write_to_destination talosconfig (join (e.root_dir ∷ codes "talosconfig" ∷ []))
    write_presets (base path) e.preset_files

  unfoldable pub run : Command e.fs.Disk (Unit {0})
  unfolding init update_talm_library_chart
  run = if f.update then update_talm_library_chart else init
