-- ===== src/Tests/Init.antt =====
-- Runs of init and of the PreRunE of imported commands.
use talm.Base.FilePath.{join}
use talm.Base.{List, if◌then◌else◌, ◌≡◌, refl, some, false, [], ◌∷◌}
use talm.Base.Text.{cut, split₂, trim_space, strip_prefix, codes, text_eq}
use talm.Base.Dict.{lookup, insert}
use talm.Base.Result.{ok}
use talm.Json.{unmarshal, escape_char, marshal, items}
use talm.Modeline.{parse_part, parse_modeline, Config, generate_modeline, read_and_parse_modeline}
use talm.Commands.Root.{warned, is_unset, update_globals}
use talm.Commands.Init
use talm.Commands.Init.Laws.{Kept, run-Kept}
use talm.Commands.Imported.{pre_run}
use talm.Commands.Imported.Laws.{ReadAs, all_items, pre_run-eq-ok}
use talm.Tests.Fixtures.{files, files-KeepsFiles}
use talm.Tests.Nodes.{file, world}

abbrev init_flags : Init.Flags
init_flags = record { force = false; preset = codes "generic"; talos_version = []; update = false }

abbrev init_environment : Init.Environment
init_environment = record {
  fs = files;
  root_dir = codes ".";
  version = codes "0.1.0";
  absolute = λ path. ok (codes "/home/cluster");
  sprintf = λ content name version. content;
  preset_files = (codes "generic/values.yaml", codes "v") ∷ [];
  available_presets = codes "generic" ∷ [];
  Contract = Unit;
  Secrets = Unit;
  Bundle = Unit;
  parse_contract_from_version = λ v. ok tt;
  new_secrets = λ c. ok tt;
  marshal_secrets = λ s. ok (codes "secret");
  generate_config_bundle = λ options name endpoint. ok tt;
  set_endpoints = λ name endpoints b. some tt;
  marshal_talosconfig = λ b. ok (codes "context");
}

run-Kept_example : Kept files file world.disk (Init.run init_environment init_flags world).0.disk
unfolding lookup text_eq
run-Kept_example = run-Kept init_environment init_flags files-KeepsFiles file world refl refl refl

-- What init writes.
init_test :
    files.read_file (Init.run init_environment init_flags world).0.disk (codes "values.yaml")
    ≡ ok (codes "v")
unfolding Init.run lookup text_eq join insert cut
init_test = refl

imported : (pre_run files (file ∷ file ∷ []) world).1 ≡ ok tt
unfolding pre_run warned read_and_parse_modeline lookup text_eq generate_modeline marshal
    escape_char parse_modeline strip_prefix trim_space split₂ parse_part cut unmarshal
    update_globals
imported = refl

pre_run-eq-ok_example :
    (cs : List Config) × ReadAs files world.disk (file ∷ file ∷ []) cs
    × (items (pre_run files (file ∷ file ∷ []) world).0.nodes
        ≡ (if is_unset world.nodes then all_items (λ c. c.nodes) cs else items world.nodes))
    × (items (pre_run files (file ∷ file ∷ []) world).0.endpoints ≡ (
        if is_unset world.endpoints
        then all_items (λ c. c.endpoints) cs
        else items world.endpoints))
    × ((pre_run files (file ∷ file ∷ []) world).0.requests ≡ world.requests)
pre_run-eq-ok_example = pre_run-eq-ok files (file ∷ file ∷ []) world imported
