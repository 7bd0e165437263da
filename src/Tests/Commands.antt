-- ===== src/Tests/Commands.antt =====
-- Runs of the commands on a disk with a node file.
use talm.Engine.Render.{patched_target}
use talm.Base.{List, ◌≡◌, ◌≢◌, refl, some, none, Bool, true, false, [], ◌∷◌, ◌++◌, ◌<◌, arith}
use talm.Base.Text.{cut, split₂, trim_space, strip_prefix, Text, codes, text_eq}
use talm.Base.Dict.{Dict, lookup, insert}
use talm.Base.Result.{message, ok}
use talm.Json.{unmarshal, escape_char, marshal}
use talm.Modeline.{
  parse_part, parse_modeline, Config, generate_modeline, read_and_parse_modeline, max_token,
}
use talm.Modeline.Pairs.{read_pairs}
use talm.Modeline.Generate.{IsPlain}
use talm.Modeline.Laws.{bytes}
use talm.Engine.Load.{ValueOptions}
use talm.Engine.Bundle.{rebuild_bundle, known_type, discover, gen_options, full_config_process}
use talm.Engine.Render.Laws.{plain_options}
use talm.Commands.{World, Request, apply_configuration}
use talm.Commands.NodeConfig.{node_config}
use talm.Commands.NodeConfig.Laws.{node_config-worker}
use talm.Commands.Root.{warned, is_unset, update_globals, process_modeline_and_update_globals}
use talm.Commands.Root.Globals.{Updated, process_modeline-Updated}
use talm.Commands.Template.{Flags, Environment}
use talm.Commands.Template.Files.{round, rounds}
use talm.Commands.Template.Files.Laws.{observed, with_globals, rounds-with_globals}
use talm.Commands.Template.Files.InPlace.{round-read_and_parse_modeline}
use talm.Commands.Apply
use talm.Commands.Apply.AfterTemplate.{round-requests_after_template}
use talm.Commands.Apply.Laws.{round-requests}
use talm.Commands.Apply.Requests.{Applied, run-Applied}
use talm.Tests.Nodes.{nodes, templates, config, file, world}
use talm.Tests.Fixtures.{
  files, files-IsFileSystem, local_clients, small_talos, small_talos-IsTalos, small_yaml,
  small_maps, small_sources, small_charts,
}

abbrev no_values : ValueOptions
no_values = record {
  value_files = [];
  json_values = [];
  values = [];
  string_values = [];
  file_values = [];
  literal_values = [];
}

abbrev template_flags : Flags
template_flags = record {
  insecure = false;
  config_files = file ∷ [];
  value_options = no_values;
  talos_version = [];
  with_secrets = [];
  full = true;
  debug = false;
  offline = false;
  kubernetes_version = [];
  inplace = true;
  nodes_from_args = false;
  endpoints_from_args = false;
  templates_from_args = false;
}

abbrev template_environment : Environment
template_environment = record {
  fs = files;
  clients = local_clients;
  root_dir = codes ".";
  talos = λ disk. small_talos;
  yaml = small_yaml;
  maps = small_maps;
  sources = λ disk. small_sources;
  charts = λ disk cli context. small_charts;
}

some-ne-none : {b : Bool} → some b ≢ none
some-ne-none h = cc

nodes-IsPlain : IsPlain nodes
unfolding read_pairs
nodes-IsPlain = (((refl, tt), tt), (some-ne-none, tt))

templates-IsPlain : IsPlain templates
unfolding read_pairs
templates-IsPlain = (((refl, (refl, (refl, (refl, (refl, (refl, tt)))))), tt), (some-ne-none, tt))

config_found : read_and_parse_modeline (λ path. files.read_file world.disk path) file ≡ ok config
unfolding read_and_parse_modeline generate_modeline lookup text_eq marshal escape_char
    parse_modeline strip_prefix trim_space split₂ parse_part cut unmarshal
config_found = refl

below_limit : bytes (generate_modeline nodes nodes templates) < max_token
unfolding generate_modeline marshal escape_char
below_limit = omega arith

round_ok : (round template_environment template_flags false file world).1 ≡ ok tt
unfolding round read_and_parse_modeline lookup generate_modeline marshal escape_char parse_modeline
    strip_prefix trim_space split₂ parse_part cut unmarshal gen_options patched_target
round_ok = refl

round-read_and_parse_modeline_example :
    read_and_parse_modeline
      (files.read_file (round template_environment template_flags false file world).0.disk)
      file
    ≡ ok config
round-read_and_parse_modeline_example =
    round-read_and_parse_modeline template_environment template_flags file false world config
      files-IsFileSystem (λ output. refl) refl config_found below_limit nodes-IsPlain nodes-IsPlain
      templates-IsPlain round_ok

rounds-with_globals_example :
    observed (rounds template_environment template_flags false (file ∷ []) world)
    ≡ observed (
        rounds template_environment template_flags false
          (file ∷ [])
          (with_globals templates nodes nodes world))
rounds-with_globals_example =
    rounds-with_globals template_environment template_flags false (file ∷ []) templates nodes nodes
      world refl refl refl

abbrev with_endpoints : World (Dict Text)
with_endpoints = record world { nodes = templates; endpoints = templates }

process_modeline-Updated_example :
    Updated false true false config with_endpoints
      (process_modeline_and_update_globals files file false true false with_endpoints)
process_modeline-Updated_example =
    process_modeline-Updated files file false true false with_endpoints config config_found

abbrev worker_file : Text
worker_file = codes "worker.yaml"

node_config-worker_example :
    (b : small_talos.Bundle) × (full_config_process small_talos
        (plain_options [] [] [])
        ((b'@' ∷ worker_file) ∷ [])
      ≡ ok b)
    × (small_talos.serialize small_talos.type_control_plane b ≡ ok (codes "bw"))
unfolding node_config discover text_eq known_type rebuild_bundle
node_config-worker_example =
    node_config-worker small_talos small_talos-IsTalos (plain_options [] [] []) worker_file
      (codes "bw") ((b'@' ∷ worker_file) ∷ []) (1, codes "bp") refl refl refl refl

abbrev apply_flags : Apply.Flags
apply_flags = record {
  mode = codes "auto";
  cert_fingerprints = [];
  insecure = false;
  config_files = file ∷ [];
  talos_version = [];
  with_secrets = [];
  debug = false;
  kubernetes_version = [];
  dry_run = false;
  preserve = false;
  stage = false;
  force = false;
  config_try_timeout = codes "1m";
  nodes_from_args = false;
  endpoints_from_args = false;
}

abbrev apply_environment : Apply.Environment
apply_environment = record {
  fs = files;
  clients = local_clients;
  talos = λ disk. small_talos;
  answer = λ cli context result mode dry_run timeout. ok (codes "applied");
}

applied : (Apply.round apply_environment apply_flags file world).1 ≡ ok tt
unfolding Apply.round read_and_parse_modeline lookup text_eq generate_modeline marshal escape_char
    parse_modeline strip_prefix trim_space split₂ parse_part cut unmarshal update_globals discover
    rebuild_bundle warned
applied = refl

round-requests_example :
    (c : Config) × (result : Text) × (read_and_parse_modeline (files.read_file world.disk) file
      ≡ ok c)
    × (node_config small_talos (Apply.engine_options apply_flags) file ≡ ok result)
    × (is_unset (update_globals false false true c world).nodes ≡ false)
    × ((Apply.round apply_environment apply_flags file world).0.requests
        ≡ apply_configuration (update_globals false false true c world).nodes result ∷ [])
    × ((Apply.round apply_environment apply_flags file world).0.nodes ≡ some [])
    × ((Apply.round apply_environment apply_flags file world).0.disk ≡ world.disk)
round-requests_example = round-requests apply_environment apply_flags file world refl applied

abbrev two_files : Apply.Flags
two_files = record apply_flags { config_files = file ∷ file ∷ [] }

all_applied : (Apply.run apply_environment two_files world).1 ≡ ok tt
unfolding Apply.run Apply.rounds read_and_parse_modeline lookup text_eq generate_modeline marshal
    escape_char parse_modeline strip_prefix trim_space split₂ parse_part cut unmarshal
    update_globals discover rebuild_bundle warned
all_applied = refl

run-Applied_example :
    (sent : List Request) × ((Apply.run apply_environment two_files world).0.requests ≡ sent ++ [])
    × Applied apply_environment two_files world.disk none (file ∷ file ∷ []) sent
run-Applied_example = run-Applied apply_environment two_files world refl refl all_applied

-- The warning about a file that is not there.
warning_test :
    (process_modeline_and_update_globals files (codes "no") false false true world).0.out
    ≡ codes "Warning: modeline parsing failed: error opening config file: no such file\n"
unfolding process_modeline_and_update_globals warned read_and_parse_modeline lookup text_eq message
warning_test = refl

-- The disk behind template, in the state that another run begins with.
abbrev templated : World (Dict Text)
templated = record world {
  disk = (round template_environment template_flags false file world).0.disk;
}

applied_after : (Apply.round apply_environment apply_flags file templated).1 ≡ ok tt
unfolding Apply.round round read_and_parse_modeline lookup text_eq generate_modeline marshal
    escape_char parse_modeline strip_prefix trim_space split₂ parse_part cut unmarshal gen_options
    patched_target update_globals discover rebuild_bundle warned insert
applied_after = refl

round-requests_after_template_example :
    (result : Text) × (node_config small_talos (Apply.engine_options apply_flags) file ≡ ok result)
    × ((Apply.round apply_environment apply_flags file templated).0.requests
        ≡ apply_configuration nodes result ∷ [])
round-requests_after_template_example =
    round-requests_after_template template_environment local_clients (λ disk. small_talos)
      (λ cli context result mode dry_run timeout. ok (codes "applied")) template_flags apply_flags
      file false world templated config files-IsFileSystem (λ output. refl) refl config_found
      below_limit nodes-IsPlain nodes-IsPlain templates-IsPlain round_ok refl refl refl
      applied_after
