-- ===== src/Tests/Upgrade.antt =====
-- Runs of upgrade, and what Execute prints of its errors.
use talm.Base.{List, ◌≡◌, ◌≢◌, refl, some, none, true, false, [], ◌∷◌, ◌++◌}
use talm.Commands.{World}
use talm.Base.Dict.{Dict}
use talm.Base.Text.{cut, split₂, trim_space, strip_prefix, Text, codes, text_eq}
use talm.Base.Dict.{lookup}
use talm.Base.Result.{message, ok}
use talm.Json.{unmarshal, escape_char, marshal}
use talm.Modeline.{parse_part, parse_modeline, generate_modeline, read_and_parse_modeline}
use talm.Engine.Bundle.{rebuild_bundle, discover, gen_options, full_config_process}
use talm.Commands.{Request}
use talm.Commands.Root.{warned, update_globals}
use talm.Commands.Upgrade
use talm.Commands.Upgrade.Laws.{upgrade-nodes}
use talm.Tests.Fixtures.{files, local_clients, small_talos}
use talm.Tests.Nodes.{nodes, templates, file, world}
use talm.Base.Text.{contains}
use mathlib.Core.List.Permᴰ
use talm.Json.{items}
use talm.Commands.Upgrade.{Tracking, ended, call_action}
use talm.Commands.Upgrade.Tracker.{IsTracker, CallsEach, all_called, one_called}
use talm.Commands.Upgrade.Requests.{Upgraded, run-Upgraded}
use talm.Main.Execute.{execute, error_text, shows_usage}
use talm.Main.Execute.Upgrade.{execute-rounds}

abbrev upgrade_flags : Upgrade.Flags
upgrade_flags = record {
  wait = false;
  debug = false;
  timeout = [];
  reboot_mode = codes "default";
  preserve = false;
  stage = false;
  force = false;
  insecure = false;
  config_files = file ∷ (codes "other.yaml" ∷ []);
  talos_version = [];
  with_secrets = [];
  kubernetes_version = [];
}

-- A tracker that goes through the nodes and does not mind what the action returns.
abbrev calls : List Text → Tracking local_clients.Client
calls [] = ended (ok tt)
calls (n ∷ ns) = call_action tt (some (n ∷ [])) λ answer. calls ns

calls-CallsEach : (ns : List Text) → CallsEach local_clients.Client ns (calls ns)
calls-CallsEach [] = all_called
calls-CallsEach (n ∷ ns) =
    one_called (n ∷ ns) ns n tt (λ answer. calls ns) (Permᴰ.refl (n ∷ ns))
      λ answer. calls-CallsEach ns

abbrev upgrade_environment : Upgrade.Environment
upgrade_environment = record {
  fs = files;
  clients = local_clients;
  talos = λ disk. small_talos;
  reboot_mode_value = λ name. some 0;
  install_image = λ result. ok (codes "image");
  client_version_check = λ cli context. ok tt;
  upgrade_nodes = λ cli context u. (some [], none);
  addr_from_peer = λ cli. codes "peer";
  format_table = λ rows. [];
  track = λ nodes endpoints debug timeout. calls (items nodes);
}

-- The modeline says `n`, and the nodes stay `a.yaml`.
upgrade-nodes_example :
    (Upgrade.upgrade upgrade_environment upgrade_flags (record world { nodes = templates })).0.nodes
    ≡ templates
upgrade-nodes_example =
    upgrade-nodes upgrade_environment upgrade_flags templates (record world { nodes = templates })
      refl refl

abbrev waiting : Upgrade.Flags
waiting = record upgrade_flags { wait = true }

abbrev missing : Text
missing = codes "other.yaml"

-- The second config file is not there.
second_missing :
    (execute []
      (Upgrade.rounds upgrade_environment waiting false false 0 (file ∷ missing ∷ []))
      world).1
    ≢ ok tt
unfolding Upgrade.run Upgrade.prepare read_and_parse_modeline lookup text_eq generate_modeline
    marshal escape_char parse_modeline strip_prefix trim_space split₂ parse_part cut unmarshal
    gen_options update_globals discover rebuild_bundle warned full_config_process execute message
    error_text shows_usage contains
second_missing h = cc

abbrev upgrade_up : Upgrade.Upgrade
upgrade_up = record {
  image = codes "image";
  reboot_mode = 0;
  preserve = false;
  stage = false;
  force = false;
}

prepared : (Upgrade.prepare upgrade_environment waiting false false 0 file world).1 ≡ ok upgrade_up
unfolding Upgrade.run Upgrade.prepare read_and_parse_modeline lookup text_eq generate_modeline
    marshal escape_char parse_modeline strip_prefix trim_space split₂ parse_part cut unmarshal
    gen_options update_globals discover rebuild_bundle warned full_config_process execute message
    error_text shows_usage contains
prepared = refl

execute-rounds_example :
    (execute
      (codes "Usage:")
      (Upgrade.rounds upgrade_environment waiting false false 0 (file ∷ missing ∷ []))
      world).0
    ≡ []
execute-rounds_example =
    execute-rounds upgrade_environment waiting (codes "Usage:") false false 0 file (missing ∷ [])
      world refl prepared

abbrev with_nodes : World (Dict Text)
with_nodes = record world { nodes = nodes }

abbrev both : Upgrade.Flags
both = record upgrade_flags { wait = true; config_files = file ∷ file ∷ [] }

upgraded : (Upgrade.run upgrade_environment both with_nodes).1 ≡ ok tt
unfolding Upgrade.run Upgrade.prepare read_and_parse_modeline lookup text_eq generate_modeline
    marshal escape_char parse_modeline strip_prefix trim_space split₂ parse_part cut unmarshal
    gen_options update_globals discover rebuild_bundle warned full_config_process execute message
    error_text shows_usage contains
upgraded = refl

tracker-IsTracker : IsTracker upgrade_environment
tracker-IsTracker nodes endpoints debug timeout = calls-CallsEach (items nodes)

run-Upgraded_example :
    (sent : List Request) × ((Upgrade.run upgrade_environment both with_nodes).0.requests
      ≡ sent ++ [])
    × Upgraded upgrade_environment both with_nodes.disk true (file ∷ file ∷ []) sent
run-Upgraded_example =
    run-Upgraded upgrade_environment both with_nodes tracker-IsTracker refl upgraded

-- Upgrade without nodes, neither in the arguments nor in a config context.
execute_test :
    (execute
      (codes "Usage: talm")
      (Upgrade.run upgrade_environment (record upgrade_flags { config_files = missing ∷ [] }))
      world).0
    ≡ codes "failed to resolve config context\n"
unfolding Upgrade.run Upgrade.prepare read_and_parse_modeline lookup text_eq generate_modeline
    marshal escape_char parse_modeline strip_prefix trim_space split₂ parse_part cut unmarshal
    gen_options update_globals discover rebuild_bundle warned full_config_process execute message
    error_text shows_usage contains
execute_test = refl

usage_test :
    error_text (codes "Usage: talm") (codes "unknown flag: --x")
    ≡ codes "unknown flag: --x\n\nUsage: talm\n"
unfolding error_text shows_usage contains
usage_test = refl
