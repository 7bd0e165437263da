-- ===== src/Commands/Apply.antt =====
-- pkg/commands/apply.go. The node's answer to a configuration is a parameter, and what
-- PrintApplyResults makes of it too; a duration is the text of its flag.
pub mod Laws
pub mod Requests
pub mod AfterTemplate
use talm.Base.{Bool, not, if◌then◌else◌, List, [], ◌∷◌, ◌++◌, true, none, some}
use talm.Base.Text.{Text, codes}
use talm.Modeline.{scan, line, too_long, at_end}
use talm.Base.Result.{ok, err, panic, exit, wrapped, errorf, Result, wrap}
use talm.Json.{Slice}
use talm.Engine.Bundle.{Talos, Options}
use talm.Commands.NodeConfig.{node_config}
use talm.Commands.{
  ◌>>=◌, ◌>>◌, World, FileSystem, Command, Request, apply_configuration, done, modify, print, state,
  lift,
}
use talm.Commands.Root.{
  TemplateOptions, UpgradeOptions, is_unset, process_modeline_and_update_globals, with_client,
  with_client_no_nodes, with_client_maintenance, Clients,
}
use talm.Commands.Template.{show, dummy_endpoint}

-- `applyCmdFlags`
pub record Flags : Type 0 where
  pub mode : Text
  pub cert_fingerprints : List Text
  pub insecure : Bool
  pub config_files : List Text
  pub talos_version : Text
  pub with_secrets : Text
  pub debug : Bool
  pub kubernetes_version : Text
  pub dry_run : Bool
  pub preserve : Bool
  pub stage : Bool
  pub force : Bool
  pub config_try_timeout : Text
  pub nodes_from_args : Bool
  pub endpoints_from_args : Bool

-- `cmd.Flags().Changed`
pub record Changed : Type 0 where
  pub talos_version : Bool
  pub with_secrets : Bool
  pub kubernetes_version : Bool
  pub debug : Bool
  pub preserve : Bool
  pub stage : Bool
  pub force : Bool

unfoldable pub pre_run :
    {D : Type 0} → Changed → TemplateOptions → UpgradeOptions → Flags → World D → Flags × World D
pre_run changed c u f w = (
  record f {
    talos_version = if changed.talos_version then f.talos_version else c.talos_version;
    with_secrets = if changed.with_secrets then f.with_secrets else c.with_secrets;
    kubernetes_version =
        if changed.kubernetes_version then f.kubernetes_version else c.kubernetes_version;
    debug = if changed.debug then f.debug else c.debug;
    preserve = if changed.preserve then f.preserve else u.preserve;
    stage = if changed.stage then f.stage else u.stage;
    force = if changed.force then f.force else u.force;
    nodes_from_args = not (is_unset w.nodes);
    endpoints_from_args = not (is_unset w.endpoints);
  },
  dummy_endpoint w,
)

-- `readFirstLine`, which no command calls: the first line of a file, and none of an empty one.
unfoldable pub read_first_line : (Text → Result Text) → Text → Result Text
unfolding scan
read_first_line open_file filename = elim (open_file filename) [
  | ok content ↦ elim (scan content) [
    | line first ↦ ok first
    | too_long ↦
        err (wrapped "error reading file: %v" [] (errorf "bufio.Scanner: token too long" []))
    | at_end ↦ ok []
  ]
  | err e ↦ err (wrapped "error opening file: %v" [] e)
  | panic ↦ panic
  | exit out ↦ exit out
]

-- What apply runs in. `apply_configuration` gets the client, the nodes of its context, the mode, the
-- dry run and the timeout, and gives what PrintApplyResults prints.
pub record Environment : Type 1 where
  pub fs : FileSystem
  pub clients : Clients
  pub talos : fs.Disk → Talos
  pub answer : clients.Client → Slice → Text → Text → Bool → Text → Result Text

abbrev pub announced : {D : Type 0} → Text → World D → Text
announced config_file w =
    codes "- talm: file="
    ++ (config_file
        ++ (codes ", nodes="
            ++ (show w.nodes ++ (codes ", endpoints=" ++ (show w.endpoints ++ 10 ∷ [])))))

unfoldable pub reset_args : {D : Type 0} → Flags → World D → World D
reset_args f w = record w {
  nodes = if f.nodes_from_args then w.nodes else some [];
  endpoints = if f.endpoints_from_args then w.endpoints else some [];
}

abbrev pub engine_options : Flags → Options
engine_options f = record {
  talos_version = f.talos_version;
  with_secrets = f.with_secrets;
  kubernetes_version = f.kubernetes_version;
  cluster_name = [];
  endpoint = [];
  debug = f.debug;
}

abbrev pub requested : {D : Type 0} → Request → World D → World D
requested r w = record w { requests = r ∷ w.requests }

module _ (e : Environment) (f : Flags) where
  unfoldable pub send : Text → Text → e.clients.Client → Slice → Command e.fs.Disk (Unit {0})
  send config_file result cli context = do
    w ← state
    print (announced config_file w)
    modify (requested (apply_configuration context result))
    answer ← lift (
        wrap "error applying new configuration: %s" []
          (e.answer cli context result f.mode f.dry_run f.config_try_timeout))
    print answer

  -- An insecure client has no nodes in its context.
  unfoldable pub run_client :
      (e.clients.Client → Slice → Command e.fs.Disk (Unit {0})) → Command e.fs.Disk (Unit {0})
  unfolding with_client with_client_maintenance
  run_client action =
      if f.insecure
      then with_client_maintenance e.clients f.cert_fingerprints (λ cli. action cli none)
      else with_client e.clients action

  abbrev process : Text → Command e.fs.Disk Text
  process config_file w = (w, node_config (e.talos w.disk) (engine_options f) config_file)

  unfoldable pub round : Text → Command e.fs.Disk (Unit {0})
  unfolding process_modeline_and_update_globals node_config run_client send reset_args
  round config_file = do
    process_modeline_and_update_globals e.fs config_file f.nodes_from_args f.endpoints_from_args
        true
    result ← process config_file
    run_client (send config_file result)
    modify (reset_args f)

  unfoldable pub rounds : List Text → Command e.fs.Disk (Unit {0})
  unfolding round
  rounds [] = done tt
  rounds (config_file ∷ config_files) = do round config_file; rounds config_files

  unfoldable pub run : Command e.fs.Disk (Unit {0})
  unfolding rounds with_client_no_nodes
  run = with_client_no_nodes e.clients λ _. rounds f.config_files
