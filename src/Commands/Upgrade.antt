-- ===== src/Commands/Upgrade.antt =====
-- pkg/commands/upgrade.go. The client's upgrade call, the tracker that waits for the nodes and the
-- loader of a config are parameters; so is the printed table, which holds the time.
pub mod Laws
pub mod Tracker
pub mod Sends
pub mod Requests
use talm.Base.{
  false, Bool, true, not, ◌&&◌, ◌||◌, if◌then◌else◌, List, [], ◌∷◌, ◌++◌, Option, none, some,
  is_nil, map, ℕ,
}
use talm.Base.Text.{Text, codes}
use talm.Base.Result.{Result, ok, err, panic, errorf}
use talm.Json.{Slice}
use talm.Engine.Bundle.{Talos, Options}
use talm.Commands.NodeConfig.{node_config}
use talm.Commands.{
  ◌>>=◌, World, FileSystem, Command, upgrade_with_options, ◌>>◌, done, fail, modify, print, state,
  lift,
}
use talm.Commands.Root.{
  TemplateOptions, UpgradeOptions, is_unset, process_modeline_and_update_globals, with_client,
  with_client_maintenance, Clients,
}
use talm.Commands.Template.{show}

-- `upgradeCmdFlags`
pub record Flags : Type 0 where
  pub wait : Bool
  pub debug : Bool
  pub timeout : Text
  pub reboot_mode : Text
  pub preserve : Bool
  pub stage : Bool
  pub force : Bool
  pub insecure : Bool
  pub config_files : List Text
  pub talos_version : Text
  pub with_secrets : Text
  pub kubernetes_version : Text

-- `cmd.Flags().Changed`
pub record Changed : Type 0 where
  pub talos_version : Bool
  pub with_secrets : Bool
  pub kubernetes_version : Bool
  pub preserve : Bool
  pub stage : Bool
  pub force : Bool

unfoldable pub pre_run : Changed → TemplateOptions → UpgradeOptions → Flags → Flags
pre_run changed c u f = record f {
  talos_version = if changed.talos_version then f.talos_version else c.talos_version;
  with_secrets = if changed.with_secrets then f.with_secrets else c.with_secrets;
  kubernetes_version =
      if changed.kubernetes_version then f.kubernetes_version else c.kubernetes_version;
  preserve = if changed.preserve then f.preserve else u.preserve;
  stage = if changed.stage then f.stage else u.stage;
  force = if changed.force then f.force else u.force;
}

-- `[]client.UpgradeOption`
pub record Upgrade : Type 0 where
  pub image : Text
  pub reboot_mode : ℕ
  pub preserve : Bool
  pub stage : Bool
  pub force : Bool

-- A message of the answer; the host's name is from the metadata, which may be missing.
pub record Message : Type 0 where
  pub hostname : Option Text
  pub ack : Text
  pub actor_id : Text

-- `action.Tracker.Run`, between two calls of the action: it ends, or calls the action with a client and
-- the nodes of its context, and goes on with what the action returns.
pub data Tracking (Client : Type 0) : Type 0 where
  ended : Result (Unit {0}) → Tracking Client
  call_action : Client → Slice → (Result Text → Tracking Client) → Tracking Client

-- What upgrade runs in. `upgrade_nodes` is `UpgradeWithOptions` on the nodes of the context: an answer,
-- which may be nil, and an error, which may be nil. `track` gets the global nodes and endpoints, and the
-- flags for debug and timeout.
-- `reboot_mode_value` looks the upper-case form of a name up.
pub record Environment : Type 1 where
  pub fs : FileSystem
  pub clients : Clients
  pub talos : fs.Disk → Talos
  pub reboot_mode_value : Text → Option ℕ
  pub install_image : Text → Result Text
  pub client_version_check : clients.Client → Slice → Result (Unit {0})
  pub upgrade_nodes : clients.Client → Slice → Upgrade → Option (List Message) × Option Text
  pub addr_from_peer : clients.Client → Text
  pub format_table : List (Text × Text) → Text
  pub track : Slice → Slice → Bool → Text → Tracking clients.Client

abbrev pub engine_options : Flags → Options
engine_options f = record {
  talos_version = f.talos_version;
  with_secrets = f.with_secrets;
  kubernetes_version = f.kubernetes_version;
  cluster_name = [];
  endpoint = [];
  debug = false;
}

abbrev pub announced : {D : Type 0} → Text → Text → World D → Text
announced config_file image w =
    codes "- talm: file="
    ++ (config_file
        ++ (codes ", nodes="
            ++ (show w.nodes
                ++ (codes ", endpoints="
                    ++ (show w.endpoints ++ (codes ", image=" ++ (image ++ 10 ∷ [])))))))

abbrev pub requested : {D : Type 0} → Slice → Upgrade → World D → World D
requested nodes u w = record w {
  requests = upgrade_with_options nodes u.image u.preserve u.stage u.force ∷ w.requests;
}

abbrev table_row : Text → Message → Text × Text
table_row default_node m = (elim m.hostname [ none ↦ default_node | some name ↦ name ], m.ack)

abbrev first_actor : List Message → Result Text
first_actor [] = err (errorf "no messages returned from action run" [])
first_actor (m ∷ messages) = ok m.actor_id

-- An error with an answer is a warning.
abbrev answered : Option (List Message) × Option Text → Result (List Message)
answered (none, none) = panic
answered (none, some e) = err (errorf "error performing upgrade: %s" (e ∷ []))
answered (some messages, e) = ok messages

abbrev pub actor_id_of : Option (List Message) × Option Text → Result Text
actor_id_of (answer, some x) = err (errorf "%s" (x ∷ []))
actor_id_of (none, none) = first_actor []
actor_id_of (some messages, none) = first_actor messages

module _ (e : Environment) where
  unfoldable pub upgrade_get_actor_id : Upgrade → e.clients.Client → Slice → Command e.fs.Disk Text
  upgrade_get_actor_id u cli context = do
    modify (requested context u)
    lift (actor_id_of (e.upgrade_nodes cli context u))

  -- The tracker with that action.
  unfoldable pub run_tracker : Upgrade → Tracking e.clients.Client → Command e.fs.Disk (Unit {0})
  unfolding upgrade_get_actor_id
  run_tracker u (ended r) w = (w, r)
  run_tracker u (call_action cli context next) w =
      let answer = upgrade_get_actor_id u cli context w in run_tracker u (next answer.1) answer.0

module _ (e : Environment) (f : Flags) where
  unfoldable pub upgrade_fn : Upgrade → e.clients.Client → Slice → Command e.fs.Disk (Unit {0})
  upgrade_fn u cli context = do
    lift (e.client_version_check cli context)
    modify (requested context u)
    messages ← lift (answered (e.upgrade_nodes cli context u))
    print (e.format_table (map (table_row (e.addr_from_peer cli)) messages))

  unfoldable pub run_client :
      (e.clients.Client → Slice → Command e.fs.Disk (Unit {0})) → Command e.fs.Disk (Unit {0})
  unfolding with_client with_client_maintenance
  run_client action =
      if f.insecure
      then with_client_maintenance e.clients [] (λ cli. action cli none)
      else with_client e.clients action

  unfoldable pub run_upgrade_no_wait : Upgrade → Command e.fs.Disk (Unit {0})
  unfolding run_client upgrade_fn
  run_upgrade_no_wait u = run_client (upgrade_fn u)

  abbrev process : Text → Command e.fs.Disk Text
  process config_file w = (w, node_config (e.talos w.disk) (engine_options f) config_file)

  abbrev pub require_image : Text → Command e.fs.Disk (Unit {0})
  require_image image =
      if is_nil image then fail (errorf "error getting image from config" []) else done tt

  abbrev upgrade_options : ℕ → Text → Upgrade
  upgrade_options reboot_mode image = record {
    image = image;
    reboot_mode = reboot_mode;
    preserve = f.preserve;
    stage = f.stage;
    force = f.force;
  }

  -- The upgrade that a config file asks for, behind the update of the globals.
  unfoldable pub prepare : Bool → Bool → ℕ → Text → Command e.fs.Disk Upgrade
  unfolding process_modeline_and_update_globals node_config
  prepare nodes_from_args endpoints_from_args reboot_mode config_file = do
    process_modeline_and_update_globals e.fs config_file nodes_from_args endpoints_from_args true
    result ← process config_file
    image ← lift (e.install_image result)
    require_image image
    done (upgrade_options reboot_mode image)

  unfoldable pub wait_for : Text → Upgrade → Command e.fs.Disk (Unit {0})
  unfolding run_tracker
  wait_for config_file u = do
    modify (λ w. record w { suppress_errors = true })
    w ← state
    print (announced config_file u.image w)
    run_tracker e u (e.track w.nodes w.endpoints f.debug f.timeout)

  -- Without `wait` the first config file ends the loop.
  unfoldable pub rounds : Bool → Bool → ℕ → List Text → Command e.fs.Disk (Unit {0})
  unfolding prepare run_upgrade_no_wait wait_for
  rounds nodes_from_args endpoints_from_args reboot_mode [] = done tt
  rounds nodes_from_args endpoints_from_args reboot_mode (config_file ∷ config_files) = do
    u ← prepare nodes_from_args endpoints_from_args reboot_mode config_file
    let rest = rounds nodes_from_args endpoints_from_args reboot_mode config_files
    if f.wait then (wait_for config_file u >> rest) else run_upgrade_no_wait u

  unfoldable pub upgrade_mode : Option ℕ → Command e.fs.Disk (Unit {0})
  unfolding rounds
  upgrade_mode none = fail (errorf "invalid reboot mode: %s" (f.reboot_mode ∷ []))
  upgrade_mode (some mode) =
      λ w. rounds (not (is_unset w.nodes)) (not (is_unset w.endpoints)) mode f.config_files w

  unfoldable pub upgrade : Command e.fs.Disk (Unit {0})
  unfolding upgrade_mode
  upgrade = upgrade_mode (e.reboot_mode_value f.reboot_mode)

-- RunE: `debug` implies `wait`.
unfoldable pub run : (e : Environment) → Flags → Command e.fs.Disk (Unit {0})
unfolding run_client upgrade
run e f =
    let g = record f { wait = f.wait || f.debug } in
    if g.wait && g.insecure
    then fail (errorf "cannot use --wait and --insecure together" [])
    else run_client e g (λ _ _. upgrade e g)
