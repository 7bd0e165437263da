-- ===== src/Commands/Root.antt =====
-- pkg/commands/root.go: the global arguments, the project's configuration, and the wrappers around the
-- client. Dialling and the node's answers are a parameter.
pub mod Laws
pub mod Globals
use talm.Base.{Bool, not, ◌&&◌, if◌then◌else◌, List, [], ◌∷◌, ◌++◌, Option, none, some, is_nil}
use talm.Base.Text.{Text, codes}
use talm.Base.Result.{ok, err, panic, exit, message, Result, errorf, Error}
use talm.Json.{Slice, items}
use talm.Modeline.{Config, read_and_parse_modeline}
use talm.Commands.{◌>>◌, World, FileSystem, Command, ◌>>=◌, done, lift, fail, state, modify}

-- `Config.TemplateOptions`
pub record TemplateOptions : Type 0 where
  pub offline : Bool
  pub value_files : List Text
  pub values : List Text
  pub string_values : List Text
  pub file_values : List Text
  pub json_values : List Text
  pub literal_values : List Text
  pub talos_version : Text
  pub with_secrets : Text
  pub kubernetes_version : Text
  pub full : Bool
  pub debug : Bool

-- `Config.UpgradeOptions`
pub record UpgradeOptions : Type 0 where
  pub preserve : Bool
  pub stage : Bool
  pub force : Bool

pub record ApplyOptions : Type 0 where
  pub dry_run : Bool
  pub timeout : Text
  pub timeout_duration : Text
  pub cert_fingerprints : List Text

-- `Config`, as far as commands read it.
pub record Settings : Type 0 where
  pub root_dir : Text
  pub talosconfig : Text
  pub template_options : TemplateOptions
  pub apply_options : ApplyOptions
  pub upgrade_options : UpgradeOptions
  pub version : Text

abbrev pub is_unset : Slice → Bool
is_unset v = is_nil (items v)

-- `append` of one slice to another, which is not nil behind a slice with items.
abbrev pub appended : Slice → Slice → Slice
appended a b = if is_unset b then a else some (items a ++ items b)

unfoldable pub update_slice : Bool → Bool → Slice → Slice → Slice
update_slice from_args overwrite new old =
    if not from_args && not (is_unset new) then if overwrite then new else appended old new else old

unfoldable pub update_globals : {D : Type 0} → Bool → Bool → Bool → Config → World D → World D
unfolding update_slice
update_globals nodes_from_args endpoints_from_args overwrite c w = record w {
  nodes = update_slice nodes_from_args overwrite c.nodes w.nodes;
  endpoints = update_slice endpoints_from_args overwrite c.endpoints w.endpoints;
}

abbrev pub nodes_not_set : Error
nodes_not_set =
    errorf
      "nodes are not set for the command: please use `--nodes` flag or configuration file to set the nodes to run the command against"
      []

abbrev pub require_nodes : {D : Type 0} → Command D (Unit {0})
require_nodes w = if is_unset w.nodes then fail nodes_not_set w else done tt w

-- A modeline that does not parse is reported on the standard output.
unfoldable pub warned : {D : Type 0} → Result Config → Command D Config
warned (ok c) w = (w, ok c)
warned (err e) w = (
  record w {
    out = w.out ++ (codes "Warning: modeline parsing failed: " ++ (message e ++ 10 ∷ []));
  },
  err e,
)
warned panic w = (w, panic)
warned (exit out) w = (w, exit out)

abbrev pub read_modeline : (fs : FileSystem) → Text → Command fs.Disk Config
read_modeline fs path w = warned (read_and_parse_modeline (fs.read_file w.disk) path) w

unfoldable pub process_modeline_and_update_globals :
    (fs : FileSystem) → Text → Bool → Bool → Bool → Command fs.Disk (Unit {0})
process_modeline_and_update_globals fs config_file nodes_from_args endpoints_from_args overwrite =
    do
      c ← read_modeline fs config_file
      modify (update_globals nodes_from_args endpoints_from_args overwrite c)
      require_nodes

-- `client.Client`, as far as the wrappers use it: how it is made from the global nodes and endpoints,
-- and the nodes of its config context.
pub record Clients : Type 1 where
  pub Client : Type 0
  pub dial : Slice → Slice → Result Client
  pub dial_maintenance : Slice → Slice → List Text → Result Client
  pub context_nodes : Client → Option Slice

module _ {D : Type 0} (clients : Clients) where
  unfoldable pub with_client_no_nodes :
      (clients.Client → Command D (Unit {0})) → Command D (Unit {0})
  with_client_no_nodes action w = (lift (clients.dial w.nodes w.endpoints) >>= action) w

  -- `GlobalArgs.Nodes`, from the config context if there are none.
  unfoldable pub resolve_nodes : Option Slice → Command D (Unit {0})
  resolve_nodes none w =
      if is_unset w.nodes then fail (errorf "failed to resolve config context" []) w else done tt w
  resolve_nodes (some nodes) w =
      done tt (if is_unset w.nodes then record w { nodes = nodes } else w)

  -- The action gets the client and the nodes of its context.
  unfoldable pub with_client :
      (clients.Client → Slice → Command D (Unit {0})) → Command D (Unit {0})
  unfolding with_client_no_nodes resolve_nodes
  with_client action =
      with_client_no_nodes
        λ cli. do resolve_nodes (clients.context_nodes cli); w ← state; action cli w.nodes

  unfoldable pub with_client_maintenance :
      List Text → (clients.Client → Command D (Unit {0})) → Command D (Unit {0})
  with_client_maintenance fingerprints action w =
      (lift (clients.dial_maintenance w.nodes w.endpoints fingerprints) >>= action) w
