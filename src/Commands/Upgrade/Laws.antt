-- ===== src/Commands/Upgrade/Laws.antt =====
-- Which config files and which nodes an upgrade reaches.
use talm.Base.Text.{Text}
use talm.Json.{Slice}
use talm.Base.{
  ℕ, Bool, Bool-cases, true, false, not, inl, inr, ◌≡◌, ◌∙◌, List, [], ◌∷◌, Option, none, some, ap,
}
use talm.Commands.{World, Command, continue-keeps}
use talm.Base.Result.{Result, ok, err, panic, exit}
use talm.Modeline.{Config, read_and_parse_modeline}
use talm.Commands.Root.{
  warned, is_unset, update_slice, update_globals, require_nodes,
  process_modeline_and_update_globals, with_client, with_client_no_nodes, with_client_maintenance,
  resolve_nodes,
}
use talm.Commands.NodeConfig.{node_config}
use talm.Commands.Upgrade.{
  Flags, Environment, Upgrade, engine_options, prepare, run_client, run_upgrade_no_wait, upgrade_fn,
  wait_for, rounds, upgrade, upgrade_mode, require_image, run_tracker, upgrade_get_actor_id,
  actor_id_of, requested, Tracking, ended, call_action,
}

-- What sending a request keeps, the tracker keeps.
pub run_tracker-keeps :
    (e : Environment) (P : World e.fs.Disk → Type 0) (u : Upgrade)
    → ((context : Slice) (w : World e.fs.Disk) → P w → P (requested context u w))
    → (t : Tracking e.clients.Client) (w : World e.fs.Disk) → P w
    → P (run_tracker e u t w).0
unfolding run_tracker upgrade_get_actor_id
run_tracker-keeps e P u sent (ended r) w h = h
run_tracker-keeps e P u sent (call_action cli context next) w h =
    run_tracker-keeps e P u sent (next (actor_id_of (e.upgrade_nodes cli context u)))
      (requested context u w) (sent context w h)

-- A property of the state that printing and the update of the globals keep.
module _ (e : Environment) (f : Flags) (n p : Bool) (P : World e.fs.Disk → Type 0)
    (printed : (t : Text) (w : World e.fs.Disk) → P w → P (record w { out = t }))
    (updated : (c : Config) (w : World e.fs.Disk) → P w → P (update_globals n p true c w)) where
  warned-keeps : (r : Result Config) (w : World e.fs.Disk) → P w → P (warned r w).0
  unfolding warned
  warned-keeps (ok c) w h = h
  warned-keeps (err x) w h = printed _ w h
  warned-keeps panic w h = h
  warned-keeps (exit out) w h = h

  require_nodes-keeps : (w : World e.fs.Disk) → P w → P (require_nodes w).0
  require_nodes-keeps w h = elim (Bool-cases (is_unset w.nodes)) [ inl u ↦ rw u h | inr u ↦ rw u h ]

  process-keeps :
      (file : Text) (w : World e.fs.Disk)
      → P w
      → P (process_modeline_and_update_globals e.fs file n p true w).0
  unfolding process_modeline_and_update_globals
  process-keeps file w h =
      continue-keeps P (warned (read_and_parse_modeline (e.fs.read_file w.disk) file) w) _
        (warned-keeps (read_and_parse_modeline (e.fs.read_file w.disk) file) w h)
        (λ c v g. require_nodes-keeps (update_globals n p true c v) (updated c v g))

  require_image-keeps : (image : Text) (w : World e.fs.Disk) → P w → P (require_image e f image w).0
  require_image-keeps [] w h = h
  require_image-keeps (c ∷ image) w h = h

  -- The preparation of an upgrade keeps the property, too.
  pub prepare-keeps :
      (file : Text) (mode : ℕ) (w : World e.fs.Disk) → P w → P (prepare e f n p mode file w).0
  unfolding prepare
  prepare-keeps file mode w h =
      continue-keeps P (process_modeline_and_update_globals e.fs file n p true w) _
        (process-keeps file w h)
        λ _ v g.
          continue-keeps P (v, node_config (e.talos v.disk) (engine_options f) file) _ g
            λ result x g.
              continue-keeps P (x, e.install_image result) _ g
                λ image y g.
                  continue-keeps P (require_image e f image y) _ (require_image-keeps image y g)
                    λ _ z g. g

module _ {D : Type 0} (n : Slice) where
  resolve_nodes-nodes :
      (e : Environment) (context : Option Slice) (w : World D)
      → is_unset n ≡ false
      → w.nodes ≡ n
      → (resolve_nodes e.clients context w).0.nodes ≡ n
  unfolding resolve_nodes
  resolve_nodes-nodes e none w u h = rw (ap is_unset h ∙ u) h
  resolve_nodes-nodes e (some v) w u h = rw (ap is_unset h ∙ u) h

module _ (e : Environment) (f : Flags) (n : Slice) where
  run_client-nodes :
      (action : e.clients.Client → Slice → Command e.fs.Disk (Unit {0})) (w : World e.fs.Disk)
      → ((cli : e.clients.Client) (context : Slice) (w : World e.fs.Disk)
          → w.nodes ≡ n
          → (action cli context w).0.nodes ≡ n)
      → is_unset n ≡ false
      → w.nodes ≡ n
      → (run_client e f action w).0.nodes ≡ n
  unfolding run_client with_client with_client_maintenance with_client_no_nodes
  run_client-nodes action w k u h = elim (Bool-cases f.insecure) [
    | inl i ↦ rw i (
        continue-keeps (λ w. w.nodes ≡ n) (w, e.clients.dial_maintenance w.nodes w.endpoints []) _ h
          (λ cli v. k cli none v))
    | inr i ↦ rw i (
        continue-keeps (λ w. w.nodes ≡ n) (w, e.clients.dial w.nodes w.endpoints) _ h
          (λ cli v g.
            continue-keeps (λ w. w.nodes ≡ n)
              (resolve_nodes e.clients (e.clients.context_nodes cli) v) _
              (resolve_nodes-nodes n e (e.clients.context_nodes cli) v u g)
              (λ _ x. k cli x.nodes x)))
  ]

  upgrade_fn-nodes :
      (u : Upgrade) (cli : e.clients.Client) (context : Slice) (w : World e.fs.Disk)
      → w.nodes ≡ n
      → (upgrade_fn e f u cli context w).0.nodes ≡ n
  unfolding upgrade_fn
  upgrade_fn-nodes u cli context w h =
      continue-keeps (λ w. w.nodes ≡ n) (w, e.client_version_check cli context) _ h
        (λ _ v g. continue-keeps (λ w. w.nodes ≡ n) (_, _) _ g (λ _ x k. k))

  prepare-nodes :
      (file : Text) (endpoints_from_args : Bool) (mode : ℕ) (w : World e.fs.Disk)
      → w.nodes ≡ n
      → (prepare e f true endpoints_from_args mode file w).0.nodes ≡ n
  unfolding update_globals update_slice
  prepare-nodes file endpoints_from_args mode w h =
      prepare-keeps e f true endpoints_from_args (λ w. w.nodes ≡ n) (λ t w h. h) (λ c w h. h) file
        mode w h

  rounds-nodes :
      (files : List Text) (endpoints_from_args : Bool) (mode : ℕ) (w : World e.fs.Disk)
      → is_unset n ≡ false
      → w.nodes ≡ n
      → (rounds e f true endpoints_from_args mode files w).0.nodes ≡ n
  unfolding rounds wait_for run_upgrade_no_wait
  rounds-nodes [] endpoints_from_args mode w u h = h
  rounds-nodes (file ∷ files) endpoints_from_args mode w u h =
      continue-keeps (λ w. w.nodes ≡ n) (prepare e f true endpoints_from_args mode file w) _
        (prepare-nodes file endpoints_from_args mode w h)
        λ up v g. elim (Bool-cases f.wait) [
          | inl t ↦ rw t (
              continue-keeps (λ w. w.nodes ≡ n) (wait_for e f file up v) _
                (run_tracker-keeps e (λ w. w.nodes ≡ n) up (λ context w h. h)
                  (e.track v.nodes v.endpoints f.debug f.timeout) _ g)
                λ _ x k. rounds-nodes files endpoints_from_args mode x u k)
          | inr t ↦ rw t (run_client-nodes (upgrade_fn e f up) v (upgrade_fn-nodes up) u g)
        ]

  upgrade_mode-nodes :
      (mode : Option ℕ) (w : World e.fs.Disk)
      → is_unset n ≡ false
      → w.nodes ≡ n
      → (upgrade_mode e f mode w).0.nodes ≡ n
  unfolding upgrade_mode
  upgrade_mode-nodes none w u h = h
  upgrade_mode-nodes (some mode) w u h =
      rw (ap is_unset h ∙ u) (rounds-nodes f.config_files (not (is_unset w.endpoints)) mode w u h)

  -- Nodes that are set before the upgrade, by the arguments or from the client's config context, are
  -- kept whatever the modelines of the config files say.
  pub upgrade-nodes :
      (w : World e.fs.Disk) → is_unset n ≡ false → w.nodes ≡ n → (upgrade e f w).0.nodes ≡ n
  unfolding upgrade
  upgrade-nodes w u h = upgrade_mode-nodes (e.reboot_mode_value f.reboot_mode) w u h
