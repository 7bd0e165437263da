-- ===== src/Commands/Upgrade/Requests.antt =====
-- The requests of upgrade: the image of which file goes to which nodes.
use talm.Base.Text.{Text}
use mathlib.Core.List.{Permᴰ}
use talm.Json.{Slice, items}
use talm.Commands.Upgrade.Tracker.{IsTracker}
use talm.Base.Result.{ok, err-ne-ok}
use talm.Base.{
  Bool, Bool-cases, true, false, inl, inr, is_nil, ◌≡◌, ◌∙◌, refl, sym, ap, subst, List, [], ◌∷◌,
  ◌++◌, map, none, some, not, Option, ◌||◌, ◌&&◌, append_assoc, if◌then◌else◌, ℕ,
}
use talm.Commands.{Request, World, Command, continue-eq-ok, upgrade_with_options}
use talm.Commands.Root.{is_unset, update_globals, with_client}
use talm.Commands.Root.Laws.{with_client-eq-ok}
use talm.Modeline.{Config, read_and_parse_modeline}
use talm.Commands.Upgrade.Sends.{
  behind, rounds-behind, wait_for-sends, wait_for-disk, run_upgrade_no_wait-sends,
}
use talm.Commands.NodeConfig.{node_config}
use talm.Commands.Upgrade.{
  Flags, Environment, engine_options, run_client, wait_for, rounds, upgrade_options, upgrade_mode,
  upgrade, run,
}

module _ (e : Environment) (f : Flags) where
  -- The image that the config of a file names.
  pub record ImageOf (disk : e.fs.Disk) (file image : Text) : Type 0 where
    pub modeline : Config
    pub found : read_and_parse_modeline (e.fs.read_file disk) file ≡ ok modeline
    pub config : Text
    pub made : node_config (e.talos disk) (engine_options f) file ≡ ok config
    pub named : e.install_image config ≡ ok image
    pub given : is_nil image ≡ false

  abbrev pub to_node : Text → Text → Request
  to_node image node = upgrade_with_options (some (node ∷ [])) image f.preserve f.stage f.force

  -- The requests for config files, the last one first. With waiting, for each file in turn, one to each
  -- of some nodes, in some order; without, one for the first file, to some nodes together.
  pub data Upgraded (disk : e.fs.Disk) : Bool → List Text → List Request → Type 0 where
    none_left : (wait : Bool) → Upgraded disk wait [] []
    at_once :
        (file image : Text) (nodes : Slice) (files : List Text)
        → ImageOf disk file image
        → is_unset nodes ≡ false
        → Upgraded disk false
            (file ∷ files)
            (upgrade_with_options nodes image f.preserve f.stage f.force ∷ [])
    node_by_node :
        (file image : Text) (nodes : Slice) (ns : List Text) (files : List Text)
        (sent : List Request)
        → ImageOf disk file image
        → is_unset nodes ≡ false
        → Permᴰ ns (items nodes)
        → Upgraded disk true files sent
        → Upgraded disk true (file ∷ files) (sent ++ map (to_node image) ns)

  -- An upgrade of config files that succeeds sent, in front of the requests before, what its files ask
  -- for. The client is not an insecure one.
  pub rounds-Upgraded :
      (nodes_from_args endpoints_from_args : Bool) (mode : ℕ) (files : List Text)
      (w : World e.fs.Disk)
      → IsTracker e
      → f.insecure ≡ false
      → (rounds e f nodes_from_args endpoints_from_args mode files w).1 ≡ ok tt
      → (sent : List Request) × ((rounds e f nodes_from_args endpoints_from_args mode files
            w).0.requests
          ≡ sent ++ w.requests)
        × Upgraded w.disk f.wait files sent
  unfolding rounds behind update_globals
  rounds-Upgraded n p mode [] w law i h = ([], refl, none_left f.wait)
  rounds-Upgraded n p mode (file ∷ files) w law i h =
      let (c, result, image, found, made, named, given, set, same) =
        rounds-behind e f n p mode file files w h in
      let v = update_globals n p true c w in
      let o = upgrade_options e f mode image in
      let of_file : ImageOf w.disk file image = record {
        modeline = c;
        found = found;
        config = result;
        made = made;
        named = named;
        given = given;
      } in
      elim (Bool-cases f.wait) [
        | inl t ↦
            let split = same ∙ ap (λ b. behind e f b n p mode file files o v) t in
            let (_, waited, ends) =
              continue-eq-ok (wait_for e f file o v) (λ _. rounds e f n p mode files)
                (sym (ap (λ m. m.1) split) ∙ h) in
            let (ns, nodes, here) = wait_for-sends e f file o v law waited in
            let (sent, all, each) =
              rounds-Upgraded n p mode files (wait_for e f file o v).0 law i
                (sym (ap (λ m. m.1) (split ∙ ends)) ∙ h) in
            (
              sent ++ map (to_node image) ns,
              ap (λ m. m.0.requests) (split ∙ ends)
                  ∙ (all
                      ∙ (ap (λ x. sent ++ x) here
                          ∙ sym (append_assoc sent (map (to_node image) ns) w.requests))),
              subst (λ b. Upgraded w.disk b (file ∷ files) (sent ++ map (to_node image) ns)) (sym t)
                  (node_by_node file image v.nodes ns files sent of_file set nodes (
                    subst (λ b. Upgraded w.disk b files sent) t
                      (subst (λ d. Upgraded d f.wait files sent) (wait_for-disk e f file o v)
                        each))),
            )
        | inr t ↦
            let split = same ∙ ap (λ b. behind e f b n p mode file files o v) t in
            let up = upgrade_with_options v.nodes image f.preserve f.stage f.force in
            (
              up ∷ [],
              ap (λ m. m.0.requests) split
                  ∙ run_upgrade_no_wait-sends e f o v i set (sym (ap (λ m. m.1) split) ∙ h),
              subst (λ b. Upgraded w.disk b (file ∷ files) (up ∷ [])) (sym t)
                  (at_once file image v.nodes files of_file set),
            )
      ]

  upgrade_mode-Upgraded :
      (mode : Option ℕ) (w : World e.fs.Disk)
      → IsTracker e
      → f.insecure ≡ false
      → (upgrade_mode e f mode w).1 ≡ ok tt
      → (sent : List Request) × ((upgrade_mode e f mode w).0.requests ≡ sent ++ w.requests)
        × Upgraded w.disk f.wait f.config_files sent
  unfolding upgrade_mode
  upgrade_mode-Upgraded none w law i h = absurd (err-ne-ok h)
  upgrade_mode-Upgraded (some mode) w law i h =
      rounds-Upgraded (not (is_unset w.nodes)) (not (is_unset w.endpoints)) mode f.config_files w
        law i h

run_client-secure :
    (e : Environment) (f : Flags) (action : e.clients.Client → Slice → Command e.fs.Disk (Unit {0}))
    → f.insecure ≡ false
    → run_client e f action ≡ with_client e.clients action
unfolding run_client
run_client-secure e f action i = rw i refl

not_both : {A : Type 0} (a b : Bool) (x y : A) → b ≡ false → (if a && b then x else y) ≡ y
not_both true b x y h = ap (λ b. if b then x else y) h
not_both false b x y h = refl

-- An upgrade command that succeeds sent, in front of the requests before, what its config files ask for:
-- if it waits, as it does with `debug`, for each file in turn one request to each of some nodes, in some
-- order, and otherwise one request for the first file alone; each with the image that the config of the
-- file names. The tracker calls its action once for each node, as package action documents it, and the
-- command is not an insecure one.
pub run-Upgraded :
    (e : Environment) (f : Flags) (w : World e.fs.Disk)
    → IsTracker e
    → f.insecure ≡ false
    → (run e f w).1 ≡ ok tt
    → (sent : List Request) × ((run e f w).0.requests ≡ sent ++ w.requests)
      × Upgraded e
          (record f { wait = f.wait || f.debug })
          w.disk
          (f.wait || f.debug)
          f.config_files
          sent
unfolding run upgrade
run-Upgraded e f w law i h =
    let g = record f { wait = f.wait || f.debug } in
    let allowed = not_both g.wait g.insecure _ (run_client e g (λ _ _. upgrade e g)) i in
    let same = ap (λ c. c w) (allowed ∙ run_client-secure e g (λ _ _. upgrade e g) i) in
    let (cli, n, ends) =
      with_client-eq-ok e.clients (λ _ _. upgrade e g) w (sym (ap (λ m. m.1) same) ∙ h) in
    let ran = sym (ap (λ m. m.1) (same ∙ ends)) ∙ h in
    let (sent, all, each) =
      upgrade_mode-Upgraded e g (e.reboot_mode_value g.reboot_mode) (record w { nodes = n }) law i
        ran in
    (sent, ap (λ m. m.0.requests) (same ∙ ends) ∙ all, each)
