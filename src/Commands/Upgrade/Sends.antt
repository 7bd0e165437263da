-- ===== src/Commands/Upgrade/Sends.antt =====
-- What each step of an upgrade that succeeds sends.
use talm.Base.Text.{Text}
use talm.Json.{Slice}
use talm.Base.Result.{ok}
use talm.Base.{
  ◌++◌, map, Bool, true, false, is_nil, ◌≡◌, ◌∙◌, refl, sym, ap, List, [], ◌∷◌, if◌then◌else◌, ℕ,
}
use talm.Commands.{
  World, Command, continue, continue-eq-ok, continue-ok, upgrade_with_options, ◌>>◌,
}
use talm.Commands.Root.{is_unset, update_globals, process_modeline_and_update_globals}
use talm.Commands.Root.Laws.{process_modeline-eq-ok, with_client-runs}
use talm.Modeline.{Config, read_and_parse_modeline}
use mathlib.Core.List.{Permᴰ}
use talm.Json.{items}
use talm.Commands.Upgrade.Tracker.{IsTracker, request_to, run_tracker-sends}
use talm.Commands.Upgrade.Laws.{run_tracker-keeps}
use talm.Commands.NodeConfig.{node_config}
use talm.Commands.Upgrade.{
  Flags, Environment, Upgrade, engine_options, prepare, run_client, run_upgrade_no_wait, upgrade_fn,
  wait_for, rounds, upgrade_options, require_image, answered,
}

module _ (e : Environment) (f : Flags) where
  require_image-eq-ok :
      (image : Text) (w : World e.fs.Disk)
      → (require_image e f image w).1 ≡ ok tt
      → (is_nil image ≡ false) × (require_image e f image w ≡ (w, ok tt))
  require_image-eq-ok [] w h = cc
  require_image-eq-ok (c ∷ image) w h = (refl, refl)

  -- What is left to do behind the update of the globals.
  image_of : ℕ → Text → Command e.fs.Disk Upgrade
  image_of mode file v =
      continue (v, node_config (e.talos v.disk) (engine_options f) file)
        λ result. λ v.
          continue (v, e.install_image result)
            λ image. λ v.
              continue (require_image e f image v)
                λ _. λ v. (v, ok (upgrade_options e f mode image))

  image_of-eq-ok :
      (mode : ℕ) (file : Text) (v : World e.fs.Disk) {u : Upgrade}
      → (image_of mode file v).1 ≡ ok u
      → (result : Text) × (image : Text) × (node_config (e.talos v.disk) (engine_options f) file
          ≡ ok result)
        × (e.install_image result ≡ ok image)
        × (is_nil image ≡ false)
        × (image_of mode file v ≡ (v, ok (upgrade_options e f mode image)))
  unfolding image_of
  image_of-eq-ok mode file v h =
      let (result, made, h₁) =
        continue-eq-ok {A = Text} (v, node_config (e.talos v.disk) (engine_options f) file) _ h in
      let (image, found, h₂) =
        continue-eq-ok {A = Text} (v, e.install_image result) _ (sym (ap (λ m. m.1) h₁) ∙ h) in
      let (_, named, h₃) =
        continue-eq-ok (require_image e f image v) _ (sym (ap (λ m. m.1) (h₁ ∙ h₂)) ∙ h) in
      let (set, kept) = require_image-eq-ok image v named in
      (
        result,
        image,
        made,
        found,
        set,
        h₁ ∙ (h₂ ∙ (h₃ ∙ ap (λ m. (m.0, ok (upgrade_options e f mode image))) kept)),
      )

  -- A file that is waited for sent one request to each of the nodes.
  pub wait_for-sends :
      (file : Text) (u : Upgrade) (w : World e.fs.Disk)
      → IsTracker e
      → (wait_for e f file u w).1 ≡ ok tt
      → (ns : List Text) × Permᴰ ns (items w.nodes)
        × ((wait_for e f file u w).0.requests ≡ map (request_to u) ns ++ w.requests)
  unfolding wait_for
  wait_for-sends file u w law h =
      run_tracker-sends e u (items w.nodes) (e.track w.nodes w.endpoints f.debug f.timeout) _
        (law w.nodes w.endpoints f.debug f.timeout) h

  pub wait_for-disk :
      (file : Text) (u : Upgrade) (w : World e.fs.Disk) → (wait_for e f file u w).0.disk ≡ w.disk
  unfolding wait_for
  wait_for-disk file u w =
      run_tracker-keeps e (λ v. v.disk ≡ w.disk) u (λ context v h. h)
        (e.track w.nodes w.endpoints f.debug f.timeout) _ refl

  upgrade_fn-sends :
      (u : Upgrade) (cli : e.clients.Client) (nodes : Slice) (w : World e.fs.Disk)
      → (upgrade_fn e f u cli nodes w).1 ≡ ok tt
      → (upgrade_fn e f u cli nodes w).0.requests
        ≡ upgrade_with_options nodes u.image u.preserve u.stage u.force ∷ w.requests
  unfolding upgrade_fn
  upgrade_fn-sends u cli nodes w h =
      let (_, _, h₁) = continue-eq-ok (w, e.client_version_check cli nodes) _ h in
      let (_, _, h₂) =
        continue-eq-ok (_, answered (e.upgrade_nodes cli nodes u)) _ (sym (ap (λ m. m.1) h₁) ∙ h) in
      ap (λ m. m.0.requests) (h₁ ∙ h₂)

  pub run_upgrade_no_wait-sends :
      (u : Upgrade) (w : World e.fs.Disk)
      → f.insecure ≡ false
      → is_unset w.nodes ≡ false
      → (run_upgrade_no_wait e f u w).1 ≡ ok tt
      → (run_upgrade_no_wait e f u w).0.requests
        ≡ upgrade_with_options w.nodes u.image u.preserve u.stage u.force ∷ w.requests
  unfolding run_upgrade_no_wait run_client
  run_upgrade_no_wait-sends u w i n h = rw i (
      let (cli, runs) = with_client-runs e.clients (upgrade_fn e f u) w n (rw i at h) in
      ap (λ m. m.0.requests) runs
      ∙ upgrade_fn-sends u cli w.nodes w (sym (ap (λ m. m.1) runs) ∙ rw i at h))

  prepare-eq-ok :
      (n p : Bool) (mode : ℕ) (file : Text) (w : World e.fs.Disk) {u : Upgrade}
      → (prepare e f n p mode file w).1 ≡ ok u
      → (c : Config) × (result : Text) × (image : Text) × (read_and_parse_modeline
            (e.fs.read_file w.disk)
            file
          ≡ ok c)
        × (node_config (e.talos w.disk) (engine_options f) file ≡ ok result)
        × (e.install_image result ≡ ok image)
        × (is_nil image ≡ false)
        × (is_unset (update_globals n p true c w).nodes ≡ false)
        × (prepare e f n p mode file w
            ≡ (update_globals n p true c w, ok (upgrade_options e f mode image)))
  unfolding prepare image_of update_globals
  prepare-eq-ok n p mode file w h =
      let (_, read, h₁) =
        continue-eq-ok (process_modeline_and_update_globals e.fs file n p true w) _ h in
      let (c, found, set, updated) = process_modeline-eq-ok e.fs file n p true w read in
      let same = h₁ ∙ ap (λ m. image_of mode file m.0) updated in
      let (result, image, made, named, given, ends) =
        image_of-eq-ok mode file (update_globals n p true c w) (sym (ap (λ m. m.1) same) ∙ h) in
      (c, result, image, found, made, named, given, set, same ∙ ends)

  -- What follows a prepared upgrade.
  unfoldable pub behind :
      Bool → Bool → Bool → ℕ → Text → List Text → Upgrade → Command e.fs.Disk (Unit {0})
  behind wait n p mode file files u =
      if wait then (wait_for e f file u >> rounds e f n p mode files) else run_upgrade_no_wait e f u

  -- The first round of an upgrade that succeeds.
  pub rounds-behind :
      (n p : Bool) (mode : ℕ) (file : Text) (files : List Text) (w : World e.fs.Disk)
      → (rounds e f n p mode (file ∷ files) w).1 ≡ ok tt
      → (c : Config) × (result : Text) × (image : Text) × (read_and_parse_modeline
            (e.fs.read_file w.disk)
            file
          ≡ ok c)
        × (node_config (e.talos w.disk) (engine_options f) file ≡ ok result)
        × (e.install_image result ≡ ok image)
        × (is_nil image ≡ false)
        × (is_unset (update_globals n p true c w).nodes ≡ false)
        × (rounds e f n p mode (file ∷ files) w
            ≡ behind f.wait n p mode file files
                (upgrade_options e f mode image)
                (update_globals n p true c w))
  unfolding rounds behind update_globals
  rounds-behind n p mode file files w h =
      let (u, prepared, _) =
        continue-eq-ok (prepare e f n p mode file w) (behind f.wait n p mode file files) h in
      let (c, result, image, found, made, named, given, set, kept) =
        prepare-eq-ok n p mode file w prepared in
      (
        c,
        result,
        image,
        found,
        made,
        named,
        given,
        set,
        continue-ok (prepare e f n p mode file w) (behind f.wait n p mode file files)
              (ap (λ m. m.1) kept)
            ∙ ap (λ m. behind f.wait n p mode file files (upgrade_options e f mode image) m.0) kept,
      )
