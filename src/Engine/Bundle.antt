-- ===== src/Engine/Bundle.antt =====
-- InitializeConfigBundle, debugPhase and FullConfigProcess. The Talos packages are a parameter:
-- version contracts, secrets, patches and the bundle with its control plane and worker configs.
pub mod Laws
use talm.Base.Result.{exit, wrap, ◌>>=◌, Result, err, ok, panic}
use talm.Base.Text.{codes, trim_prefix, Text}
use talm.Base.{Bool, true, false, ◌||◌, List, [], ◌∷◌, ◌++◌, ◌==◌, if◌then◌else◌, is_nil}

-- `generate.Option`
pub data GenOption (Contract Secrets : Type 0) : Type 0 where
  with_version_contract : Contract → GenOption Contract Secrets
  with_secrets_bundle : Secrets → GenOption Contract Secrets

-- `bundle.InputOptions`
pub record InputOptions (Contract Secrets : Type 0) : Type 0 where
  pub cluster_name : Text
  pub endpoint : Text
  pub kube_version : Text
  pub gen_options : List (GenOption Contract Secrets)

-- `machine_type`, `cluster_name` and `endpoint` read the control plane config of a bundle; `endpoint`
-- is the text of its URL.
pub record Talos : Type 1 where
  pub Contract : Type 0
  pub Secrets : Type 0
  pub Patch : Type 0
  pub Bundle : Type 0
  pub Machine : Type 0
  pub type_unknown : Machine
  pub type_worker : Machine
  pub type_control_plane : Machine
  pub same_machine : Machine → Machine → Bool
  pub machine_text : Machine → Text
  pub parse_contract_from_version : Text → Result Contract
  pub load_secrets_bundle : Text → Result Secrets
  pub load_patches : List Text → Result (List Patch)
  pub new_bundle : InputOptions Contract Secrets → Result Bundle
  pub apply_patches : List Patch → Bool → Bool → Bundle → Result Bundle
  pub machine_type : Bundle → Machine
  pub cluster_name : Bundle → Text
  pub endpoint : Bundle → Text
  pub serialize : Machine → Bundle → Result Text

-- The options that the functions below read.
pub record Options : Type 0 where
  pub talos_version : Text
  pub with_secrets : Text
  pub kubernetes_version : Text
  pub cluster_name : Text
  pub endpoint : Text
  pub debug : Bool

module _ (t : Talos) where
  -- Both functions that build a bundle begin so.
  unfoldable pub gen_options : Text → Text → Result (List (GenOption t.Contract t.Secrets))
  gen_options talos_version with_secrets = do
    contract ←
        if is_nil talos_version
        then ok []
        else (wrap "invalid talos-version: %w" [] (t.parse_contract_from_version talos_version)
            >>= λ c. ok (with_version_contract c ∷ []))
    secrets ←
        if is_nil with_secrets
        then ok []
        else (wrap "failed to load secrets bundle: %w" [] (t.load_secrets_bundle with_secrets)
            >>= λ s. ok (with_secrets_bundle s ∷ []))
    ok (contract ++ secrets)

  abbrev pub input_options :
      Text → Text → Text → List (GenOption t.Contract t.Secrets) → InputOptions t.Contract t.Secrets
  input_options cluster_name endpoint kubernetes_version gen = record {
    cluster_name = cluster_name;
    endpoint = endpoint;
    kube_version = trim_prefix kubernetes_version (codes "v");
    gen_options = gen;
  }

  unfoldable pub initialize_config_bundle : Options → Result t.Bundle
  unfolding gen_options
  initialize_config_bundle o = do
    gen ← gen_options o.talos_version o.with_secrets
    t.new_bundle (input_options o.cluster_name o.endpoint o.kubernetes_version gen)

  abbrev patch_option : t.Machine → Text
  patch_option m =
      if t.same_machine m t.type_worker
      then codes "--config-patch-worker"
      else codes "--config-patch-control-plane"

  -- The loop over the patches; `patch[0]` of an empty patch is out of range.
  unfoldable pub print_patches : Text → Text → List Text → Text → Result Text
  print_patches phase option [] out = ok out
  print_patches phase option ([] ∷ patches) out = panic
  print_patches phase option ((c ∷ patch) ∷ patches) out = print_patches phase option patches (
      if c == b'@'
      then out ++ (codes " " ++ (option ++ (codes "=" ++ ((c ∷ patch) ++ 10 ∷ []))))
      else out
        ++ (codes "\n---\n# DEBUG(phase "
            ++ (phase ++ (codes "): " ++ (option ++ (codes "=\n" ++ (c ∷ patch)))))))

  unfoldable pub debug_phase :
      {A : Type 0} → Options → List Text → Text → Text → t.Machine → Result A
  unfolding print_patches
  debug_phase o patches cluster_name endpoint m = do
    let phase = if is_nil cluster_name || is_nil endpoint then codes "1" else codes "2"
    let name = if is_nil cluster_name then codes "dummy" else cluster_name
    let address = if is_nil endpoint then codes "clusterEndpoint" else endpoint
    out ← print_patches phase (patch_option m) patches (
        codes "# DEBUG(phase "
        ++ (phase
            ++ (codes "): talosctl gen config "
                ++ (name
                    ++ (codes " "
                        ++ (address
                            ++ (codes " -t "
                                ++ (t.machine_text m
                                    ++ (codes " --with-secrets="
                                        ++ (o.with_secrets
                                            ++ (codes " --talos-version="
                                                ++ (o.talos_version
                                                    ++ (codes " --kubernetes-version="
                                                        ++ (o.kubernetes_version
                                                            ++ codes " -o -"))))))))))))))
    exit out

  -- `err != nil`, where a debug run prints the patches and ends the process first
  abbrev pub or_debug : {A : Type 0} → Options → List Text → Result A → Result A
  or_debug o patches (err e) = if o.debug then debug_phase o patches [] [] t.type_unknown else err e
  or_debug o patches r = r

  -- An unknown machine type counts as a worker's.
  unfoldable pub known_type : t.Machine → t.Machine
  known_type m = if t.same_machine m t.type_unknown then t.type_worker else m

  -- The patched bundle again, for the cluster name and the endpoint that the patches set: the config
  -- of the machine type alone is patched.
  unfoldable pub rebuild_bundle : Options → List t.Patch → t.Machine → t.Bundle → Result t.Bundle
  rebuild_bundle o loaded m patched = do
    second ← wrap "reinit config bundle error: %w" [] (
        initialize_config_bundle (record o {
          cluster_name = t.cluster_name patched;
          endpoint = t.endpoint patched;
          debug = false;
        }))
    wrap "apply updated patches error: %w" [] (
        t.apply_patches loaded (t.same_machine m t.type_control_plane)
          (t.same_machine m t.type_worker) second)

  -- The first bundle with the patches on its control plane config, to read the machine type off.
  unfoldable pub discover : Options → List Text → Result (List t.Patch × t.Bundle)
  unfolding initialize_config_bundle debug_phase
  discover o patches = do
    first ← wrap "initial config bundle error: %w" [] (initialize_config_bundle o)
    loaded ← or_debug o patches (t.load_patches patches)
    patched ←
        or_debug o patches
          (wrap "apply initial patches error: %w" [] (t.apply_patches loaded true false first))
    ok (loaded, patched)

  unfoldable pub full_config_process : Options → List Text → Result t.Bundle
  full_config_process o patches = do
    (loaded, patched) ← discover o patches
    let m = known_type (t.machine_type patched)
    if o.debug
        then debug_phase o patches (t.cluster_name patched) (t.endpoint patched) m
        else rebuild_bundle o loaded m patched

  unfoldable pub serialize_configuration : t.Bundle → t.Machine → Result Text
  serialize_configuration b m = t.serialize m b
