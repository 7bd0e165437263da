-- ===== src/Commands/NodeConfig/Laws.antt =====
-- The config that apply and upgrade make of a worker's node file.
use talm.Base.Text.{Text}
use talm.Base.Result.{ok, wrap, >>=-eq-ok, wrap-eq-ok}
use talm.Base.{false, ◌≡◌, [], ◌∷◌, List, ap, ◌∙◌, sym}
use talm.Engine.Bundle.{
  Talos, Options, discover, known_type, full_config_process, serialize_configuration,
}
use talm.Engine.Bundle.Laws.{IsTalos, machine_type-full_config_process}
use talm.Commands.NodeConfig.{node_config}

-- A node file that says it is a worker's is, in a run that is no debug run and under the laws of
-- the Talos packages, serialized as a control plane config of the bundle that was built.
pub node_config-worker :
    (t : Talos) (l : IsTalos t) (o : Options) (file r : Text) (loaded : List t.Patch)
    → (patched : t.Bundle) → o.debug ≡ false
    → discover t o ((b'@' ∷ file) ∷ []) ≡ ok (loaded, patched)
    → known_type t (t.machine_type patched) ≡ t.type_worker
    → node_config t o file ≡ ok r
    → (b : t.Bundle) × (full_config_process t o ((b'@' ∷ file) ∷ []) ≡ ok b)
      × (t.serialize t.type_control_plane b ≡ ok r)
unfolding node_config serialize_configuration
node_config-worker t l o file r loaded patched d found worker h =
    let (b, made, e) = >>=-eq-ok (wrap _ _ (full_config_process t o ((b'@' ∷ file) ∷ []))) _ h in
    let full = (wrap-eq-ok _ _ (full_config_process t o ((b'@' ∷ file) ∷ []))).0 made in
    let m = machine_type-full_config_process t l o _ loaded patched b d found worker full in
    (
      b,
      full,
      sym (ap (λ m. t.serialize m b) m) ∙ (wrap-eq-ok _ _ (t.serialize (t.machine_type b) b)).0 e,
    )
