-- ===== src/Commands/NodeConfig.antt =====
-- The config that pkg/commands/apply.go and pkg/commands/upgrade.go make of a node file, in the same
-- words.
pub mod Laws
use talm.Base.{[], ◌∷◌}
use talm.Base.Text.{Text}
use talm.Base.Result.{◌>>=◌, Result, wrap}
use talm.Engine.Bundle.{Talos, Options, full_config_process, serialize_configuration}

-- The patched bundle, by the machine type of its control plane config.
unfoldable pub node_config : Talos → Options → Text → Result Text
unfolding full_config_process serialize_configuration
node_config t o config_file = do
  b ←
      wrap "full config processing error: %s" []
        (full_config_process t o ((b'@' ∷ config_file) ∷ []))
  wrap "error serializing configuration: %s" [] (serialize_configuration t b (t.machine_type b))
