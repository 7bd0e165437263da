-- ===== src/Tests.antt =====
-- Runs of the model at small inputs. `Fixtures` has the parameters' concrete functions.
mod Fixtures
mod Modeline
mod Yaml
mod Engine
mod Nodes
mod Commands
mod Upgrade
mod Init
mod Helm
mod Paths
mod Templates
mod Tools
