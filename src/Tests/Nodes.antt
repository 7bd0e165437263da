-- ===== src/Tests/Nodes.antt =====
-- A node file and a state with it.
use talm.Base.{some, none, false, [], ◌∷◌, ◌++◌}
use talm.Base.Text.{Text, codes}
use talm.Base.Dict.{Dict}
use talm.Json.{Slice}
use talm.Modeline.{Config, generate_modeline}
use talm.Commands.{World}

abbrev pub nodes : Slice
nodes = some (codes "n" ∷ [])

abbrev pub templates : Slice
templates = some (codes "a.yaml" ∷ [])

abbrev pub config : Config
config = record { nodes = nodes; endpoints = nodes; templates = templates }

abbrev pub file : Text
file = codes "node.yaml"

abbrev pub world : World (Dict Text)
world = record {
  nodes = none;
  endpoints = none;
  template_files = none;
  out = [];
  disk = (file, generate_modeline nodes nodes templates ++ 10 ∷ []) ∷ [];
  requests = [];
  suppress_errors = false;
}
