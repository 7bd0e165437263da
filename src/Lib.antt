-- ===== src/Lib.antt =====
-- Verification library of talm, the program of this repository that renders, applies and upgrades
-- configurations of Talos nodes from Helm charts.
--
-- Parts and files:
--   Base: shared texts (lists of code points), dictionaries, results with errors and panics, and paths
--     as package path/filepath makes them.
--   Json: encoding/json on slices of strings, as far as pkg/modeline uses it.
--   Modeline: pkg/modeline/modeline.go. ParseModeline is parse_modeline, GenerateModeline is
--     generate_modeline, ReadAndParseModeline is read_and_parse_modeline.
--   Yaml: pkg/yamltools/yamltools.go. Comments has CopyComments and ApplyComments, Diff has DiffYAMLs
--     and compareNodes with its passes.
--   Engine: pkg/engine/engine.go. Values has mergeMaps, Load loadValues, Bundle FullConfigProcess,
--     InitializeConfigBundle and debugPhase, Render applyPatchesAndRenderConfig, Template Render,
--     Lookup newLookupFunction and extractResourceData. Template.Helm
--     joins Render to the helm engine.
--   Helm: pkg/engine/helm. Render has the render method of engine.go and its errors, Sort the order of
--     the templates, Include includeFun and tplFun, Functions initFunMap and funcs.go, Charts
--     allTemplates and recAllTpls, Files files.go.
--   Commands: pkg/commands. Root has the globals, the client's wrappers and
--     processModelineAndUpdateGlobals; Template, Apply, Upgrade and Init have a command each with its
--     flags, PreRunE, RunE and loop; NodeConfig has what apply and upgrade do in the same words, Imported what
--     the imported commands do before they run. Requests below Apply and Upgrade relates a run to the
--     requests that it sent.
--   Tools: tools/. Presets has generate_presets.go: the walk of charts/ and generateCode. Import has
--     import_commands.go, on the part of a syntax tree that Syntax keeps.
--   Main: initConfig and loadConfig of main.go; Execute has what is printed of an error, and the exit code.
--   Tests: runs at small inputs, with concrete functions for the parameters.
--
-- How they interact: a node file begins with a modeline. template reads it, renders the chart's
-- templates to patches (Engine.Template), makes the config or its difference to the config without
-- patches (Engine.Render, Yaml.Diff), brings the comments over (Yaml.Comments) and writes the file
-- with a new modeline. apply and upgrade read the modeline, take the file as a patch of a new bundle
-- (Engine.Bundle) and send the result to the nodes.
--
-- State: a command is a function from World to World and a result. World has the global nodes and
-- endpoints, the template files, the standard output, the disk, the requests sent to the nodes, and
-- whether Execute prints no errors.
-- What was changed before an error stays changed. Go's nil slice is none. An error keeps its format
-- and arguments; `message` makes its text, without what a library's error would add to it.
--
-- Parameters: the file system, the Talos client and its answers, the Talos packages for bundles and
-- patches, the YAML codec, strvals, the chart loader, text/template, the tracker that waits for
-- upgraded nodes and the glob library. The tracker and a template are what they do between two calls of
-- the program's functions. Engine takes
-- the rendered templates of a chart as a parameter, too. The laws of parameters are records
-- (IsFileSystem, KeepsFiles, IsTalos, IsTracker), for which Tests has instances.
--
-- Bounds: loops are structural. Comparing nodes recurs on the modified document. The scanner has the
-- limit of bufio.MaxScanTokenSize; its read errors behind an opened file are left out. itoa has one
-- unit of fuel more than the number, and a number has fewer digits than that. The execution of a
-- template recurs on fuel, one unit for each call of include or tpl that is open; where it runs out
-- there is no result. The limit of 1000 nested includes of a name bounds what is needed where the
-- templates do not call tpl; calls of tpl that nest without end have no result, as in the code.
--
-- Not modelled: the registration of flags and commands in main.go, the presets as data
-- (pkg/generated), the warnings on the standard error, what the talosctl commands do that
-- pkg/commands/imported_*.go holds copies of, the packages in internal/, which are copied from Talos,
-- and charts/, which holds no Go code. Of a template, what text/template does between two calls of
-- include or tpl is a parameter.
pub mod Base
pub mod Json
pub mod Modeline
pub mod Yaml
pub mod Engine
pub mod Helm
pub mod Commands
pub mod Main
mod Tests
pub mod Tools
