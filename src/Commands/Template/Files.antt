-- ===== src/Commands/Template/Files.antt =====
-- templateWithFiles and the command's RunE of pkg/commands/template.go.
pub mod Laws
pub mod InPlace
use talm.Base.{false, Bool, true, not, if◌then◌else◌, List, [], ◌∷◌, ◌++◌, some, Option, is_nil}
use talm.Base.Text.{Text, codes}
use talm.Base.Result.{wrap, errorf, Error}
use talm.Json.{Slice}
use talm.Modeline.{Config}
use talm.Commands.{◌>>=◌, ◌>>◌, World, Command, done, fail, modify, print, state}
use talm.Commands.Root.{is_unset, nodes_not_set}
use talm.Modeline.{read_and_parse_modeline}
use talm.Commands.Template.{Flags, Environment, generate_output, run_action, show, template}

abbrev no_templates : Error
no_templates = errorf "modeline does not contain templates information" []

abbrev pub templates_not_set : Error
templates_not_set =
    errorf
      "templates are not set for the command: please use `--template` flag to set the templates to render manifest from"
      []

-- The globals that the arguments do not set are the modeline's.
unfoldable pub take_templates : {D : Type 0} → Flags → Config → Command D (Unit {0})
take_templates f c w =
    if f.templates_from_args
    then done tt w
    else if is_unset c.templates
    then fail no_templates w
    else done tt (record w { template_files = c.templates })

unfoldable pub take_globals : {D : Type 0} → Flags → Config → World D → World D
take_globals f c w = record w {
  nodes = if f.nodes_from_args then w.nodes else c.nodes;
  endpoints = if f.endpoints_from_args then w.endpoints else c.endpoints;
}

abbrev pub announced : {D : Type 0} → Text → World D → Text
announced config_file w =
    codes "- talm: file="
    ++ (config_file
        ++ (codes ", nodes="
            ++ (show w.nodes
                ++ (codes ", endpoints="
                    ++ (show w.endpoints
                        ++ (codes ", templates=" ++ (show w.template_files ++ 10 ∷ [])))))))

-- Both checks in front of the rendering; there are config files where this runs.
abbrev pub require_globals : {D : Type 0} → Command D (Unit {0})
require_globals w =
    if is_unset w.nodes
    then fail nodes_not_set w
    else if is_unset w.template_files
    then fail templates_not_set w
    else done tt w

-- Reset of the arguments behind a round.
unfoldable pub reset_args : {D : Type 0} → Flags → World D → World D
reset_args f w = record w {
  template_files = if f.templates_from_args then w.template_files else some [];
  nodes = if f.nodes_from_args then w.nodes else some [];
  endpoints = if f.endpoints_from_args then w.endpoints else some [];
}

module _ (e : Environment) (f : Flags) where
  abbrev file_modeline : Text → Command e.fs.Disk Config
  file_modeline config_file w = (
    w,
    wrap "modeline parsing failed: %v\n" []
        (read_and_parse_modeline (e.fs.read_file w.disk) config_file),
  )

  -- A write that fails is not noticed.
  unfoldable pub store : Text → Text → Command e.fs.Disk (Unit {0})
  store config_file output w =
      done tt (record w { disk = (e.fs.write_file config_file output w.disk).0 })

  unfoldable pub put_output : Text → Bool → Text → Command e.fs.Disk (Unit {0})
  unfolding store
  put_output config_file first_file_processed output =
      if f.inplace
      then store config_file output
      else if first_file_processed
      then print (codes "---\n" ++ output)
      else print output

  unfoldable pub template_file :
      Text → Bool → Option e.clients.Client → Slice → Command e.fs.Disk (Unit {0})
  unfolding generate_output put_output
  template_file config_file first_file_processed cli context = do
    output ← generate_output e f cli context
    put_output config_file first_file_processed output

  -- The first part of a round, up to the reset of the globals to the modeline's.
  unfoldable pub begin_round : Text → Command e.fs.Disk (Unit {0})
  unfolding take_templates take_globals
  begin_round config_file = do
    c ← file_modeline config_file
    take_templates f c
    modify (take_globals f c)

  unfoldable pub end_round : Bool → Text → Command e.fs.Disk (Unit {0})
  unfolding run_action template_file reset_args
  end_round first_file_processed config_file = do
    w ← state
    print (announced config_file w)
    require_globals
    run_action e f (template_file config_file first_file_processed)
    modify (reset_args f)

  -- One round of the loop.
  unfoldable pub round : Bool → Text → Command e.fs.Disk (Unit {0})
  unfolding begin_round end_round
  round first_file_processed config_file = do
    begin_round config_file
    end_round first_file_processed config_file

  unfoldable pub rounds : Bool → List Text → Command e.fs.Disk (Unit {0})
  unfolding round
  rounds first_file_processed [] = done tt
  rounds first_file_processed (config_file ∷ config_files) = do
    round first_file_processed config_file
    rounds true config_files

  unfoldable pub template_with_files :
      Option e.clients.Client → Slice → Command e.fs.Disk (Unit {0})
  unfolding rounds
  template_with_files cli context = rounds false f.config_files

  unfoldable pub run : Command e.fs.Disk (Unit {0})
  unfolding run_action template_with_files template
  run = run_action e f (if is_nil f.config_files then template e f else template_with_files)
