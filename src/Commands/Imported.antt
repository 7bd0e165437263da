-- ===== src/Commands/Imported.antt =====
-- What tools/import_commands.go adds to the commands that it copies from talosctl: before such a
-- command runs, the modelines of its config files are taken over one behind the other. The text is that
-- of pkg/commands/imported_disks.go; the other imported commands have the same.
pub mod Laws
use talm.Base.{Bool, false, not, List, [], ◌∷◌}
use talm.Base.Text.{Text}
use talm.Commands.{◌>>◌, FileSystem, Command, done}
use talm.Commands.Root.{is_unset, process_modeline_and_update_globals}

module _ (fs : FileSystem) where
  -- The loop over the config files; nodes and endpoints of the modelines are added to the globals.
  unfoldable pub take_modelines : Bool → Bool → List Text → Command fs.Disk (Unit {0})
  unfolding process_modeline_and_update_globals
  take_modelines nodes_from_args endpoints_from_args [] w = done tt w
  take_modelines nodes_from_args endpoints_from_args (file ∷ files) w =
      (process_modeline_and_update_globals fs file nodes_from_args endpoints_from_args false
          >> take_modelines nodes_from_args endpoints_from_args files)
        w

  unfoldable pub pre_run : List Text → Command fs.Disk (Unit {0})
  unfolding take_modelines
  pre_run config_files w =
      take_modelines (not (is_unset w.nodes)) (not (is_unset w.endpoints)) config_files w
