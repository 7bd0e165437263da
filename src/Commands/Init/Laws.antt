-- ===== src/Commands/Init/Laws.antt =====
-- What init does to files that are there.
use talm.Base.Text.{Text, text_eq}
use talm.Base.Dict.{Dict}
use talm.Base.FilePath.{base, dir}
use talm.Base.Result.{Result, ok, err, panic, exit, wrap}
use talm.Base.{subst, Bool-cases, true, false, inl, inr, ◌≡◌, ◌∙◌, refl, List, [], ◌∷◌, sym}
use talm.Commands.{FileSystem, World, Command, on_disk, continue, continue-keeps}
use talm.Commands.Init.{
  Flags, Environment, validate_file_exists, make_dir, write_to_destination, write_chart_file,
  write_preset_file, write_library_file, write_presets, write_secrets_bundle_to_file,
  require_preset, is_valid_preset, version_contract, talosconfig_bundle, split_chart, init, run,
  already_exists, library_name, chart_yaml,
}

-- A file is there behind a change of the disk, and holds what it held.
abbrev pub Kept : (fs : FileSystem) → Text → fs.Disk → fs.Disk → Type 0
Kept fs file before after =
    (fs.exists after file ≡ true) × (fs.read_file after file ≡ fs.read_file before file)

-- Writing a file that is not there and making a directory change no other file, and the directory
-- of a path is not the path.
pub record KeepsFiles (fs : FileSystem) : Type 0 where
  pub write_file-Kept :
      (file path content : Text) (disk : fs.Disk)
      → fs.exists disk file ≡ true
      → fs.exists disk path ≡ false
      → Kept fs file disk (fs.write_file path content disk).0
  pub mkdir_all-Kept :
      (file path : Text) (disk : fs.Disk)
      → fs.exists disk file ≡ true
      → Kept fs file disk (fs.mkdir_all path disk).0
  pub exists-mkdir_all-dir :
      (path : Text) (disk : fs.Disk)
      → fs.exists disk path ≡ false
      → fs.exists (fs.mkdir_all (dir path) disk).0 path ≡ false

-- A first step that keeps more than the whole command.
continue-into :
    {D A B : Type 0} (P Q : World D → Type 0) (m : World D × Result A) (f : Command D B)
    → Q m.0
    → ((w : World D) → Q w → P w)
    → ((w : World D) → Q w → P (f w).0)
    → P (continue m λ _. f).0
continue-into P Q (w, ok a) f h k c = c w h
continue-into P Q (w, err x) f h k c = k w h
continue-into P Q (w, panic) f h k c = k w h
continue-into P Q (w, exit out) f h k c = k w h

Keeps : (fs : FileSystem) → Text → fs.Disk → World fs.Disk → Type 0
Keeps fs file before w = Kept fs file before w.disk

module _ (e : Environment) (f : Flags) (l : KeepsFiles e.fs) (file : Text)
    (before : e.fs.Disk) where
  -- With `force` unset a file that is there is refused, and the state is the one of before.
  validate_file_exists-free :
      (path : Text) (w : World e.fs.Disk)
      → f.force ≡ false
      → e.fs.exists w.disk path ≡ false
      → validate_file_exists e f path w ≡ (w, ok tt)
  unfolding validate_file_exists
  validate_file_exists-free path w g h = rw (g, h)

  validate_file_exists-taken :
      (path : Text) (w : World e.fs.Disk)
      → f.force ≡ false
      → e.fs.exists w.disk path ≡ true
      → validate_file_exists e f path w ≡ (w, err (already_exists path))
  unfolding validate_file_exists
  validate_file_exists-taken path w g h = rw (g, h)

  write-Keeps :
      (content path : Text) (w : World e.fs.Disk)
      → e.fs.exists w.disk path ≡ false
      → (Keeps e.fs file before) w
      → (Keeps e.fs file before) (record w { disk = (e.fs.write_file path content w.disk).0 })
  unfolding Keeps
  write-Keeps content path w h (there, same) =
      let (x, y) = l.write_file-Kept file path content w.disk there h in (x, y ∙ same)

  make_dir-Keeps :
      (path : Text) (w : World e.fs.Disk)
      → (Keeps e.fs file before) w
      → (Keeps e.fs file before) (make_dir e f path w).0
  unfolding Keeps
  make_dir-Keeps path w (there, same) =
      let (x, y) = l.mkdir_all-Kept file path w.disk there in (x, y ∙ same)

  abbrev write_behind : Text → Text → Command e.fs.Disk (Unit {0})
  write_behind content path w =
      continue (make_dir e f (dir path) w) λ _. on_disk (e.fs.write_file path content)

  write_to_destination-Keeps :
      (content path : Text) (w : World e.fs.Disk)
      → f.force ≡ false
      → (Keeps e.fs file before) w
      → (Keeps e.fs file before) (write_to_destination e f content path w).0
  unfolding write_to_destination
  write_to_destination-Keeps content path w g k = elim (Bool-cases (e.fs.exists w.disk path)) [
    | inl h ↦
        subst (λ m. (Keeps e.fs file before) (continue m λ _. write_behind content path).0)
          (sym (validate_file_exists-taken path w g h)) k
    | inr h ↦
        subst (λ m. (Keeps e.fs file before) (continue m λ _. write_behind content path).0)
          (sym (validate_file_exists-free path w g h))
          (continue-into (Keeps e.fs file before)
            (λ v. (Keeps e.fs file before) v × (e.fs.exists v.disk path ≡ false))
            (make_dir e f (dir path) w) (on_disk (e.fs.write_file path content))
            (make_dir-Keeps (dir path) w k, l.exists-mkdir_all-dir path w.disk h) (λ v p. p.0)
            (λ v p. write-Keeps content path v p.1 p.0))
  ]

  write_chart_file-Keeps :
      (name last content path : Text) (w : World e.fs.Disk)
      → f.force ≡ false
      → (Keeps e.fs file before) w
      → (Keeps e.fs file before) (write_chart_file e f name last content path w).0
  unfolding write_chart_file
  write_chart_file-Keeps name last content path w g k =
      elim (Bool-cases (text_eq last chart_yaml)) [
        | inl h ↦ rw h (write_to_destination-Keeps (e.sprintf content name e.version) path w g k)
        | inr h ↦ rw h (write_to_destination-Keeps content path w g k)
      ]

  write_preset_file-Keeps :
      (cluster_name content : Text) (parts : Text × List Text × Text) (w : World e.fs.Disk)
      → f.force ≡ false
      → (Keeps e.fs file before) w
      → (Keeps e.fs file before) (write_preset_file e f cluster_name parts content w).0
  unfolding write_preset_file
  write_preset_file-Keeps cluster_name content (chart, path, last) w g k =
      elim (Bool-cases (text_eq chart f.preset)) [
        | inl h ↦ rw h (write_chart_file-Keeps cluster_name last content _ w g k)
        | inr h ↦ rw h k
      ]

  write_library_file-Keeps :
      (path content : Text) (parts : Text × List Text × Text) (w : World e.fs.Disk)
      → f.force ≡ false
      → (Keeps e.fs file before) w
      → (Keeps e.fs file before) (write_library_file e f path parts content w).0
  unfolding write_library_file
  write_library_file-Keeps path content (chart, rest, last) w g k =
      elim (Bool-cases (text_eq chart library_name)) [
        | inl h ↦ rw h (write_chart_file-Keeps library_name last content _ w g k)
        | inr h ↦ rw h k
      ]

  write_presets-Keeps :
      (cluster_name : Text) (files : Dict Text) (w : World e.fs.Disk)
      → f.force ≡ false
      → (Keeps e.fs file before) w
      → (Keeps e.fs file before) (write_presets e f cluster_name files w).0
  unfolding write_presets
  write_presets-Keeps cluster_name [] w g k = k
  write_presets-Keeps cluster_name ((path, content) ∷ files) w g k =
      continue-keeps (Keeps e.fs file before)
        (write_preset_file e f cluster_name (split_chart path) content w) _
        (write_preset_file-Keeps cluster_name content (split_chart path) w g k)
        λ _ v x.
          continue-keeps (Keeps e.fs file before)
            (write_library_file e f path (split_chart path) content v) _
            (write_library_file-Keeps path content (split_chart path) v g x)
            λ _ u y. write_presets-Keeps cluster_name files u g y

  validate_file_exists-Keeps :
      (path : Text) (w : World e.fs.Disk)
      → f.force ≡ false
      → (Keeps e.fs file before) w
      → (Keeps e.fs file before) (validate_file_exists e f path w).0
  validate_file_exists-Keeps path w g k = elim (Bool-cases (e.fs.exists w.disk path)) [
    | inl h ↦
        subst (λ m. (Keeps e.fs file before) m.0) (sym (validate_file_exists-taken path w g h)) k
    | inr h ↦
        subst (λ m. (Keeps e.fs file before) m.0) (sym (validate_file_exists-free path w g h)) k
  ]

  write_secrets-Keeps :
      (secrets : e.Secrets) (w : World e.fs.Disk)
      → f.force ≡ false
      → (Keeps e.fs file before) w
      → (Keeps e.fs file before) (write_secrets_bundle_to_file e f secrets w).0
  unfolding write_secrets_bundle_to_file
  write_secrets-Keeps secrets w g k =
      continue-keeps (Keeps e.fs file before) (w, e.marshal_secrets secrets) _ k
        λ bytes v x.
          continue-keeps (Keeps e.fs file before) (validate_file_exists e f _ v) _
            (validate_file_exists-Keeps _ v g x) λ _ u y. write_to_destination-Keeps bytes _ u g y

  require_preset-Keeps :
      (w : World e.fs.Disk)
      → (Keeps e.fs file before) w
      → (Keeps e.fs file before) (require_preset e f w).0
  unfolding require_preset
  require_preset-Keeps w k = elim (Bool-cases (is_valid_preset f.preset e.available_presets)) [
    | inl h ↦ rw h k
    | inr h ↦ rw h k
  ]

  init-Keeps :
      (w : World e.fs.Disk)
      → f.force ≡ false
      → (Keeps e.fs file before) w
      → (Keeps e.fs file before) (init e f w).0
  unfolding init
  init-Keeps w g k =
      continue-keeps (Keeps e.fs file before) (w, version_contract e f) _ k
        λ version w1 k1.
          continue-keeps (Keeps e.fs file before) (w1, wrap _ _ (e.new_secrets version)) _ k1
            λ secrets w2 k2.
              continue-keeps (Keeps e.fs file before) (require_preset e f w2) _
                (require_preset-Keeps w2 k2)
                λ _ w3 k3.
                  continue-keeps (Keeps e.fs file before)
                    (write_secrets_bundle_to_file e f secrets w3) _
                    (write_secrets-Keeps secrets w3 g k3)
                    λ _ w4 k4.
                      continue-keeps (Keeps e.fs file before) (w4, e.absolute e.root_dir) _ k4
                        λ path w5 k5.
                          continue-keeps (Keeps e.fs file before)
                            (w5, talosconfig_bundle e f _ (base path)) _ k5
                            λ bundle w6 k6.
                              continue-keeps (Keeps e.fs file before)
                                (w6, wrap _ _ (e.marshal_talosconfig bundle)) _ k6
                                λ talosconfig w7 k7.
                                  continue-keeps (Keeps e.fs file before)
                                    (write_to_destination e f talosconfig _ w7) _
                                    (write_to_destination-Keeps talosconfig _ w7 g k7)
                                    λ _ w8 k8.
                                      write_presets-Keeps (base path) e.preset_files w8 g k8

-- Without `--force` and `--update` init leaves every file that is there as it is, whether it
-- succeeds or fails, if writes to paths that are not there and the making of directories leave it.
pub run-Kept :
    (e : Environment) (f : Flags) (l : KeepsFiles e.fs) (file : Text) (w : World e.fs.Disk)
    → f.force ≡ false
    → f.update ≡ false
    → e.fs.exists w.disk file ≡ true
    → Kept e.fs file w.disk (run e f w).0.disk
unfolding run Keeps
run-Kept e f l file w g u there = rw u (init-Keeps e f l file w.disk w g (there, refl))
