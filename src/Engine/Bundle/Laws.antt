-- ===== src/Engine/Bundle/Laws.antt =====
-- The two ways from patches to a config agree, and what the machine type of the result says.
use talm.Base.Result.{wrap, wrap-eq-ok, ok, >>=-eq-ok}
use talm.Base.Text.{Text}
use talm.Base.{sym, ◌∙◌, ◌≡◌, ◌≢◌, ◌↔◌, inl, inr, Bool, true, false, List, Bool-cases}
use talm.Engine.Bundle.{
  InputOptions, Talos, Options, gen_options, initialize_config_bundle, known_type, discover,
  rebuild_bundle, full_config_process,
}

-- What is assumed of the Talos packages: machine types are compared by value; the control plane
-- config of a new bundle has the type of a control plane; patches that are not for the control
-- plane leave its config alone.
pub record IsTalos (t : Talos) : Type 0 where
  pub same_machine_iff : (a b : t.Machine) → (t.same_machine a b ≡ true) ↔ (a ≡ b)
  pub worker-ne-control_plane : t.type_worker ≢ t.type_control_plane
  pub machine_type-new_bundle :
      (i : InputOptions t.Contract t.Secrets) (b : t.Bundle)
      → t.new_bundle i ≡ ok b
      → t.machine_type b ≡ t.type_control_plane
  pub machine_type-apply_patches :
      (ps : List t.Patch) (worker : Bool) (b c : t.Bundle)
      → t.apply_patches ps false worker b ≡ ok c
      → t.machine_type c ≡ t.machine_type b

-- What a run that is no debug run does behind its first bundle.
pub full_config_process-rebuild_bundle :
    (t : Talos) (o : Options) (patches : List Text) (loaded : List t.Patch) (patched : t.Bundle)
    → o.debug ≡ false
    → discover t o patches ≡ ok (loaded, patched)
    → full_config_process t o patches
      ≡ rebuild_bundle t o loaded (known_type t (t.machine_type patched)) patched
unfolding full_config_process
full_config_process-rebuild_bundle t o patches loaded patched d found = rw (found, d)

module _ (t : Talos) (l : IsTalos t) where
  same_machine-eq-false : (a b : t.Machine) → a ≢ b → t.same_machine a b ≡ false
  same_machine-eq-false a b h = elim (Bool-cases (t.same_machine a b)) [
    | inl e ↦ absurd (h ((l.same_machine_iff a b).0 e))
    | inr e ↦ e
  ]

  machine_type-initialize_config_bundle :
      (o : Options) (b : t.Bundle)
      → initialize_config_bundle t o ≡ ok b
      → t.machine_type b ≡ t.type_control_plane
  unfolding initialize_config_bundle
  machine_type-initialize_config_bundle o b h =
      let (gen, _, e) = >>=-eq-ok (gen_options t o.talos_version o.with_secrets) _ h in
      l.machine_type-new_bundle _ b e

  machine_type-rebuild_bundle :
      (o : Options) (loaded : List t.Patch) (patched : t.Bundle) {b : t.Bundle}
      → rebuild_bundle t o loaded t.type_worker patched ≡ ok b
      → t.machine_type b ≡ t.type_control_plane
  unfolding rebuild_bundle
  machine_type-rebuild_bundle o loaded patched {b} h =
      let (second, made, e) = >>=-eq-ok (wrap _ _ (initialize_config_bundle t _)) _ h in
      let applied = (wrap-eq-ok _ _ _).0 e in
      let no_control_plane =
        same_machine-eq-false t.type_worker t.type_control_plane l.worker-ne-control_plane in
      l.machine_type-apply_patches loaded _ second b (rw no_control_plane at applied)
      ∙ machine_type-initialize_config_bundle _ second ((wrap-eq-ok _ _ _).0 made)

  -- For a worker's patches the bundle that is returned by a run that is no debug run still names a
  -- control plane, under the laws of the Talos packages: the type is read off the control plane
  -- config, which is new and not patched.
  pub machine_type-full_config_process :
      (o : Options) (patches : List Text) (loaded : List t.Patch) (patched b : t.Bundle)
      → o.debug ≡ false
      → discover t o patches ≡ ok (loaded, patched)
      → known_type t (t.machine_type patched) ≡ t.type_worker
      → full_config_process t o patches ≡ ok b
      → t.machine_type b ≡ t.type_control_plane
  machine_type-full_config_process o patches loaded patched b d found worker h =
      let same = full_config_process-rebuild_bundle t o patches loaded patched d found in
      machine_type-rebuild_bundle o loaded patched (rw worker at (sym same ∙ h))
