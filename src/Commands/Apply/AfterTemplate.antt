-- ===== src/Commands/Apply/AfterTemplate.antt =====
-- pkg/commands: `template -f FILE -I` and then `apply -f FILE`, on one disk.
use talm.Base.{◌≡◌, ◌<◌, refl, sym, ap, ◌∙◌, Bool, Bool-cases, true, false, inl, inr, ◌∷◌}
use talm.Base.Text.{Text}
use talm.Base.Result.{Result, ok, err-ne-ok, ok_injective}
use talm.Json.{Slice}
use talm.Modeline.{Config, read_and_parse_modeline, generate_modeline, max_token}
use talm.Modeline.Generate.{IsPlain}
use talm.Modeline.Laws.{bytes}
use talm.Engine.Bundle.{Talos}
use talm.Commands.{World, IsFileSystem, apply_configuration, continue-eq-ok}
use talm.Commands.NodeConfig.{node_config}
use talm.Commands.Root.{Clients, is_unset, update_slice, update_globals}
use talm.Commands.Template
use talm.Commands.Template.Files.{begin_round, end_round}
use talm.Commands.Template.Files
use talm.Commands.Template.Files.InPlace.{
  used, with_used, begin_round-used, round-read_and_parse_modeline,
}
use talm.Commands.Apply
use talm.Commands.Apply.Laws.{round-requests}

module _ (env : Template.Environment) (f : Template.Flags) where
  end_round-set :
      (file : Text) (later : Bool) (w : World env.fs.Disk)
      → (end_round env f later file w).1 ≡ ok tt
      → is_unset w.nodes ≡ false
  unfolding end_round
  end_round-set file later w r = elim (Bool-cases (is_unset w.nodes)) [
    | inl h ↦ absurd (err-ne-ok (rw h at r))
    | inr h ↦ h
  ]

  -- A round that succeeds has nodes.
  round-used_set :
      (file : Text) (later : Bool) (w : World env.fs.Disk) (c : Config)
      → read_and_parse_modeline (env.fs.read_file w.disk) file ≡ ok c
      → (Files.round env f later file w).1 ≡ ok tt
      → is_unset (used env f w c).nodes ≡ false
  unfolding Files.round
  round-used_set file later w c h r =
      let (_, began, same) = continue-eq-ok (begin_round env f file w) _ r in
      let ends = same ∙ ap (end_round env f later file) (begin_round-used env f file w c h began) in
      end_round-set file later (with_used env f w c) (sym (ap (λ m. m.1) ends) ∙ r)

update_slice_taken :
    (new old : Slice) → is_unset new ≡ false → update_slice false true new old ≡ new
unfolding update_slice
update_slice_taken new old h = rw h refl

nodes-update_globals :
    {D : Type 0} (e : Bool) (c : Config) (v : World D)
    → is_unset c.nodes ≡ false
    → (update_globals false e true c v).nodes ≡ c.nodes
unfolding update_globals
nodes-update_globals e c v h = update_slice_taken c.nodes v.nodes h

module _ (env : Template.Environment) (clients : Clients) (talos : env.fs.Disk → Talos)
    (answer : clients.Client → Slice → Text → Text → Bool → Text → Result Text) where
  -- What apply runs in: the files are those of template.
  abbrev pub apply_environment : Apply.Environment
  apply_environment = record { fs = env.fs; clients = clients; talos = talos; answer = answer }

  -- A file that template wrote in place can be applied: where both rounds succeed, the second one sends
  -- one request, the config made of the file, to the nodes that template used, whatever the globals of
  -- the second run are. The conditions on the modeline are those under which it reads back; the nodes
  -- are not given as arguments of apply, and the client is not an insecure one.
  pub round-requests_after_template :
      (f : Template.Flags) (g : Apply.Flags) (file : Text) (later : Bool) (w v : World env.fs.Disk)
      (c : Config)
      → IsFileSystem env.fs
      → ((output : Text) → (env.fs.write_file file output w.disk).1 ≡ ok tt)
      → f.inplace ≡ true
      → read_and_parse_modeline (env.fs.read_file w.disk) file ≡ ok c
      → bytes (
          generate_modeline
            (used env f w c).nodes
            (used env f w c).endpoints
            (used env f w c).templates)
        < max_token
      → IsPlain (used env f w c).nodes
      → IsPlain (used env f w c).endpoints
      → IsPlain (used env f w c).templates
      → (Files.round env f later file w).1 ≡ ok tt
      → v.disk ≡ (Files.round env f later file w).0.disk
      → g.insecure ≡ false
      → g.nodes_from_args ≡ false
      → (Apply.round apply_environment g file v).1 ≡ ok tt
      → (result : Text) × (node_config (talos v.disk) (Apply.engine_options g) file ≡ ok result)
        × ((Apply.round apply_environment g file v).0.requests
            ≡ apply_configuration (used env f w c).nodes result ∷ v.requests)
  round-requests_after_template f g file later w v c law can inplace h size n e t templated disk
        secure no_args applied =
      let (d, result, found, made, _, sent, _, _) =
        round-requests apply_environment g file v secure applied in
      let back =
        round-read_and_parse_modeline env f file later w c law can inplace h size n e t templated in
      let same : d ≡ used env f w c =
        ok_injective _ _
          (sym found ∙ ap (λ x. read_and_parse_modeline (env.fs.read_file x) file) disk ∙ back) in
      let set = ap (λ x. is_unset x.nodes) same ∙ round-used_set env f file later w c h templated in
      (
        result,
        made,
        sent
            ∙ ap
                (λ b.
                  apply_configuration (update_globals b g.endpoints_from_args true d v).nodes result
                  ∷ v.requests)
                no_args
            ∙ ap (λ x. apply_configuration x result ∷ v.requests)
                (nodes-update_globals g.endpoints_from_args d v set ∙ ap (λ x. x.nodes) same),
      )
