-- ===== src/Commands/Template/Files/InPlace.antt =====
-- The files that `template -f FILE -I` writes.
use talm.Base.Text.{Text}
use talm.Json.{Slice}
use talm.Base.Result.{err-ne-ok, Result, ok, err, panic, exit}
use talm.Base.{
  subst, some, Bool, Bool-cases, true, false, inl, inr, ◌≡◌, ◌<◌, ◌∙◌, refl, [], ◌∷◌, Option, none,
  some, ap, sym, ◌++◌, if◌then◌else◌,
}
use talm.Commands.{◌>>◌, modify, World, Command, continue, continue-eq-ok, IsFileSystem}
use talm.Commands.Root.Laws.{with_client-runs}
use talm.Commands.Root.{is_unset, with_client_maintenance}
use talm.Modeline.{Config, read_and_parse_modeline, generate_modeline, max_token}
use talm.Modeline.Generate.{IsPlain}
use talm.Modeline.Laws.{bytes, read_and_parse_modeline-generate_modeline}
use talm.Commands.Template.{
  Flags, Environment, run_action, generate_output, document, rendered, warn,
}
use talm.Commands.Template.Files.{
  round, end_round, begin_round, take_templates, take_globals, template_file, put_output, store,
  reset_args, templates_not_set, announced, require_globals,
}

require_globals-set :
    {D : Type 0} (w : World D)
    → is_unset w.nodes ≡ false
    → is_unset w.template_files ≡ false
    → require_globals w ≡ (w, ok tt)
require_globals-set w h t = rw (h, t)

module _ (env : Environment) where
  maintenance-runs :
      (action : Option env.clients.Client → Slice → Command env.fs.Disk (Unit {0}))
      → (dialled : Result env.clients.Client) (w : World env.fs.Disk)
      → (continue (w, dialled) λ cli. action (some cli) none).1 ≡ ok tt
      → (cli : Option env.clients.Client) × (context : Slice) × ((continue
            (w, dialled)
            λ cli. action (some cli) none)
          ≡ action cli context w)
  maintenance-runs action (ok cli) w r = (some cli, none, refl)
  maintenance-runs action (err e) w r = cc
  maintenance-runs action panic w r = cc
  maintenance-runs action (exit out) w r = cc

module _ (env : Environment) (f : Flags) where
  -- An action that succeeds ran in the state it was given in.
  run_action-runs :
      (action : Option env.clients.Client → Slice → Command env.fs.Disk (Unit {0}))
      → (w : World env.fs.Disk) → is_unset w.nodes ≡ false
      → (run_action env f action w).1 ≡ ok tt
      → (cli : Option env.clients.Client) × (context : Slice) × (run_action env f action w
          ≡ action cli context w)
  unfolding run_action with_client_maintenance
  run_action-runs action w h r = elim (Bool-cases f.offline) [
    | inl o ↦ (none, none, rw o)
    | inr o ↦ elim (Bool-cases f.insecure) [
      | inl i ↦
          rw (o, i)
            (maintenance-runs env action (env.clients.dial_maintenance w.nodes w.endpoints []) w
              (rw (o, i) at r))
      | inr i ↦
          rw (o, i)
            (let (cli, e) =
                with_client-runs env.clients (λ cli context. action (some cli) context) w h
                  (rw (o, i) at r) in
              (some cli, w.nodes, e))
    ]
  ]

  template_file-inplace :
      (file : Text) (later : Bool) (cli : Option env.clients.Client) (context : Slice)
      → (w : World env.fs.Disk) → f.inplace ≡ true
      → (template_file env f file later cli context w).1 ≡ ok tt
      → (result : Text) × ((template_file env f file later cli context w).0.disk
          ≡ (env.fs.write_file file
              (document (generate_modeline w.nodes w.endpoints w.template_files) result)
              w.disk).0)
  unfolding template_file put_output store generate_output
  template_file-inplace file later cli context w i r =
      let (output, made, same) = continue-eq-ok (generate_output env f cli context w) _ r in
      let (result, e, made2) =
        continue-eq-ok {A = Text} (w, rendered env f w.disk cli context w.template_files) _ made in
      (result, rw (e, i))

  -- What an action's round writes, under the modeline of the globals it runs with.
  Written : Text → World env.fs.Disk → World env.fs.Disk × Result (Unit {0}) → Type 0
  Written file w after =
      (result : Text) × (after.0.disk
        ≡ (env.fs.write_file file
            (document (generate_modeline w.nodes w.endpoints w.template_files) result) w.disk).0)

  action-Written :
      (file : Text) (later : Bool) (w : World env.fs.Disk)
      → f.inplace ≡ true
      → is_unset w.nodes ≡ false
      → (continue
          (run_action env f (template_file env f file later) w)
          λ _. modify (reset_args f)).1
        ≡ ok tt
      → Written file w (
          continue (run_action env f (template_file env f file later) w) λ _. modify (reset_args f))
  unfolding Written reset_args
  action-Written file later w i h r =
      let (a, ran, same) =
        continue-eq-ok (run_action env f (template_file env f file later) w) _ r in
      let (cli, context, e) = run_action-runs (template_file env f file later) w h ran in
      let (result, d) =
        template_file-inplace file later cli context w i (sym (ap (λ m. m.1) e) ∙ ran) in
      (result, ap (λ m. m.0.disk) same ∙ (ap (λ m. m.0.disk) e ∙ d))

  no_templates :
      (file : Text) (later : Bool) (w : World env.fs.Disk)
      → is_unset w.nodes ≡ false
      → is_unset w.template_files ≡ true
      → (end_round env f later file w).1 ≡ err templates_not_set
  unfolding end_round
  no_templates file later w h t = rw (h, t)

  -- Behind its checks a round acts in the state that it printed in.
  end_round-acts :
      (file : Text) (later : Bool) (w : World env.fs.Disk)
      → is_unset w.nodes ≡ false
      → is_unset w.template_files ≡ false
      → end_round env f later file w
        ≡ continue
            (run_action env f
              (template_file env f file later)
              (record w { out = w.out ++ announced file w }))
            λ _. modify (reset_args f)
  unfolding end_round
  end_round-acts file later w h t =
      ap
        (λ m.
          continue m
            λ _. run_action env f (template_file env f file later) >> modify (reset_args f))
        (require_globals-set (record w { out = w.out ++ announced file w }) h t)

  end_round-Written :
      (file : Text) (later : Bool) (w : World env.fs.Disk)
      → f.inplace ≡ true
      → (end_round env f later file w).1 ≡ ok tt
      → Written file w (end_round env f later file w)
  unfolding end_round Written
  end_round-Written file later w i r = elim (Bool-cases (is_unset w.nodes)) [
    | inl h ↦ absurd (err-ne-ok (rw h at r))
    | inr h ↦ elim (Bool-cases (is_unset w.template_files)) [
      | inl t ↦ absurd (err-ne-ok (sym (no_templates file later w h t) ∙ r))
      | inr t ↦
          let acts = end_round-acts file later w h t in
          subst (Written file w) (sym acts) (
            action-Written file later (record w { out = w.out ++ announced file w }) i h
              (sym (ap (λ m. m.1) acts) ∙ r))
    ]
  ]

  -- The modeline that a round uses for a file's.
  abbrev pub used : World env.fs.Disk → Config → Config
  used w c = record {
    nodes = if f.nodes_from_args then w.nodes else c.nodes;
    endpoints = if f.endpoints_from_args then w.endpoints else c.endpoints;
    templates = if f.templates_from_args then w.template_files else c.templates;
  }

  abbrev pub with_used : World env.fs.Disk → Config → World env.fs.Disk
  with_used w c = record w {
    nodes = (used w c).nodes;
    endpoints = (used w c).endpoints;
    template_files = (used w c).templates;
  }

  -- A round that succeeds takes the globals over and ends in the new state.
  pub begin_round-used :
      (file : Text) (w : World env.fs.Disk) (c : Config)
      → read_and_parse_modeline (env.fs.read_file w.disk) file ≡ ok c
      → (begin_round env f file w).1 ≡ ok tt
      → (begin_round env f file w).0 ≡ with_used w c
  unfolding begin_round take_templates take_globals
  begin_round-used file w c h r = elim (Bool-cases f.templates_from_args) [
    | inl t ↦ rw (h, t)
    | inr t ↦ elim (Bool-cases (is_unset c.templates)) [
      | inl u ↦ absurd (err-ne-ok (rw (h, t, u) at r))
      | inr u ↦ rw (h, t, u)
    ]
  ]

  -- A round in place that succeeds leaves a file whose modeline holds the globals that the round
  -- used, so that the next run finds them; if files can be written and read back, the line is
  -- below the scanner's limit, every value is valid Unicode and none holds `, `.
  pub round-read_and_parse_modeline :
      (file : Text) (later : Bool) (w : World env.fs.Disk) (c : Config)
      → IsFileSystem env.fs
      → ((output : Text) → (env.fs.write_file file output w.disk).1 ≡ ok tt)
      → f.inplace ≡ true
      → read_and_parse_modeline (env.fs.read_file w.disk) file ≡ ok c
      → bytes (generate_modeline (used w c).nodes (used w c).endpoints (used w c).templates)
        < max_token
      → IsPlain (used w c).nodes
      → IsPlain (used w c).endpoints
      → IsPlain (used w c).templates
      → (round env f later file w).1 ≡ ok tt
      → read_and_parse_modeline (env.fs.read_file (round env f later file w).0.disk) file
        ≡ ok (used w c)
  unfolding round Written
  round-read_and_parse_modeline file later w c law can i h k n e t r =
      let (a, began, same) = continue-eq-ok (begin_round env f file w) _ r in
      let ends = same ∙ ap (end_round env f later file) (begin_round-used file w c h began) in
      let (result, d) =
        end_round-Written file later (with_used w c) i (sym (ap (λ m. m.1) ends) ∙ r) in
      read_and_parse_modeline-generate_modeline (used w c).nodes (used w c).endpoints
        (used w c).templates _ file (warn ++ 10 ∷ (result ++ 10 ∷ []))
        (ap (λ disk. env.fs.read_file disk file) (ap (λ m. m.0.disk) ends ∙ d)
          ∙ law.read_file-write_file file _ w.disk (can _))
        k n e t
