-- ===== src/Commands/Template/Files/Laws.antt =====
-- What a round of templateWithFiles leaves for the next ones, and what it leaves in the file.
use talm.Base.Text.{Text}
use talm.Json.{Slice}
use talm.Base.Result.{wrap, Result, ok, err, panic, exit}
use talm.Base.{
  sym, ◌∙◌, Bool, Bool-cases, true, false, inl, inr, ◌≡◌, refl, List, [], ◌∷◌, none, ap,
}
use talm.Commands.{World, continue, continue_assoc, Command, modify}
use talm.Commands.Root.{is_unset}
use talm.Modeline.{Config, read_and_parse_modeline}
use talm.Commands.Template.{Flags, Environment}
use talm.Commands.Template.Files.{
  take_templates, take_globals, round, rounds, begin_round, end_round,
}

-- The state without the globals.
abbrev pub with_globals : {D : Type 0} → Slice → Slice → Slice → World D → World D
with_globals nodes endpoints templates w = record w {
  nodes = nodes;
  endpoints = endpoints;
  template_files = templates;
}

abbrev pub observed : {D A : Type 0} → World D × Result A → World D × Result A
observed (w, r) = (with_globals none none none w, r)

module _ (env : Environment) (f : Flags) where
  -- Once a modeline was taken the globals of before are gone.
  taken :
      (c : Result Config) (k : Command env.fs.Disk (Unit {0})) (n e t : Slice)
      → (w : World env.fs.Disk) → f.nodes_from_args ≡ false
      → f.endpoints_from_args ≡ false
      → f.templates_from_args ≡ false
      → observed (
          continue
            (continue
              (w, c)
              λ c. λ w. continue (take_templates f c w) λ _. modify (take_globals f c))
            λ _. k)
        ≡ observed (
            continue
              (continue
                (with_globals n e t w, c)
                λ c. λ w. continue (take_templates f c w) λ _. modify (take_globals f c))
              λ _. k)
  unfolding take_templates take_globals
  taken (ok c) k n e t w hn he ht = elim (Bool-cases (is_unset c.templates)) [
    | inl h ↦ rw (ht, h)
    | inr h ↦ rw (ht, h, hn, he)
  ]
  taken (err x) k n e t w hn he ht = refl
  taken panic k n e t w hn he ht = refl
  taken (exit out) k n e t w hn he ht = refl

  begin_round-with_globals :
      (file : Text) (k : Command env.fs.Disk (Unit {0})) (n e t : Slice) (w : World env.fs.Disk)
      → f.nodes_from_args ≡ false
      → f.endpoints_from_args ≡ false
      → f.templates_from_args ≡ false
      → observed (continue (begin_round env f file w) λ _. k)
        ≡ observed (continue (begin_round env f file (with_globals n e t w)) λ _. k)
  unfolding begin_round
  begin_round-with_globals file k n e t w =
      taken
        (wrap "modeline parsing failed: %v\n" []
          (read_and_parse_modeline (env.fs.read_file w.disk) file))
        k n e t w

  -- Where the arguments set none of them, the nodes, endpoints and templates that are left over
  -- from before have no influence on a run over files: not on its result, on what it prints, on
  -- the files or on the requests.
  pub rounds-with_globals :
      (later : Bool) (files : List Text) (n e t : Slice) (w : World env.fs.Disk)
      → f.nodes_from_args ≡ false
      → f.endpoints_from_args ≡ false
      → f.templates_from_args ≡ false
      → observed (rounds env f later files w)
        ≡ observed (rounds env f later files (with_globals n e t w))
  unfolding rounds round
  rounds-with_globals later [] n e t w hn he ht = refl
  rounds-with_globals later (file ∷ files) n e t w hn he ht =
      ap observed (continue_assoc (begin_round env f file w) _ _)
      ∙ begin_round-with_globals file
          (λ w. continue (end_round env f later file w) λ _. rounds env f true files) n e t w hn he
          ht
      ∙ sym (ap observed (continue_assoc (begin_round env f file (with_globals n e t w)) _ _))
