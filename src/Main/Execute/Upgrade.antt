-- ===== src/Main/Execute/Upgrade.antt =====
-- What is printed of an error of upgrade.
use talm.Base.{true, Bool, ◌≡◌, refl, List, ◌∷◌, [], ap, ◌∙◌, ℕ}
use talm.Base.Text.{Text}
use talm.Base.Result.{Result, ok, err, panic, exit}
use talm.Commands.{World, continue-ok, continue-keeps}
use talm.Commands.Root.{update_globals}
use talm.Commands.Upgrade.{Flags, Environment, Upgrade, prepare, wait_for, rounds}
use talm.Commands.Upgrade.Laws.{prepare-keeps, run_tracker-keeps}
use talm.Commands.Upgrade.Sends.{behind}
use talm.Main.Execute.{reported, execute}

-- The state in which no error is printed.
abbrev IsQuiet : {D : Type 0} → World D → Type 0
IsQuiet w = w.suppress_errors ≡ true

reported-quiet : {A : Type 0} (usage : Text) (r : Result A) → reported true usage r ≡ []
unfolding reported
reported-quiet usage (ok a) = refl
reported-quiet usage (err e) = refl
reported-quiet usage panic = refl
reported-quiet usage (exit out) = refl

module _ (e : Environment) (f : Flags) where
  prepare-IsQuiet :
      (n p : Bool) (mode : ℕ) (file : Text) (w : World e.fs.Disk)
      → IsQuiet w
      → IsQuiet (prepare e f n p mode file w).0
  unfolding update_globals
  prepare-IsQuiet n p mode file w q =
      prepare-keeps e f n p IsQuiet (λ t w q. q) (λ c w q. q) file mode w q

  -- The rounds of an upgrade that waits.
  rounds-IsQuiet :
      (n p : Bool) (mode : ℕ) (files : List Text) (w : World e.fs.Disk)
      → f.wait ≡ true
      → IsQuiet w
      → IsQuiet (rounds e f n p mode files w).0
  unfolding rounds wait_for
  rounds-IsQuiet n p mode [] w t q = q
  rounds-IsQuiet n p mode (file ∷ files) w t q =
      continue-keeps IsQuiet (prepare e f n p mode file w) _ (prepare-IsQuiet n p mode file w q)
        λ u v k. rw t (
          continue-keeps IsQuiet (wait_for e f file u v) _
            (run_tracker-keeps e IsQuiet u (λ context w q. q)
              (e.track v.nodes v.endpoints f.debug f.timeout) _ refl)
            (λ _ x k. rounds-IsQuiet n p mode files x t k))

  -- Behind the preparation of the first config file, an upgrade that waits prints no error: neither
  -- one of waiting for the nodes of that file nor any error of a file behind it.
  pub execute-rounds :
      (usage : Text) (nodes_from_args endpoints_from_args : Bool) (mode : ℕ) (file : Text)
      (files : List Text) (w : World e.fs.Disk) {u : Upgrade}
      → f.wait ≡ true
      → (prepare e f nodes_from_args endpoints_from_args mode file w).1 ≡ ok u
      → (execute usage (rounds e f nodes_from_args endpoints_from_args mode (file ∷ files)) w).0
        ≡ []
  unfolding execute rounds wait_for behind
  execute-rounds usage n p mode file files w {u} t h =
      let first = prepare e f n p mode file w in
      let same =
        continue-ok first (behind e f f.wait n p mode file files) h
        ∙ ap (λ b. behind e f b n p mode file files u first.0) t in
      let quiet =
        continue-keeps IsQuiet (wait_for e f file u first.0) (λ _. rounds e f n p mode files)
          (run_tracker-keeps e IsQuiet u (λ context w q. q)
            (e.track first.0.nodes first.0.endpoints f.debug f.timeout) _ refl)
          (λ _ x k. rounds-IsQuiet n p mode files x t k) in
      ap (λ q. reported q usage (rounds e f n p mode (file ∷ files) w).1)
        (ap (λ m. m.0.suppress_errors) same ∙ quiet)
      ∙ reported-quiet usage (rounds e f n p mode (file ∷ files) w).1
