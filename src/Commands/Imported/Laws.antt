-- ===== src/Commands/Imported/Laws.antt =====
-- Which nodes an imported command runs on.
use talm.Base.{
  Bool, true, false, not, ◌≡◌, refl, sym, ap, ◌∙◌, Bool-cases, inl, inr, List, [], ◌∷◌, ◌++◌,
  if◌then◌else◌, is_nil, append-nil, append_assoc,
}
use talm.Base.Text.{Text}
use talm.Base.Result.{ok}
use talm.Json.{Slice, items}
use talm.Modeline.{Config, read_and_parse_modeline}
use talm.Commands.{World, FileSystem, continue-eq-ok}
use talm.Commands.Root.{
  is_unset, appended, update_slice, update_globals, process_modeline_and_update_globals,
}
use talm.Commands.Root.Laws.{process_modeline-eq-ok}
use talm.Commands.Imported.{take_modelines, pre_run}

-- The modelines of the files, read one by one.
abbrev pub ReadAs : (fs : FileSystem) → fs.Disk → List Text → List Config → Type 0
ReadAs fs disk [] [] = Unit
ReadAs fs disk (file ∷ files) (c ∷ cs) =
    (read_and_parse_modeline (fs.read_file disk) file ≡ ok c) × ReadAs fs disk files cs
ReadAs fs disk _ _ = ⊥

abbrev pub all_items : (Config → Slice) → List Config → List Text
all_items part [] = []
all_items part (c ∷ cs) = items (part c) ++ all_items part cs

-- What the modelines add to the items that are there, unless these come from the arguments.
abbrev pub gathered : Bool → (Config → Slice) → List Config → List Text → List Text
gathered from_args part cs old = if from_args then old else old ++ all_items part cs

is_nil-eq-true : (xs : List Text) → is_nil xs ≡ true → xs ≡ []
is_nil-eq-true [] h = refl
is_nil-eq-true (x ∷ xs) h = cc

items-appended : (a b : Slice) → items (appended a b) ≡ items a ++ items b
items-appended a b = elim (Bool-cases (is_unset b)) [
  | inl h ↦ rw h (sym (ap (λ v. items a ++ v) (is_nil-eq-true (items b) h) ∙ append-nil (items a)))
  | inr h ↦ rw h refl
]

update_slice_unset :
    (new old : Slice) → is_unset new ≡ true → update_slice false false new old ≡ old
unfolding update_slice
update_slice_unset new old h = rw h refl

update_slice_set :
    (new old : Slice) → is_unset new ≡ false → update_slice false false new old ≡ appended old new
unfolding update_slice
update_slice_set new old h = rw h refl

items-update_slice :
    (from_args : Bool) (new old : Slice)
    → items (update_slice from_args false new old)
      ≡ (if from_args then items old else items old ++ items new)
unfolding update_slice
items-update_slice true new old = refl
items-update_slice false new old = elim (Bool-cases (is_unset new)) [
  | inl h ↦
      ap items (update_slice_unset new old h)
      ∙ sym (ap (λ v. items old ++ v) (is_nil-eq-true (items new) h) ∙ append-nil (items old))
  | inr h ↦ ap items (update_slice_set new old h) ∙ items-appended old new
]

gathered-update_slice :
    (from_args : Bool) (part : Config → Slice) (c : Config) (cs : List Config) (old : Slice)
    → gathered from_args part cs (items (update_slice from_args false (part c) old))
      ≡ gathered from_args part (c ∷ cs) (items old)
gathered-update_slice true part c cs old = items-update_slice true (part c) old
gathered-update_slice false part c cs old =
    ap (λ v. v ++ all_items part cs) (items-update_slice false (part c) old)
    ∙ append_assoc (items old) (items (part c)) (all_items part cs)

module _ (fs : FileSystem) (n e : Bool) where
  take_modelines-eq-ok :
      (files : List Text) (w : World fs.Disk)
      → (take_modelines fs n e files w).1 ≡ ok tt
      → (cs : List Config) × ReadAs fs w.disk files cs
        × (items (take_modelines fs n e files w).0.nodes
            ≡ gathered n (λ c. c.nodes) cs (items w.nodes))
        × (items (take_modelines fs n e files w).0.endpoints
            ≡ gathered e (λ c. c.endpoints) cs (items w.endpoints))
        × ((take_modelines fs n e files w).0.requests ≡ w.requests)
  unfolding take_modelines update_globals
  take_modelines-eq-ok [] w h = ([], tt, unchanged n _, unchanged e _, refl)
    where
      unchanged : (b : Bool) (old : List Text) → old ≡ (if b then old else old ++ [])
      unchanged true old = refl
      unchanged false old = sym (append-nil old)
  take_modelines-eq-ok (file ∷ files) w h =
      let (_, first, same) =
        continue-eq-ok {A = Unit {0}} (process_modeline_and_update_globals fs file n e false w)
          (λ _. take_modelines fs n e files) h in
      let (c, found, set, step) = process_modeline-eq-ok fs file n e false w first in
      let next = update_globals n e false c w in
      let run = same ∙ ap (λ m. take_modelines fs n e files m.0) step in
      let (cs, more, nodes, endpoints, requests) =
        take_modelines-eq-ok files next (sym (ap (λ m. m.1) run) ∙ h) in
      (
        c ∷ cs,
        (found, more),
        ap (λ m. items m.0.nodes) run ∙ nodes ∙ gathered-update_slice n (λ c. c.nodes) c cs w.nodes,
        ap (λ m. items m.0.endpoints) run
            ∙ endpoints
            ∙ gathered-update_slice e (λ c. c.endpoints) c cs w.endpoints,
        ap (λ m. m.0.requests) run ∙ requests,
      )

gathered_unset :
    (part : Config → Slice) (cs : List Config) (old : Slice)
    → gathered (not (is_unset old)) part cs (items old)
      ≡ (if is_unset old then all_items part cs else items old)
gathered_unset part cs old = elim (Bool-cases (is_unset old)) [
  | inl h ↦ rw h (ap (λ v. v ++ all_items part cs) (is_nil-eq-true (items old) h))
  | inr h ↦ rw h refl
]

-- An imported command whose config files were taken over runs on the nodes and endpoints of the
-- arguments, or, where these have none, on those of all modelines in the order of the files; nothing was
-- sent.
pub pre_run-eq-ok :
    (fs : FileSystem) (files : List Text) (w : World fs.Disk)
    → (pre_run fs files w).1 ≡ ok tt
    → (cs : List Config) × ReadAs fs w.disk files cs
      × (items (pre_run fs files w).0.nodes
          ≡ (if is_unset w.nodes then all_items (λ c. c.nodes) cs else items w.nodes))
      × (items (pre_run fs files w).0.endpoints
          ≡ (if is_unset w.endpoints then all_items (λ c. c.endpoints) cs else items w.endpoints))
      × ((pre_run fs files w).0.requests ≡ w.requests)
unfolding pre_run
pre_run-eq-ok fs files w h =
    let (cs, read, nodes, endpoints, requests) =
      take_modelines-eq-ok fs (not (is_unset w.nodes)) (not (is_unset w.endpoints)) files w h in
    (
      cs,
      read,
      nodes ∙ gathered_unset (λ c. c.nodes) cs w.nodes,
      endpoints ∙ gathered_unset (λ c. c.endpoints) cs w.endpoints,
      requests,
    )
