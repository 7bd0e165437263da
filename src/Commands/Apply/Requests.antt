-- ===== src/Commands/Apply/Requests.antt =====
-- The requests of apply: the config of which file goes to which nodes.
use talm.Base.Text.{Text}
use talm.Json.{Slice}
use talm.Base.Result.{ok}
use talm.Base.{
  Bool, Bool-cases, true, false, inl, inr, not, ◌≡◌, ◌∙◌, refl, sym, ap, subst, List, [], ◌∷◌, ◌++◌,
  append_assoc, if◌then◌else◌, some,
}
use talm.Commands.{Request, World, continue-eq-ok, apply_configuration}
use talm.Commands.Root.{is_unset, update_slice, update_globals, with_client_no_nodes}
use talm.Modeline.{Config, read_and_parse_modeline}
use talm.Commands.NodeConfig.{node_config}
use talm.Commands.Apply.{Flags, Environment, engine_options, round, rounds, run}
use talm.Commands.Apply.Laws.{round-requests}

-- The nodes of the arguments where there are some, and otherwise those of a modeline.
abbrev pub target : Bool → Slice → Config → Slice
target from_args given c = if from_args then given else c.nodes

-- Whether nodes were given is as the state says, and if they were, they are in the state.
record IsGiven (from_args : Bool) (given old : Slice) : Type 0 where
  has_nodes : from_args ≡ not (is_unset old)
  in_state : (if from_args then old else given) ≡ given

update_slice-target :
    (from_args : Bool) (given new old : Slice)
    → IsGiven from_args given old
    → is_unset (update_slice from_args true new old) ≡ false
    → update_slice from_args true new old ≡ (if from_args then given else new)
unfolding update_slice
update_slice-target true given new old g u = g.in_state
update_slice-target false given new old g u = elim (Bool-cases (is_unset new)) [
  | inl n ↦ let kept = rw n at u in let no = g.has_nodes in cc
  | inr n ↦ rw n refl
]

if-same : (b : Bool) (x : Slice) → (if b then x else x) ≡ x
if-same true x = refl
if-same false x = refl

-- What a round leaves of the nodes.
update_slice-IsGiven :
    (from_args : Bool) (given new old : Slice)
    → IsGiven from_args given old
    → IsGiven from_args given (if from_args then update_slice from_args true new old else some [])
unfolding update_slice
update_slice-IsGiven true given new old g = g
update_slice-IsGiven false given new old g = record { has_nodes = refl; in_state = refl }

module _ (e : Environment) (f : Flags) where
  -- For each config file in turn, one request: the config made of the file, to the nodes that are given
  -- or else to those of its own modeline. The requests have the last one first.
  pub data Applied (disk : e.fs.Disk) (given : Slice) : List Text → List Request → Type 0 where
    none_left : Applied disk given [] []
    one_more :
        (file result : Text) (c : Config) (files : List Text) (sent : List Request)
        → read_and_parse_modeline (e.fs.read_file disk) file ≡ ok c
        → node_config (e.talos disk) (engine_options f) file ≡ ok result
        → is_unset (target f.nodes_from_args given c) ≡ false
        → Applied disk given files sent
        → Applied disk given
            (file ∷ files)
            (sent ++ apply_configuration (target f.nodes_from_args given c) result ∷ [])

  rounds-Applied :
      (files : List Text) (given : Slice) (w : World e.fs.Disk)
      → f.insecure ≡ false
      → IsGiven f.nodes_from_args given w.nodes
      → (rounds e f files w).1 ≡ ok tt
      → (sent : List Request) × ((rounds e f files w).0.requests ≡ sent ++ w.requests)
        × Applied w.disk given files sent
  unfolding rounds update_globals
  rounds-Applied [] given w i g h = ([], refl, none_left)
  rounds-Applied (file ∷ files) given w i g h =
      let (_, ran, same) = continue-eq-ok (round e f file w) (λ _. rounds e f files) h in
      let (c, result, found, made, set, one, left, disk) = round-requests e f file w i ran in
      let after = (round e f file w).0 in
      let taken = update_slice-target f.nodes_from_args given c.nodes w.nodes g set in
      let (sent, all, each) =
        rounds-Applied files given after i
          (subst (IsGiven f.nodes_from_args given) (sym left)
            (update_slice-IsGiven f.nodes_from_args given c.nodes w.nodes g))
          (sym (ap (λ m. m.1) same) ∙ h) in
      let first = apply_configuration (target f.nodes_from_args given c) result in
      (
        sent ++ first ∷ [],
        ap (λ m. m.0.requests) same
            ∙ (all
                ∙ (ap (λ x. sent ++ x)
                      (one ∙ ap (λ n. apply_configuration n result ∷ w.requests) taken)
                    ∙ sym (append_assoc sent (first ∷ []) w.requests))),
        one_more file result c files sent found made (sym (ap is_unset taken) ∙ set)
            (subst (λ d. Applied d given files sent) disk each),
      )

  -- An apply command that succeeds sent, in front of the requests before, one request for each config
  -- file in turn: the config made of the file, to the nodes of the arguments, and if there are none, to
  -- the nodes of the modeline of that file. Whether there are any is as PreRunE found it, and the
  -- command is not an insecure one.
  pub run-Applied :
      (w : World e.fs.Disk)
      → f.insecure ≡ false
      → f.nodes_from_args ≡ not (is_unset w.nodes)
      → (run e f w).1 ≡ ok tt
      → (sent : List Request) × ((run e f w).0.requests ≡ sent ++ w.requests)
        × Applied w.disk w.nodes f.config_files sent
  unfolding run with_client_no_nodes
  run-Applied w i g h =
      let (_, _, same) =
        continue-eq-ok (w, e.clients.dial w.nodes w.endpoints) (λ _. rounds e f f.config_files) h in
      let (sent, all, each) =
        rounds-Applied f.config_files w.nodes w i
          (record { has_nodes = g; in_state = if-same f.nodes_from_args w.nodes })
          (sym (ap (λ m. m.1) same) ∙ h) in
      (sent, ap (λ m. m.0.requests) same ∙ all, each)
