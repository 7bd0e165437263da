-- ===== src/Commands/Upgrade/Tracker.antt =====
-- What the tracker of upgrade promises, and what it sends then.
use mathlib.Core.List.{Permᴰ}
use mathlib.Core.List.Permᴰ
use talm.Base.{◌≡◌, ◌∙◌, refl, ap, some, List, [], ◌∷◌, ◌++◌, Bool, map}
use talm.Base.Text.{Text}
use talm.Base.Result.{Result, Error, ok, err}
use talm.Json.{Slice, items}
use talm.Commands.{World, Request, upgrade_with_options}
use talm.Commands.Upgrade.{
  Environment, Upgrade, Tracking, ended, call_action, run_tracker, upgrade_get_actor_id,
  actor_id_of, requested,
}

-- A tracker that ends without an error called the action for each of the nodes, alone in the context, in
-- some order and whatever the action returned.
pub data CallsEach (Client : Type 0) : List Text → Tracking Client → Type 0 where
  all_called : CallsEach Client [] (ended (ok tt))
  failed : (nodes : List Text) (e : Error) → CallsEach Client nodes (ended (err e))
  one_called :
      (nodes rest : List Text) (node : Text) (cli : Client) (next : Result Text → Tracking Client)
      → Permᴰ nodes (node ∷ rest)
      → ((answer : Result Text) → CallsEach Client rest (next answer))
      → CallsEach Client nodes (call_action cli (some (node ∷ [])) next)

abbrev pub IsTracker : Environment → Type 0
IsTracker e =
    (nodes endpoints : Slice) (debug : Bool) (timeout : Text)
    → CallsEach e.clients.Client (items nodes) (e.track nodes endpoints debug timeout)

-- The request for one node.
abbrev pub request_to : Upgrade → Text → Request
request_to u node = upgrade_with_options (some (node ∷ [])) u.image u.preserve u.stage u.force

map-append_one :
    (u : Upgrade) (ns : List Text) (node : Text) (rs : List Request)
    → map (request_to u) ns ++ request_to u node ∷ rs ≡ map (request_to u) (ns ++ node ∷ []) ++ rs
map-append_one u [] node rs = refl
map-append_one u (n ∷ ns) node rs = ap (λ xs. request_to u n ∷ xs) (map-append_one u ns node rs)

-- A tracker that succeeds sent one request to each of the nodes.
pub run_tracker-sends :
    (e : Environment) (u : Upgrade) (nodes : List Text) (t : Tracking e.clients.Client)
    (w : World e.fs.Disk)
    → CallsEach e.clients.Client nodes t
    → (run_tracker e u t w).1 ≡ ok tt
    → (ns : List Text) × Permᴰ ns nodes
      × ((run_tracker e u t w).0.requests ≡ map (request_to u) ns ++ w.requests)
unfolding run_tracker upgrade_get_actor_id
run_tracker-sends e u nodes t w all_called h = ([], Permᴰ.nil, refl)
run_tracker-sends e u nodes t w (failed ns x) h = cc
run_tracker-sends e u nodes t w (one_called _ rest node cli next p later) h =
    let answer = actor_id_of (e.upgrade_nodes cli (some (node ∷ [])) u) in
    let (ns, same, sent) =
      run_tracker-sends e u rest (next answer) (requested (some (node ∷ [])) u w) (later answer)
        h in
    (
      ns ++ node ∷ [],
      Permᴰ.trans (Permᴰ.append_comm ns (node ∷ []))
          (Permᴰ.trans (Permᴰ.cons refl same) (Permᴰ.symm p)),
      sent ∙ map-append_one u ns node w.requests,
    )
