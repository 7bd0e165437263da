-- ===== src/Commands/Root/Laws.antt =====
-- What processModelineAndUpdateGlobals and the client's wrapper leave in the globals.
use talm.Base.Text.{Text}
use talm.Json.{Slice}
use talm.Base.Result.{err-ne-ok, Result, ok, err, panic, exit}
use talm.Base.{Bool, Bool-cases, false, inl, inr, ◌≡◌, ◌∙◌, refl, Option, none, some, ap, sym}
use talm.Commands.{◌>>=◌, ◌>>◌, FileSystem, World, Command, continue, continue-eq-ok, state}
use talm.Commands.Root.{
  warned, Clients, is_unset, update_globals, require_nodes, process_modeline_and_update_globals,
  resolve_nodes, with_client, with_client_no_nodes,
}
use talm.Modeline.{Config, read_and_parse_modeline}

require_nodes-eq-ok :
    {D : Type 0} (w : World D)
    → (require_nodes w).1 ≡ ok tt
    → (is_unset w.nodes ≡ false) × (require_nodes w ≡ (w, ok tt))
require_nodes-eq-ok w r = elim (Bool-cases (is_unset w.nodes)) [
  | inl h ↦ absurd (err-ne-ok (rw h at r))
  | inr h ↦ (h, rw h)
]

warned-eq-ok :
    {D : Type 0} (r : Result Config) (w : World D) {c : Config}
    → (warned r w).1 ≡ ok c
    → (r ≡ ok c) × (warned r w ≡ (w, ok c))
unfolding warned
warned-eq-ok (ok d) w h = (h, ap (λ x. (w, x)) h)
warned-eq-ok (err e) w h = absurd (err-ne-ok h)
warned-eq-ok panic w h = cc
warned-eq-ok (exit out) w h = cc

pub process_modeline-eq-ok :
    (fs : FileSystem) (file : Text) (n e o : Bool) (w : World fs.Disk)
    → (process_modeline_and_update_globals fs file n e o w).1 ≡ ok tt
    → (c : Config) × (read_and_parse_modeline (fs.read_file w.disk) file ≡ ok c)
      × (is_unset (update_globals n e o c w).nodes ≡ false)
      × (process_modeline_and_update_globals fs file n e o w ≡ (update_globals n e o c w, ok tt))
unfolding process_modeline_and_update_globals
process_modeline-eq-ok fs file n e o w r =
    let read = read_and_parse_modeline (fs.read_file w.disk) file in
    let (c, quiet, same) = continue-eq-ok (warned read w) _ r in
    let (found, kept) = warned-eq-ok read w quiet in
    let ends = same ∙ ap (λ v. require_nodes (update_globals n e o c v)) (ap (λ m. m.0) kept) in
    let (set, rest) =
      require_nodes-eq-ok (update_globals n e o c w) (sym (ap (λ m. m.1) ends) ∙ r) in
    (c, found, set, ends ∙ rest)

resolve_nodes-set :
    {D : Type 0} (clients : Clients) (context : Option Slice) (w : World D)
    → is_unset w.nodes ≡ false
    → resolve_nodes clients context w ≡ (w, ok tt)
unfolding resolve_nodes
resolve_nodes-set clients none w h = rw h
resolve_nodes-set clients (some v) w h = rw h

with_dialled :
    {D : Type 0} (clients : Clients) (action : clients.Client → Slice → Command D (Unit {0}))
    → (dialled : Result clients.Client) (w : World D) → is_unset w.nodes ≡ false
    → (continue
        (w, dialled)
        λ cli. do
          resolve_nodes clients (clients.context_nodes cli)
          v ← state
          action cli v.nodes).1
      ≡ ok tt
    → (cli : clients.Client) × ((continue
          (w, dialled)
          λ cli. do
            resolve_nodes clients (clients.context_nodes cli)
            v ← state
            action cli v.nodes)
        ≡ action cli w.nodes w)
with_dialled clients action (ok cli) w h r =
    (cli, rw (resolve_nodes-set clients (clients.context_nodes cli) w h) refl)
with_dialled clients action (err e) w h r = cc
with_dialled clients action panic w h r = cc
with_dialled clients action (exit out) w h r = cc

-- Where there are nodes, an action that succeeds ran with these and in the state it was given in.
pub with_client-runs :
    {D : Type 0} (clients : Clients) (action : clients.Client → Slice → Command D (Unit {0}))
    → (w : World D) → is_unset w.nodes ≡ false
    → (with_client clients action w).1 ≡ ok tt
    → (cli : clients.Client) × (with_client clients action w ≡ action cli w.nodes w)
unfolding with_client with_client_no_nodes
with_client-runs clients action w h r =
    with_dialled clients action (clients.dial w.nodes w.endpoints) w h r

resolve_nodes-eq-ok :
    {D : Type 0} (clients : Clients) (context : Option Slice) (w : World D)
    → (resolve_nodes clients context w).1 ≡ ok tt
    → (n : Slice) × (resolve_nodes clients context w ≡ (record w { nodes = n }, ok tt))
unfolding resolve_nodes
resolve_nodes-eq-ok clients none w h = elim (Bool-cases (is_unset w.nodes)) [
  | inl u ↦ absurd (err-ne-ok (rw u at h))
  | inr u ↦ (w.nodes, rw u refl)
]
resolve_nodes-eq-ok clients (some v) w h = elim (Bool-cases (is_unset w.nodes)) [
  | inl u ↦ (v, rw u refl)
  | inr u ↦ (w.nodes, rw u refl)
]

-- An action that succeeds ran in the state it was given in, up to the nodes.
pub with_client-eq-ok :
    {D : Type 0} (clients : Clients) (action : clients.Client → Slice → Command D (Unit {0}))
    (w : World D)
    → (with_client clients action w).1 ≡ ok tt
    → (cli : clients.Client) × (n : Slice) × (with_client clients action w
        ≡ action cli n (record w { nodes = n }))
unfolding with_client with_client_no_nodes
with_client-eq-ok clients action w h =
    let (cli, _, h₁) = continue-eq-ok (w, clients.dial w.nodes w.endpoints) _ h in
    let resolved = resolve_nodes clients (clients.context_nodes cli) w in
    let (_, done, h₂) =
      continue-eq-ok resolved (λ _. λ v. action cli v.nodes v) (sym (ap (λ m. m.1) h₁) ∙ h) in
    let (n, same) = resolve_nodes-eq-ok clients (clients.context_nodes cli) w done in
    (cli, n, h₁ ∙ (h₂ ∙ ap (λ m. action cli m.0.nodes m.0) same))
