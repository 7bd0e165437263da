-- ===== src/Commands/Apply/Laws.antt =====
-- What apply sends for a config file.
use talm.Base.Text.{Text}
use talm.Json.{Slice}
use talm.Base.Result.{ok, wrap}
use talm.Base.{true, false, ◌≡◌, ◌∙◌, [], ◌∷◌, some, ap, sym, ◌++◌, if◌then◌else◌}
use talm.Commands.{modify, World, Command, continue, continue-eq-ok, apply_configuration}
use talm.Commands.Root.{is_unset, update_globals, process_modeline_and_update_globals}
use talm.Commands.Root.Laws.{process_modeline-eq-ok, with_client-runs}
use talm.Modeline.{Config, read_and_parse_modeline}
use talm.Commands.NodeConfig.{node_config}
use talm.Commands.Apply.{
  Flags, Environment, engine_options, send, run_client, reset_args, round, announced, requested,
}

module _ (env : Environment) (f : Flags) where
  send-requests :
      (file result : Text) (cli : env.clients.Client) (context : Slice) (w : World env.fs.Disk)
      → (send env f file result cli context w).1 ≡ ok tt
      → ((send env f file result cli context w).0.requests
          ≡ apply_configuration context result ∷ w.requests)
        × ((send env f file result cli context w).0.nodes ≡ w.nodes)
        × ((send env f file result cli context w).0.disk ≡ w.disk)
  unfolding send
  send-requests file result cli context w r =
      let (answer, _, same) =
        continue-eq-ok {A = Text}
          (
            requested (apply_configuration context result)
                (record w { out = w.out ++ announced file w }),
            wrap "error applying new configuration: %s" []
                (env.answer cli context result f.mode f.dry_run f.config_try_timeout),
          )
          _ r in
      (ap (λ m. m.0.requests) same, ap (λ m. m.0.nodes) same, ap (λ m. m.0.disk) same)

  run_client-runs :
      (action : env.clients.Client → Slice → Command env.fs.Disk (Unit {0})) (w : World env.fs.Disk)
      → f.insecure ≡ false
      → is_unset w.nodes ≡ false
      → (run_client env f action w).1 ≡ ok tt
      → (cli : env.clients.Client) × (run_client env f action w ≡ action cli w.nodes w)
  unfolding run_client
  run_client-runs action w i h r = rw i (with_client-runs env.clients action w h (rw i at r))

  -- A round behind the update of the globals.
  rest : Text → Command env.fs.Disk (Unit {0})
  rest file v =
      continue (v, node_config (env.talos v.disk) (engine_options f) file)
        λ result.
          λ v. continue (run_client env f (send env f file result) v) λ _. modify (reset_args f)

  rest-requests :
      (file : Text) (v : World env.fs.Disk)
      → f.insecure ≡ false
      → is_unset v.nodes ≡ false
      → (rest file v).1 ≡ ok tt
      → (result : Text) × (node_config (env.talos v.disk) (engine_options f) file ≡ ok result)
        × ((rest file v).0.requests ≡ apply_configuration v.nodes result ∷ v.requests)
        × ((rest file v).0.nodes ≡ (if f.nodes_from_args then v.nodes else some []))
        × ((rest file v).0.disk ≡ v.disk)
  unfolding rest reset_args
  rest-requests file v i h r =
      let (result, made, same) =
        continue-eq-ok {A = Text} (v, node_config (env.talos v.disk) (engine_options f) file) _ r in
      let (_, ran, ends) =
        continue-eq-ok (run_client env f (send env f file result) v) _
          (sym (ap (λ m. m.1) same) ∙ r) in
      let (cli, runs) = run_client-runs (send env f file result) v i h ran in
      let (sent, kept, disk) =
        send-requests file result cli v.nodes v (sym (ap (λ m. m.1) runs) ∙ ran) in
      let final = same ∙ ends in
      (
        result,
        made,
        ap (λ m. m.0.requests) final ∙ (ap (λ m. m.0.requests) runs ∙ sent),
        ap (λ m. m.0.nodes) final
            ∙ ap (λ x. if f.nodes_from_args then x else some []) (ap (λ m. m.0.nodes) runs ∙ kept),
        ap (λ m. m.0.disk) final ∙ (ap (λ m. m.0.disk) runs ∙ disk),
      )

  -- A round that succeeds sent one request: the config made of the file, to the nodes that the
  -- modeline update leaves, of which there are some. Behind it the nodes are cleared unless the
  -- arguments set them, and the files are as they were. The client is not an insecure one.
  pub round-requests :
      (file : Text) (w : World env.fs.Disk)
      → f.insecure ≡ false
      → (round env f file w).1 ≡ ok tt
      → (c : Config) × (result : Text) × (read_and_parse_modeline (env.fs.read_file w.disk) file
          ≡ ok c)
        × (node_config (env.talos w.disk) (engine_options f) file ≡ ok result)
        × (is_unset (update_globals f.nodes_from_args f.endpoints_from_args true c w).nodes ≡ false)
        × ((round env f file w).0.requests
            ≡ apply_configuration
                (update_globals f.nodes_from_args f.endpoints_from_args true c w).nodes
                result
              ∷ w.requests)
        × ((round env f file w).0.nodes ≡ (
            if f.nodes_from_args
            then (update_globals f.nodes_from_args f.endpoints_from_args true c w).nodes
            else some []))
        × ((round env f file w).0.disk ≡ w.disk)
  unfolding round rest update_globals
  round-requests file w i r =
      let (_, began, same) =
        continue-eq-ok
          (process_modeline_and_update_globals env.fs file f.nodes_from_args f.endpoints_from_args
            true w)
          _ r in
      let (c, found, set, updated) =
        process_modeline-eq-ok env.fs file f.nodes_from_args f.endpoints_from_args true w began in
      let ends = same ∙ ap (λ m. rest file m.0) updated in
      let (result, made, sent, kept, disk) =
        rest-requests file (update_globals f.nodes_from_args f.endpoints_from_args true c w) i set
          (sym (ap (λ m. m.1) ends) ∙ r) in
      (
        c,
        result,
        found,
        made,
        set,
        ap (λ m. m.0.requests) ends ∙ sent,
        ap (λ m. m.0.nodes) ends ∙ kept,
        ap (λ m. m.0.disk) ends ∙ disk,
      )
