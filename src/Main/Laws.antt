-- ===== src/Main/Laws.antt =====
-- What a loaded configuration has.
use talm.Base.Text.{Text}
use talm.Base.Result.{ok, wrap, >>=-eq-ok, ok_injective, or_panic}
use talm.Base.{Bool-cases, false, inl, inr, ◌≡◌, ◌∙◌, ap, sym, is_nil, if◌then◌else◌}
use talm.Commands.Root.{Settings}
use talm.Main.{Configuration, Environment, load_config, with_timeout, with_kubernetes_version}

module _ (e : Environment) where
  with_timeout-templates :
      (c : Settings) {d : Settings}
      → is_nil e.config_try_timeout ≡ false
      → with_timeout e c ≡ ok d
      → (d.template_options ≡ c.template_options)
        × (is_nil d.apply_options.timeout ≡ false)
        × (d.talosconfig ≡ c.talosconfig)
  unfolding with_timeout
  with_timeout-templates c {d} t h = elim (Bool-cases (is_nil c.apply_options.timeout)) [
    | inl unset ↦
        let same = ok_injective _ _ (rw unset at h) in
        (
          ap (λ d. d.template_options) (sym same),
          ap (λ d. is_nil d.apply_options.timeout) (sym same) ∙ t,
          ap (λ d. d.talosconfig) (sym same),
        )
    | inr set ↦
        let (x, _, made) =
          >>=-eq-ok (or_panic (e.parse_duration c.apply_options.timeout)) _ (rw set at h) in
        let same = ok_injective _ _ made in
        (
          ap (λ d. d.template_options) (sym same),
          ap (λ d. is_nil d.apply_options.timeout) (sym same) ∙ set,
          ap (λ d. d.talosconfig) (sym same),
        )
  ]

  with_kubernetes_version-set :
      (c : Settings)
      → is_nil e.default_kubernetes_version ≡ false
      → is_nil (with_kubernetes_version e c).template_options.kubernetes_version ≡ false
  with_kubernetes_version-set c k =
      elim (Bool-cases (is_nil c.template_options.kubernetes_version)) [
        | inl unset ↦ rw unset k
        | inr set ↦ rw set set
      ]

  with_kubernetes_version-talosconfig :
      (c : Settings) → (with_kubernetes_version e c).talosconfig ≡ c.talosconfig
  with_kubernetes_version-talosconfig c =
      elim (Bool-cases (is_nil c.template_options.kubernetes_version)) [
        | inl unset ↦ rw unset
        | inr set ↦ rw set
      ]

  -- Where the configuration is loaded, the talosconfig is the arguments' or else the configuration's,
  -- and there are a Kubernetes version and a timeout, if the defaults are no empty texts.
  pub load_config-eq-ok :
      (filename : Text) (s : Configuration) {r : Configuration}
      → is_nil e.default_kubernetes_version ≡ false
      → is_nil e.config_try_timeout ≡ false
      → load_config e filename s ≡ ok r
      → (r.talosconfig ≡ (if is_nil s.talosconfig then r.config.talosconfig else s.talosconfig))
        × (is_nil r.config.template_options.kubernetes_version ≡ false)
        × (is_nil r.config.apply_options.timeout ≡ false)
  unfolding load_config
  load_config-eq-ok filename s k t h =
      let (content, _, h₁) = >>=-eq-ok (wrap _ _ (e.read_file filename)) _ h in
      let (c, _, h₂) = >>=-eq-ok (wrap _ _ (e.unmarshal content s.config)) _ h₁ in
      let (d, timed, made) = >>=-eq-ok (with_timeout e (with_kubernetes_version e c)) _ h₂ in
      let same = ok_injective _ _ made in
      let (options, timeout, kept) = with_timeout-templates (with_kubernetes_version e c) t timed in
      (
        ap (λ r. r.talosconfig) (sym same)
            ∙ ap (λ x. if is_nil s.talosconfig then x else s.talosconfig)
                (sym (
                  ap (λ r. r.config.talosconfig) (sym same)
                  ∙ (kept ∙ with_kubernetes_version-talosconfig c))),
        ap (λ r. is_nil r.config.template_options.kubernetes_version) (sym same)
            ∙ (ap (λ o. is_nil o.kubernetes_version) options ∙ with_kubernetes_version-set c k),
        ap (λ r. is_nil r.config.apply_options.timeout) (sym same) ∙ timeout,
      )
