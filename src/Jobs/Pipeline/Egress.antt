-- ===== src/Jobs/Pipeline/Egress.antt =====
-- When a run may reach outside at all, and what it does there.
use ppvda.Base.{
  Bool, true, false, not, ◌&&◌, [], Option, String, ◌≡◌, ◌≢◌, List, ap, ◌∙◌, refl, ◌⊎◌, inl, inr,
  arith, Bool-cases, is_some, subst, sym,
}
use ppvda.Base.Text.{Text}
use ppvda.Utils.Ranges.{Address}
use ppvda.Jobs.Store.{JobStore, is_active}
use ppvda.Vpn.Health.{is_vpn_healthy, is_vpn_kill_switch_enabled}
use ppvda.Vpn.Health.Fresh
use ppvda.Vpn.Health.Fresh.{Event, IsConfirmed, unhealthy-enabled, is_vpn_healthy-run_iff}
use ppvda.Jobs.Pipeline.{
  World, Input, return_run, fail_run, gate_step, user_step, process_job, given_text, url_to_check,
  proxy_of,
}
use ppvda.Jobs.Pipeline.Guards.{
  IsGuarded, empty-IsGuarded, fail_run-IsGuarded, check_step-IsGuarded,
}

module _ {Proxy : Type 0} (parse_ip : Text → Option Address) (hostname_of : Text → Option Text)
    (protocol_of : Text → Option Text) (pathname_of : Text → Option Text) where
  -- The program resolves the names of hosts itself where no proxy is used.
  abbrev pub resolves : World Proxy → String → Input → Option Bool → Bool
  resolves w user input is_admin =
      not (is_some (proxy_of parse_ip hostname_of protocol_of pathname_of w user input is_admin))

  gate_step-IsGuarded :
      (w : World Proxy) (id : String) (input : Input) (s : JobStore) (proxy : Option Proxy)
      → IsGuarded parse_ip hostname_of protocol_of pathname_of w input
          (not (is_some proxy))
          (gate_step parse_ip hostname_of protocol_of pathname_of w id input s proxy)
  unfolding gate_step
  gate_step-IsGuarded w id input s proxy = elim (Bool-cases (is_some proxy && w.switching)) [
    | inl e ↦ rw e (
        fail_run-IsGuarded parse_ip hostname_of protocol_of pathname_of w input
          (not (is_some proxy)) s id _ w.clock)
    | inr e ↦
        rw e
          (elim (Bool-cases (
            is_vpn_kill_switch_enabled w.health
            && not (is_vpn_healthy w.health w.switching w.clock))) [
              | inl h ↦ rw h (
                  fail_run-IsGuarded parse_ip hostname_of protocol_of pathname_of w input
                    (not (is_some proxy)) s id _ w.clock)
              | inr h ↦ rw h (
                  check_step-IsGuarded parse_ip hostname_of protocol_of pathname_of w input
                    (not (is_some proxy)) id s (given_text (url_to_check input)) refl)
            ])
  ]

  -- In every run of a job whose user was looked up without an error, each URL that is downloaded
  -- passed `isPrivateUrl` in that run, with names resolved where no proxy is used; so did each page
  -- that is opened, unless the input has an empty text as its video URL; and after a download that
  -- gave a file, its directory is removed as the last effect, whether the upload was skipped, done,
  -- refused or threw.
  pub process_job-IsGuarded :
      (w : World Proxy) (id user : String) (input : Input) (s : JobStore) (is_admin : Option Bool)
      → w.db_user ≡ inr is_admin
      → IsGuarded parse_ip hostname_of protocol_of pathname_of w input
          (resolves w user input is_admin)
          (process_job parse_ip hostname_of protocol_of pathname_of w id user input s)
  unfolding process_job return_run user_step
  process_job-IsGuarded w id user input s is_admin h = elim (Bool-cases (is_active s id)) [
    | inl e ↦ rw e (
        subst
          (λ u.
            IsGuarded parse_ip hostname_of protocol_of pathname_of w input
              (resolves w user input is_admin)
              (user_step parse_ip hostname_of protocol_of pathname_of w id user input s u))
          (sym h) (gate_step-IsGuarded w id input s _))
    | inr e ↦ rw e (
        empty-IsGuarded parse_ip hostname_of protocol_of pathname_of w input
          (resolves w user input is_admin) (return_run s) refl)
  ]

  -- The route through the proxy is being moved, or the kill switch holds requests back.
  abbrev pub IsBlocked : World Proxy → String → Input → Option Bool → Type 0
  IsBlocked w user input is_admin =
      ((is_some (proxy_of parse_ip hostname_of protocol_of pathname_of w user input is_admin)
          ≡ true)
        × (w.switching ≡ true))
      ⊎ (is_vpn_healthy w.health w.switching w.clock ≡ false)

  gate_step-blocked :
      (w : World Proxy) (id : String) (input : Input) (s : JobStore) (proxy : Option Proxy)
      → ((is_some proxy ≡ true) × (w.switching ≡ true))
        ⊎ (is_vpn_healthy w.health w.switching w.clock ≡ false)
      → (gate_step parse_ip hostname_of protocol_of pathname_of w id input s proxy).trace ≡ []
  unfolding gate_step fail_run return_run
  gate_step-blocked w id input s proxy b = elim (Bool-cases (is_some proxy && w.switching)) [
    | inl e ↦ rw e refl
    | inr e ↦ rw e (elim b [
      | inl (p, q) ↦ ground (arith, p, q, e)
      | inr u ↦ rw (u, unhealthy-enabled w.health w.switching w.clock u) refl
    ])
  ]

  process_job-inactive :
      (w : World Proxy) (id user : String) (input : Input) (s : JobStore)
      → is_active s id ≡ false
      → (process_job parse_ip hostname_of protocol_of pathname_of w id user input s).trace ≡ []
  unfolding process_job return_run
  process_job-inactive w id user input s e = rw e refl

  process_job-blocked :
      (w : World Proxy) (id user : String) (input : Input) (s : JobStore) (is_admin : Option Bool)
      → w.db_user ≡ inr is_admin
      → IsBlocked w user input is_admin
      → (process_job parse_ip hostname_of protocol_of pathname_of w id user input s).trace ≡ []
  unfolding process_job return_run user_step
  process_job-blocked w id user input s is_admin h b = elim (Bool-cases (is_active s id)) [
    | inl e ↦ rw (e, h, user_step) (gate_step-blocked w id input s _ b)
    | inr e ↦ rw e refl
  ]

  -- After any history of the kill switch's module, a run that does anything outside, a check of a URL
  -- with its DNS queries included, has an active job; the country is not being switched where the
  -- run uses the proxy; and the kill switch is off or, at the start of the run, the tunnel was
  -- confirmed by a fresh interface check and a fresh routing check with no switch of the country
  -- under way. The user was looked up without an error.
  pub process_job-IsConfirmed :
      (w : World Proxy) (id user : String) (input : Input) (s : JobStore) (is_admin : Option Bool)
      (es : List Event)
      → w.db_user ≡ inr is_admin
      → w.health ≡ Fresh.run es
      → (process_job parse_ip hostname_of protocol_of pathname_of w id user input s).trace ≢ []
      → (is_active s id ≡ true)
        × ((is_some (proxy_of parse_ip hostname_of protocol_of pathname_of w user input is_admin)
              ≡ false)
            ⊎ (w.switching ≡ false))
        × ((is_vpn_kill_switch_enabled (Fresh.run es) ≡ false) ⊎ IsConfirmed es w.switching w.clock)
  process_job-IsConfirmed w id user input s is_admin es h e n = (
    elim (Bool-cases (is_active s id)) [
      | inl a ↦ a
      | inr a ↦ absurd (n (process_job-inactive w id user input s a))
    ],
    elim (Bool-cases
        (is_some (proxy_of parse_ip hostname_of protocol_of pathname_of w user input is_admin))) [
          | inr p ↦ inl p
          | inl p ↦ elim (Bool-cases w.switching) [
            | inr q ↦ inr q
            | inl q ↦ absurd (n (process_job-blocked w id user input s is_admin h (inl (p, q))))
          ]
        ],
    elim (Bool-cases (is_vpn_healthy w.health w.switching w.clock)) [
      | inl ok ↦
          (is_vpn_healthy-run_iff es w.switching w.clock).0
            (ap (λ x. is_vpn_healthy x w.switching w.clock) (sym e) ∙ ok)
      | inr bad ↦ absurd (n (process_job-blocked w id user input s is_admin h (inr bad)))
    ],
  )
