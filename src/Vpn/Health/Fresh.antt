-- ===== src/Vpn/Health/Fresh.antt =====
-- When the kill switch lets requests pass, in terms of the checks that were made.
use ppvda.Base.{
  ℕ, ◌-◌, ◌<◌, Bool, true, false, not, Option, none, some, String, List, [], ◌∷◌, ◌≡◌, refl,
  is_some, ◌&&◌, ◌∙◌, sym, ◌↔◌, ◌⊎◌, inl, inr, arith, if◌then◌else◌,
}
use ppvda.Vpn.Health.{
  HealthState, Reply, is_connected, check_interface, check_routing, begin_vpn_health_check,
  conclude_vpn_health_check, stop_vpn_health_check, is_vpn_healthy, is_vpn_kill_switch_enabled,
  fresh_state, local_stale_ms, remote_stale_ms,
}

-- What the timers and the operator do to the module. The first two checks of a start are ticks between its
-- `begins` and its `concludes`, and other events may stand there too.
pub data Event : Type 0 where
  interface_tick : Option String → ℕ → Event
  routing_tick : Reply → ℕ → Event
  begins concludes stop : Event

pub step : Option HealthState → Event → Option HealthState
unfolding check_interface check_routing begin_vpn_health_check conclude_vpn_health_check
    stop_vpn_health_check
step s (interface_tick error t) = check_interface s error t
step s (routing_tick reply t) = check_routing s reply t
step s begins = begin_vpn_health_check s
step s concludes = conclude_vpn_health_check s
step s stop = stop_vpn_health_check s

-- The state after a history, the newest event first.
unfoldable pub run : List Event → Option HealthState
unfolding step
run [] = none
run (e ∷ es) = step (run es) e

-- A check that was made, with its result and its time.
pub data Report : Type 0 where
  interface_report routing_report : Bool → ℕ → Report

-- The checks of one event: there are checks while the module is on, and a start while it is off forgets
-- those of earlier runs.
pub made : Bool → Event → List Report → List Report
made true (interface_tick error t) rs = interface_report (not (is_some error)) t ∷ rs
made true (routing_tick reply t) rs = routing_report (is_connected reply) t ∷ rs
made false begins rs = []
made _ _ rs = rs

pub reports : List Event → List Report
unfolding made run
reports [] = []
reports (e ∷ es) = made (is_some (run es)) e (reports es)

-- The newest check of either kind.
pub last_interface : List Report → Option (Bool × ℕ)
last_interface [] = none
last_interface (interface_report ok t ∷ rs) = some (ok, t)
last_interface (routing_report ok t ∷ rs) = last_interface rs

pub last_routing : List Report → Option (Bool × ℕ)
last_routing [] = none
last_routing (routing_report ok t ∷ rs) = some (ok, t)
last_routing (interface_report ok t ∷ rs) = last_routing rs

-- A newest check that the state holds the result of, or none yet, which counts as failed.
abbrev pub Held : Option (Bool × ℕ) → Bool → ℕ → Type 0
Held last ok t = (last ≡ some (ok, t)) ⊎ ((last ≡ none) × (ok ≡ false))

-- The state holds the results of the newest checks.
pub record Agrees (s : HealthState) (rs : List Report) : Type 0 where
  pub of_interface : Held (last_interface rs) s.interface_ok s.interface_last_check
  pub of_routing : Held (last_routing rs) s.routing_ok s.routing_last_check

pub AgreesIfOn : Option HealthState → List Report → Type 0
AgreesIfOn none rs = Unit {0}
AgreesIfOn (some s) rs = Agrees s rs

kept :
    (b : Bool) (s : HealthState) (rs : List Report)
    → Agrees s rs
    → AgreesIfOn (if b then some s else none) rs
unfolding AgreesIfOn
kept true s rs h = h
kept false s rs h = tt

step-AgreesIfOn :
    (s : Option HealthState) (e : Event) (rs : List Report)
    → AgreesIfOn s rs
    → AgreesIfOn (step s e) (made (is_some s) e rs)
unfolding AgreesIfOn step check_interface check_routing begin_vpn_health_check
    conclude_vpn_health_check stop_vpn_health_check made fresh_state last_interface last_routing
step-AgreesIfOn none (interface_tick error t) rs h = tt
step-AgreesIfOn none (routing_tick reply t) rs h = tt
step-AgreesIfOn none begins rs h = record {
  of_interface = inr (refl, refl);
  of_routing = inr (refl, refl);
}
step-AgreesIfOn none concludes rs h = tt
step-AgreesIfOn none stop rs h = tt
step-AgreesIfOn (some s) (interface_tick error t) rs h = record {
  of_interface = inl refl;
  of_routing = h.of_routing;
}
step-AgreesIfOn (some s) (routing_tick reply t) rs h = record {
  of_interface = h.of_interface;
  of_routing = inl refl;
}
step-AgreesIfOn (some s) begins rs h = h
step-AgreesIfOn (some s) concludes rs h = kept (s.interface_ok && s.routing_ok) s rs h
step-AgreesIfOn (some s) stop rs h = tt

run-AgreesIfOn : (es : List Event) → AgreesIfOn (run es) (reports es)
unfolding run reports AgreesIfOn
run-AgreesIfOn [] = tt
run-AgreesIfOn (e ∷ es) = step-AgreesIfOn (run es) e (reports es) (run-AgreesIfOn es)

-- A newest check that passed, less than `limit` milliseconds before `now`.
pub record IsFresh (limit now : ℕ) (last : Option (Bool × ℕ)) : Type 0 where
  pub at : ℕ
  pub passed : last ≡ some (true, at)
  pub recent : now - at < limit

-- The tunnel was confirmed by a fresh check of each kind, and the country is not being switched.
pub record IsConfirmed (es : List Event) (switching : Bool) (now : ℕ) : Type 0 where
  pub not_switching : switching ≡ false
  pub interface : IsFresh local_stale_ms now (last_interface (reports es))
  pub routing : IsFresh remote_stale_ms now (last_routing (reports es))

Held-passed :
    (last : Option (Bool × ℕ)) (ok : Bool) (t : ℕ)
    → Held last ok t
    → ok ≡ true
    → last ≡ some (true, t)
Held-passed last ok t (inl e) h = rw (sym h) e
Held-passed last ok t (inr (n, f)) h = cc

-- A check that is there is the one that the state holds.
passed-Held :
    (last : Option (Bool × ℕ)) (ok : Bool) (t at : ℕ)
    → Held last ok t
    → last ≡ some (true, at)
    → ◌≡◌ {A = Option (Bool × ℕ)} (some (ok, t)) (some (true, at))
passed-Held last ok t at (inl e) h = sym e ∙ h
passed-Held last ok t at (inr (n, f)) h = cc

healthy-IsConfirmed :
    (s : HealthState) (es : List Event) (switching : Bool) (now : ℕ)
    → Agrees s (reports es)
    → is_vpn_healthy (some s) switching now ≡ true
    → IsConfirmed es switching now
unfolding is_vpn_healthy
healthy-IsConfirmed s es switching now a h = record {
  not_switching = ground arith;
  interface = record {
    at = s.interface_last_check;
    passed = Held-passed _ _ _ a.of_interface (ground arith);
    recent = ground arith;
  };
  routing = record {
    at = s.routing_last_check;
    passed = Held-passed _ _ _ a.of_routing (ground arith);
    recent = ground arith;
  };
}

IsConfirmed-healthy :
    (s : HealthState) (es : List Event) (switching : Bool) (now : ℕ)
    → Agrees s (reports es)
    → IsConfirmed es switching now
    → is_vpn_healthy (some s) switching now ≡ true
unfolding is_vpn_healthy
IsConfirmed-healthy s es switching now a c =
    let i : some (s.interface_ok, s.interface_last_check) ≡ some (true, c.interface.at) =
      passed-Held _ _ _ _ a.of_interface c.interface.passed in
    let r : some (s.routing_ok, s.routing_last_check) ≡ some (true, c.routing.at) =
      passed-Held _ _ _ _ a.of_routing c.routing.passed in
    ground (arith, c.not_switching, c.interface.recent, c.routing.recent, i, r)

healthy_iff_of :
    (s : Option HealthState) (es : List Event) (switching : Bool) (now : ℕ)
    → AgreesIfOn s (reports es)
    → (is_vpn_healthy s switching now ≡ true)
      ↔ ((is_vpn_kill_switch_enabled s ≡ false) ⊎ IsConfirmed es switching now)
unfolding AgreesIfOn is_vpn_healthy is_vpn_kill_switch_enabled
healthy_iff_of none es switching now a = ((λ h. inl refl), (λ h. refl))
healthy_iff_of (some s) es switching now a = (
  (λ h. inr (healthy-IsConfirmed s es switching now a h)),
  (λ c. elim c [ inl h ↦ cc | inr c ↦ IsConfirmed-healthy s es switching now a c ]),
)

-- After any history of starts, stops and checks, also while a start still waits for its first checks,
-- requests pass exactly when the kill switch is off, or the country is not being switched, the newest
-- interface check since the start passed less than 15 seconds ago and the newest routing check since
-- the start passed less than 180 seconds ago.
pub is_vpn_healthy-run_iff :
    (es : List Event) (switching : Bool) (now : ℕ)
    → (is_vpn_healthy (run es) switching now ≡ true)
      ↔ ((is_vpn_kill_switch_enabled (run es) ≡ false) ⊎ IsConfirmed es switching now)
is_vpn_healthy-run_iff es switching now =
    healthy_iff_of (run es) es switching now (run-AgreesIfOn es)

-- An unhealthy tunnel has the kill switch on.
pub unhealthy-enabled :
    (s : Option HealthState) (switching : Bool) (now : ℕ)
    → is_vpn_healthy s switching now ≡ false
    → is_vpn_kill_switch_enabled s ≡ true
unfolding is_vpn_healthy is_vpn_kill_switch_enabled
unhealthy-enabled none switching now h = cc
unhealthy-enabled (some s) switching now h = refl
