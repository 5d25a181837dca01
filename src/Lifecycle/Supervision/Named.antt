-- ===== src/Lifecycle/Supervision/Named.antt =====
-- lifecycle/supervision.py: a poll keeps the name of its service.
use robotsix_agent_comm.Prelude.{
  String, ℕ, Bool, true, false, List, [], ◌++◌, if◌then◌else◌, ◌==◌, or_else, ◌≡◌, refl, ◌∙◌,
  Bool-cases, inl, inr,
}
use robotsix_agent_comm.Prelude.Int.{pos, leb_ℤ}
use robotsix_agent_comm.Lifecycle.Supervision.{
  SupervisionConfig, Texts, Look, Effect, Watch, cooling, health_check, recover, fail, waiting,
  restart, attempt_restart, escalate, degrade, react, unhealthy, poll_watch,
}

service_name-if :
    (b : Bool) (x y : Watch × List Effect) (n : String)
    → x.0.state.service_name ≡ n
    → y.0.state.service_name ≡ n
    → (if b then x else y).0.state.service_name ≡ n
service_name-if true x y n h k = h
service_name-if false x y n h k = k

module _ (c : SupervisionConfig) (texts : Texts) (now : ℕ) where
  degrade-service_name :
      (w : Watch) → (degrade c texts now w).0.state.service_name ≡ w.state.service_name
  unfolding degrade
  degrade-service_name w = service_name-if (w.state.consecutive_failures == 1) _ _ _ refl refl

  react-service_name :
      (w : Watch) → (react c texts now w).0.state.service_name ≡ w.state.service_name
  unfolding react attempt_restart restart escalate
  react-service_name w =
      service_name-if (leb_ℤ (pos w.state.consecutive_failures) c.max_restart_attempts) _ _ _
        (service_name-if (waiting now w.state.last_restart (or_else w.backoff (pos 0))) _ _ _ refl
          refl)
        refl

  unhealthy-service_name :
      (w : Watch) → (unhealthy c texts now w).0.state.service_name ≡ w.state.service_name
  unfolding unhealthy fail
  unhealthy-service_name w =
      let w' : Watch = record w { state = fail now w.state } in
      let d = degrade c texts now w' in
      let r = react c texts now d.0 in
      service_name-if w.state.is_escalated (w', []) (r.0, d.1 ++ r.1) w.state.service_name refl
        (react-service_name d.0 ∙ degrade-service_name w')

pub poll_watch-service_name :
    (c : SupervisionConfig) (texts : Texts) (k : Look) (w : Watch)
    → (poll_watch c texts k w).0.state.service_name ≡ w.state.service_name
unfolding poll_watch recover
poll_watch-service_name c texts k w = elim (Bool-cases (cooling k.now w.deadline)) [
  | inl e ↦ rw (e) refl
  | inr e ↦ rw (e) (elim (Bool-cases (health_check c k)) [
    | inl h ↦ rw (h) refl
    | inr h ↦ rw (h) (unhealthy-service_name c texts k.now w)
  ])
]
