-- ===== src/Lifecycle/Supervision/Agent/Reached.antt =====
-- lifecycle/supervision.py: the states that `start` and the poll loop of `SupervisionAgent` reach.
use robotsix_agent_comm.Prelude.{String, List, [], ◌∷◌, ◌++◌, ◌≡◌, refl, sym, ap, ◌∙◌}
use robotsix_agent_comm.Prelude.Dict.{lookup}
use robotsix_agent_comm.Lifecycle.Supervision.{
  SupervisionConfig, Texts, Look, Watch, new_state, poll_watch,
}
use robotsix_agent_comm.Lifecycle.Supervision.Service.{
  IsValid, IsWatched, new_watch, new_watch-IsWatched, poll_watch-IsWatched,
}
use robotsix_agent_comm.Lifecycle.Supervision.Named.{poll_watch-service_name}
use robotsix_agent_comm.Lifecycle.Supervision.Restarts.{run_watch}
use robotsix_agent_comm.Lifecycle.Supervision.Agent.{
  Supervisor, new_supervisor, watch_of, pair_up, poll_cycle, start_states, watch_of-start_states,
  looks_at, watch_of-poll_cycle,
}

-- What changes the tables: `start`, and a cycle of the poll loop.
pub data Step (c : SupervisionConfig) (texts : Texts) : Supervisor → Supervisor → Type 0 where
  starting : (s : Supervisor) → Step c texts s (start_states c s)
  cycling : (s : Supervisor) (ks : List Look) → Step c texts s (poll_cycle c texts ks s).0

-- the supervisors that a run can reach
pub data Reach (c : SupervisionConfig) (texts : Texts) : Supervisor → Type 0 where
  initial : Reach c texts new_supervisor
  next : {s t : Supervisor} → Reach c texts s → Step c texts s t → Reach c texts t

-- What the agent holds of a service is what polls of that service alone make of a new one.
pub data IsPolled (c : SupervisionConfig) (texts : Texts) (name : String) (w : Watch) : Type 0 where
  polled :
      (ks : List Look) → w ≡ (run_watch c texts ks (new_watch name)).0 → IsPolled c texts name w

module _ (c : SupervisionConfig) (texts : Texts) where
  run_watch-append :
      (ks ls : List Look) (w : Watch)
      → (run_watch c texts (ks ++ ls) w).0 ≡ (run_watch c texts ls (run_watch c texts ks w).0).0
  unfolding run_watch
  run_watch-append [] ls w = refl
  run_watch-append (k ∷ ks) ls w = run_watch-append ks ls (poll_watch c texts k w).0

  Step-IsPolled :
      (name : String) (s t : Supervisor)
      → Step c texts s t
      → IsPolled c texts name (watch_of name s)
      → IsPolled c texts name (watch_of name t)
  Step-IsPolled name s t (starting _) (polled ks e) = polled ks (watch_of-start_states c name s ∙ e)
  Step-IsPolled name s t (cycling _ ls) (polled ks e) =
      let ms = looks_at name (pair_up c.services ls) in
      polled (ks ++ ms) (
        watch_of-poll_cycle c texts name ls s
        ∙ ap (λ w. (run_watch c texts ms w).0) e
        ∙ sym (run_watch-append ks ms (new_watch name)))

  -- Whatever cycles the agent has run, and however often it was started and stopped on the way, it
  -- holds of each service what some sequence of polls of that service alone makes of a new one.
  pub Reach-IsPolled :
      (s : Supervisor) → Reach c texts s → (name : String) → IsPolled c texts name (watch_of name s)
  unfolding watch_of run_watch new_state lookup
  Reach-IsPolled s initial name = polled [] refl
  Reach-IsPolled t (next {s} r step) name = Step-IsPolled name s t step (Reach-IsPolled s r name)

  run_watch-IsWatched :
      (valid : IsValid c) (ks : List Look) (w : Watch)
      → IsWatched c w
      → IsWatched c (run_watch c texts ks w).0
  unfolding run_watch
  run_watch-IsWatched valid [] w i = i
  run_watch-IsWatched valid (k ∷ ks) w i =
      run_watch-IsWatched valid ks _ (poll_watch-IsWatched c valid texts k w i)

  run_watch-service_name :
      (ks : List Look) (w : Watch)
      → (run_watch c texts ks w).0.state.service_name ≡ w.state.service_name
  unfolding run_watch
  run_watch-service_name [] w = refl
  run_watch-service_name (k ∷ ks) w =
      run_watch-service_name ks _ ∙ poll_watch-service_name c texts k w

  IsPolled-IsWatched :
      (valid : IsValid c) (name : String) (w : Watch)
      → IsPolled c texts name w
      → IsWatched c w × (w.state.service_name ≡ name)
  unfolding new_state
  IsPolled-IsWatched valid name w (polled ks e) = rw (e) (
    run_watch-IsWatched valid ks _ (new_watch-IsWatched c valid name),
    run_watch-service_name ks (new_watch name),
  )

  -- Under a valid configuration, the agent's account of every service is consistent at all times and
  -- bears the service's name.
  pub Reach-IsWatched :
      (valid : IsValid c) (s : Supervisor)
      → Reach c texts s
      → (name : String)
      → IsWatched c (watch_of name s) × ((watch_of name s).state.service_name ≡ name)
  Reach-IsWatched valid s r name = IsPolled-IsWatched valid name _ (Reach-IsPolled s r name)
