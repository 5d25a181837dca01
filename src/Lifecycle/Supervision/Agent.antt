-- ===== src/Lifecycle/Supervision/Agent.antt =====
-- lifecycle/supervision.py: `SupervisionAgent`, its tables of services and its poll loop.
pub mod Reached
pub mod Status
use robotsix_agent_comm.Prelude.{
  String, ℕ, suc, Bool, true, false, Option, none, some, List, [], ◌∷◌, ◌++◌, if◌then◌else◌,
  or_else, str_eq, eq_iff, ◌≡◌, refl, sym, ap, ◌∙◌, arith, Bool-cases, inl, inr,
}
use robotsix_agent_comm.Prelude.Int.{ℤ}
use robotsix_agent_comm.Prelude.Dict.{
  Dict, lookup, insert, remove, set_default, lookup-insert, lookup-remove, lookup-set_default,
}
use robotsix_agent_comm.Lifecycle.Supervision.{
  ServiceState, SupervisionConfig, Texts, Look, Effect, Watch, new_state, cooling, health_check,
  recover, fail, waiting, restart, attempt_restart, escalate, degrade, react, unhealthy, poll_watch,
}
use robotsix_agent_comm.Lifecycle.Supervision.Service.{
  IsValid, IsWatched, new_watch, new_watch-IsWatched, poll_watch-IsWatched,
}
use robotsix_agent_comm.Lifecycle.Supervision.Restarts.{run_watch}

-- the tables of the agent, each under the names of the services
pub record Supervisor : Type 0 where
  pub services_state : Dict ServiceState
  pub backoff : Dict ℤ
  pub escalation_deadline : Dict ℤ
  pub poll_count : ℕ

-- `__init__`
abbrev pub new_supervisor : Supervisor
new_supervisor = record {
  services_state = [];
  backoff = [];
  escalation_deadline = [];
  poll_count = 0;
}

-- what the tables hold under a name; `_get_state` makes a state that is missing
unfoldable pub watch_of : String → Supervisor → Watch
watch_of name s = record {
  state = or_else (lookup name s.services_state) (new_state name);
  backoff = lookup name s.backoff;
  deadline = lookup name s.escalation_deadline;
}

-- an entry written or popped
unfoldable set_entry : String → Option ℤ → Dict ℤ → Dict ℤ
set_entry name none d = remove name d
set_entry name (some v) d = insert name v d

unfoldable put_watch : String → Watch → Supervisor → Supervisor
unfolding set_entry
put_watch name w s = record s {
  services_state = insert name w.state s.services_state;
  backoff = set_entry name w.backoff s.backoff;
  escalation_deadline = set_entry name w.deadline s.escalation_deadline;
}

module _ (c : SupervisionConfig) (texts : Texts) where
  -- `_poll_service`
  unfoldable pub poll_service : String → Look → Supervisor → Supervisor × List Effect
  unfolding watch_of put_watch
  poll_service name k s =
      let (w, es) = poll_watch c texts k (watch_of name s) in (put_watch name w s, es)

  -- the calls of `_poll_service` that a run makes, in their order
  unfoldable pub poll_services : List (String × Look) → Supervisor → Supervisor × List Effect
  unfolding poll_service
  poll_services [] s = (s, [])
  poll_services ((name, k) ∷ ps) s =
      let (s1, e1) = poll_service name k s in let (s2, e2) = poll_services ps s1 in (s2, e1 ++ e2)

-- The services of a cycle with what their polls meet; there are fewer looks than services when the
-- stop event is set on the way.
unfoldable pub pair_up : List String → List Look → List (String × Look)
pair_up [] ks = []
pair_up (n ∷ ns) [] = []
pair_up (n ∷ ns) (k ∷ ks) = (n, k) ∷ pair_up ns ks

-- the body of `_poll_loop` up to its sleep
unfoldable pub poll_cycle :
    SupervisionConfig → Texts → List Look → Supervisor → Supervisor × List Effect
unfolding poll_services pair_up
poll_cycle c texts ks s =
    poll_services c texts (pair_up c.services ks) (record s { poll_count = suc s.poll_count })

-- the states that `start` makes
unfoldable pub init_states : List String → Dict ServiceState → Dict ServiceState
init_states [] d = d
init_states (n ∷ ns) d = init_states ns (set_default n (new_state n) d)

-- `start`, where no thread runs yet
unfoldable pub start_states : SupervisionConfig → Supervisor → Supervisor
unfolding init_states
start_states c s = record s { services_state = init_states c.services s.services_state }

lookup-set_entry :
    (k j : String) (o : Option ℤ) (d : Dict ℤ)
    → lookup j (set_entry k o d) ≡ (if str_eq k j then o else lookup j d)
unfolding set_entry
lookup-set_entry k j none d = lookup-remove k j d
lookup-set_entry k j (some v) d = lookup-insert k j v d

watch_of-put_watch :
    (k j : String) (w : Watch) (s : Supervisor)
    → watch_of j (put_watch k w s) ≡ (if str_eq k j then w else watch_of j s)
unfolding watch_of put_watch
watch_of-put_watch k j w s =
    let a = lookup-insert k j w.state s.services_state in
    let b = lookup-set_entry k j w.backoff s.backoff in
    let d = lookup-set_entry k j w.deadline s.escalation_deadline in
    elim (Bool-cases (str_eq k j)) [ inl e ↦ rw (a, b, d, e) refl | inr e ↦ rw (a, b, d, e) refl ]

or_else-init_states :
    (j : String) (ns : List String) (d : Dict ServiceState)
    → or_else (lookup j (init_states ns d)) (new_state j) ≡ or_else (lookup j d) (new_state j)
unfolding init_states
or_else-init_states j [] d = refl
or_else-init_states j (n ∷ ns) d =
    or_else-init_states j ns (set_default n (new_state n) d)
    ∙ ground (arith, eq_iff n j, lookup-set_default n j (new_state n) d)

pub watch_of-start_states :
    (c : SupervisionConfig) (j : String) (s : Supervisor)
    → watch_of j (start_states c s) ≡ watch_of j s
unfolding watch_of start_states
watch_of-start_states c j s = rw (or_else-init_states j c.services s.services_state) refl

-- the looks at one service among those of a run
unfoldable pub looks_at : String → List (String × Look) → List Look
looks_at j [] = []
looks_at j ((name, k) ∷ ps) = let rest = looks_at j ps in if str_eq name j then k ∷ rest else rest

module _ (c : SupervisionConfig) (texts : Texts) where
  watch_of-poll_service :
      (name j : String) (k : Look) (s : Supervisor)
      → watch_of j (poll_service c texts name k s).0
        ≡ (if str_eq name j then (poll_watch c texts k (watch_of j s)).0 else watch_of j s)
  unfolding poll_service
  watch_of-poll_service name j k s =
      let w = (poll_watch c texts k (watch_of name s)).0 in
      elim (Bool-cases (str_eq name j)) [
        | inl e ↦
            let q = (eq_iff name j).0 e in
            rw (watch_of-put_watch name j w s, e)
              (ap (λ n. (poll_watch c texts k (watch_of n s)).0) q)
        | inr e ↦ rw (watch_of-put_watch name j w s, e) refl
      ]

  watch_of-poll_services :
      (j : String) (ps : List (String × Look)) (s : Supervisor)
      → watch_of j (poll_services c texts ps s).0
        ≡ (run_watch c texts (looks_at j ps) (watch_of j s)).0
  unfolding poll_services run_watch looks_at
  watch_of-poll_services j [] s = refl
  watch_of-poll_services j ((name, k) ∷ ps) s =
      let h = watch_of-poll_services j ps (poll_service c texts name k s).0 in
      elim (Bool-cases (str_eq name j)) [
        | inl e ↦ rw (h, watch_of-poll_service name j k s, e) refl
        | inr e ↦ rw (h, watch_of-poll_service name j k s, e) refl
      ]

  -- A cycle of the poll loop does to each service what its own polls do to it alone, whatever happens
  -- to the others.
  pub watch_of-poll_cycle :
      (j : String) (ks : List Look) (s : Supervisor)
      → watch_of j (poll_cycle c texts ks s).0
        ≡ (run_watch c texts (looks_at j (pair_up c.services ks)) (watch_of j s)).0
  unfolding poll_cycle
  watch_of-poll_cycle j ks s =
      watch_of-poll_services j (pair_up c.services ks) (record s { poll_count = suc s.poll_count })
