-- ===== src/Lifecycle/Config/Served.antt =====
-- lifecycle/: what the lifecycle server that is built from an environment replies.
use robotsix_agent_comm.Prelude.{
  String, Bool, true, false, Option, none, some, ◌≡◌, ◌≢◌, ◌↔◌, ◌⊎◌, inl, inr, refl, sym, ◌∙◌,
  arith, Bool-cases, Option-cases, str_eq, eq_iff, is_some, ◌||◌,
}
use robotsix_agent_comm.Prelude.Dict.{Dict, lookup, insert}
use robotsix_agent_comm.Prelude.Int.{ℤ}
use robotsix_agent_comm.Prelude.Text.{codes, int_of, concat}
use robotsix_agent_comm.Broker.Config.{get_or, non_empty}
use robotsix_agent_comm.Protocol.Value.{end}
use robotsix_agent_comm.Protocol.Messages.{Message, Stamp, response_to, error_to}
use robotsix_agent_comm.Sdk.Responder.{
  Responder, lookup_handler, register_handler, reply_with, dispatch,
}
use robotsix_agent_comm.Sdk.Responder.Replies.{Asks, Handles, dispatch-handled}
use robotsix_agent_comm.Lifecycle.Server.{
  Tracing, status_result, traced_result, after_span, build_status_result, handle_status,
  handle_monitor, lifecycle_method, lifecycle_server,
}
use robotsix_agent_comm.Lifecycle.Config.{
  LifecycleConfig, from_env, setting, config_of, Langfuse, enabled, build_server,
}

-- the server has Langfuse, both keys, and a client that is constructed from them
abbrev pub IsTraced : Langfuse → Dict String → Type 0
IsTraced l env =
    let p = get_or env "ROBOTSIX_LIFECYCLE_LANGFUSE_PUBLIC_KEY" "" in
    let s = get_or env "ROBOTSIX_LIFECYCLE_LANGFUSE_SECRET_KEY" "" in
    let host = setting env "ROBOTSIX_LIFECYCLE_LANGFUSE_HOST" in
    (l.installed ≡ true) × (p ≢ "") × (s ≢ "") × (l.constructs p s host ≡ true)

enabled_keys :
    (l : Langfuse) (p s : String) (host : Option String)
    → (enabled l (non_empty p) (non_empty s) host ≡ true)
      ↔ ((l.installed ≡ true) × (p ≢ "") × (s ≢ "") × (l.constructs p s host ≡ true))
unfolding enabled
enabled_keys l p s host = (
  λ h. (
    ground (arith, h),
    λ e. ground (arith, h, eq_iff p "", e),
    λ e. ground (arith, h, eq_iff s "", e),
    ground (arith, h),
  ),
  λ (i, np, ns, c). ground (arith, i, np, ns, c, eq_iff p "", eq_iff s ""),
)

module _ (agent_id : String) (tracing : Tracing) where
  abbrev server : Responder
  server = lifecycle_server agent_id tracing

  status_handler :
      (kind : String)
      → (kind ≡ "status") ⊎ (kind ≡ "monitor")
      → (m : Message)
      → Handles server m kind (build_status_result agent_id tracing kind (concat kind "-check"))
  unfolding lookup_handler lifecycle_server register_handler lookup insert lifecycle_method
      handle_status handle_monitor
  status_handler kind (inl e) m = rw (e) (handle_status agent_id tracing, refl, refl)
  status_handler kind (inr e) m = rw (e) (handle_monitor agent_id tracing, refl, refl)

  kinds_served :
      (kind : String)
      → is_some (lookup_handler server kind)
        ≡ (str_eq "status" kind || str_eq "lifecycle" kind || str_eq "monitor" kind)
  unfolding lookup_handler lifecycle_server register_handler lookup insert lifecycle_method
  kinds_served kind = elim (Bool-cases (str_eq "status" kind)) [
    | inl e ↦ rw (e) refl
    | inr e ↦ elim (Bool-cases (str_eq "lifecycle" kind)) [
      | inl f ↦ rw (e, f) refl
      | inr f ↦ elim (Bool-cases (str_eq "monitor" kind)) [
        | inl g ↦ rw (e, f, g) refl
        | inr g ↦ rw (e, f, g) refl
      ]
    ]
  ]

  status_reply :
      (repr : String → String) (t : Stamp) (m : Message) (kind : String)
      → Asks m kind
      → (kind ≡ "status") ⊎ (kind ≡ "monitor")
      → dispatch repr t server m
        ≡ reply_with repr t server m
            (build_status_result agent_id tracing kind (concat kind "-check"))
  status_reply repr t m kind asks k =
      dispatch-handled repr t server m kind _ asks (status_handler kind k m)

  -- what a request for a status comes to
  abbrev pub Told : (String → String) → Stamp → Message → String → Type 0
  Told repr t m kind =
      ((tracing.enabled ≡ false) ⊎ (tracing.span kind (concat kind "-check") end ≡ none)
        → dispatch repr t server m
          ≡ response_to t m (status_result agent_id tracing.enabled) (some agent_id))
      × ((text : String)
          → tracing.enabled ≡ true
          → tracing.span kind (concat kind "-check") end ≡ some text
          → dispatch repr t server m ≡ error_to t m "handler_error" text (some agent_id))

  status-Told :
      (repr : String → String) (t : Stamp) (m : Message) (kind : String)
      → Asks m kind
      → (kind ≡ "status") ⊎ (kind ≡ "monitor")
      → Told repr t m kind
  unfolding reply_with build_status_result traced_result after_span lifecycle_server
      register_handler
  status-Told repr t m kind asks k =
      let replied = status_reply repr t m kind asks k in
      (
        λ h. elim h [
          | inl off ↦ replied ∙ rw (off) refl
          | inr quiet ↦ elim (Bool-cases tracing.enabled) [
            | inl on ↦ replied ∙ rw (on, quiet) refl
            | inr off ↦ replied ∙ rw (off) refl
          ]
        ],
        λ text on raises. replied ∙ rw (on, raises) refl,
      )

from_env_config :
    (env : Dict String) (c : LifecycleConfig)
    → from_env env ≡ some c
    → (port : ℤ) × (config_of env port ≡ c)
unfolding from_env
from_env_config env c h =
    elim (Option-cases (int_of (codes (get_or env "ROBOTSIX_LIFECYCLE_BROKER_PORT" "8443")))) [
      | inl e ↦ absurd (ground (arith, e, h))
      | inr (port, e) ↦ (port, ground (arith, e, h))
    ]

-- The lifecycle server that is built from an environment serves the kinds status, monitor and
-- lifecycle and no other. It answers status and monitor with its id and with whether it traces, which
-- it does exactly if Langfuse is installed, both keys are set and not empty, and its client could be
-- constructed; if it traces and the client's trace of the check raises an exception, the answer is the
-- handler_error with the text of the exception instead.
pub lifecycle_told :
    (l : Langfuse) (env : Dict String) (c : LifecycleConfig)
    → from_env env ≡ some c
    → let id = get_or env "ROBOTSIX_LIFECYCLE_AGENT_ID" "lifecycle-server" in
      (traced : Bool) × ((traced ≡ true) ↔ IsTraced l env)
      × ((repr : String → String) (t : Stamp) (m : Message) (kind : String)
          → Asks m kind
          → (kind ≡ "status") ⊎ (kind ≡ "monitor")
          → ((traced ≡ false) ⊎ (l.span kind (concat kind "-check") end ≡ none)
              → dispatch repr t (build_server l c) m
                ≡ response_to t m (status_result id traced) (some id))
            × ((text : String)
                → traced ≡ true
                → l.span kind (concat kind "-check") end ≡ some text
                → dispatch repr t (build_server l c) m
                  ≡ error_to t m "handler_error" text (some id)))
      × ((kind : String)
          → is_some (lookup_handler (build_server l c) kind)
            ≡ (str_eq "status" kind || str_eq "lifecycle" kind || str_eq "monitor" kind))
unfolding build_server config_of
lifecycle_told l env c h =
    let (port, e) = from_env_config env c h in
    let id = get_or env "ROBOTSIX_LIFECYCLE_AGENT_ID" "lifecycle-server" in
    let p = get_or env "ROBOTSIX_LIFECYCLE_LANGFUSE_PUBLIC_KEY" "" in
    let s = get_or env "ROBOTSIX_LIFECYCLE_LANGFUSE_SECRET_KEY" "" in
    let host = setting env "ROBOTSIX_LIFECYCLE_LANGFUSE_HOST" in
    let traced = enabled l (non_empty p) (non_empty s) host in
    let tracing : Tracing = record { enabled = traced; span = l.span } in
    rw (sym e) (traced, enabled_keys l p s host, status-Told id tracing, kinds_served id tracing)
