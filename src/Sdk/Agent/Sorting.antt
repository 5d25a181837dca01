-- ===== src/Sdk/Agent/Sorting.antt =====
-- sdk/agent.py: where the messages that an agent polls go.
use robotsix_agent_comm.Prelude.{
  String, Bool, true, false, not, Option, none, some, List, [], ◌∷◌, ◌++◌, keep_if, is_some,
  if◌then◌else◌, str_eq, eq_iff, ◌≡◌, refl, sym, ap, ◌∙◌, Bool-cases, inl, inr,
}
use robotsix_agent_comm.Prelude.Dict.{Dict, lookup, lookup-insert}
use robotsix_agent_comm.Protocol.Messages.{Message}
use robotsix_agent_comm.Sdk.Agent.{
  Agent, submit, give, give_correlated, dispatch_pull, dispatch_all,
}

-- the message is correlated to a request
unfoldable pub is_reply_to : String → Option String → Bool
is_reply_to id none = false
is_reply_to id (some j) = str_eq j id

unfoldable pub is_awaited : Dict (List Message) → Option String → Bool
is_awaited waiters none = false
is_awaited waiters (some id) = is_some (lookup id waiters)

add_reply : Bool → Message → Option (List Message) → Option (List Message)
add_reply b m none = none
add_reply b m (some slot) = some (if b then slot ++ m ∷ [] else slot)

submit_lem :
    (m : Message) (a : Agent) (queue : List Message)
    → a.pool ≡ some queue
    → ((submit m a).waiters ≡ a.waiters) × ((submit m a).pool ≡ some (queue ++ m ∷ []))
unfolding submit
submit_lem m a queue e = rw (e) (refl, refl)

add_reply-false : (m : Message) (o : Option (List Message)) → o ≡ add_reply false m o
unfolding add_reply
add_reply-false m none = refl
add_reply-false m (some slot) = refl

lookup-give :
    (id key : String) (m : Message) (o : Option (List Message)) (a : Agent) (queue : List Message)
    → a.pool ≡ some queue
    → lookup id a.waiters ≡ o
    → lookup key (give id m o a).waiters ≡ add_reply (str_eq id key) m (lookup key a.waiters)
unfolding give add_reply
lookup-give id key m none a queue p e = elim (Bool-cases (str_eq id key)) [
  | inl q ↦
      let absent : lookup key a.waiters ≡ none =
        sym (ap (λ k. lookup k a.waiters) ((eq_iff id key).0 q)) ∙ e in
      rw ((submit_lem m a queue p).0, q, absent) refl
  | inr q ↦ rw ((submit_lem m a queue p).0, q) (add_reply-false m (lookup key a.waiters))
]
lookup-give id key m (some slot) a queue p e = elim (Bool-cases (str_eq id key)) [
  | inl q ↦
      let there : lookup key a.waiters ≡ some slot =
        sym (ap (λ k. lookup k a.waiters) ((eq_iff id key).0 q)) ∙ e in
      rw (lookup-insert id key (slot ++ m ∷ []) a.waiters, q, there) refl
  | inr q ↦
      rw (lookup-insert id key (slot ++ m ∷ []) a.waiters, q)
        (add_reply-false m (lookup key a.waiters))
]

give-pool :
    (id : String) (m : Message) (o : Option (List Message)) (a : Agent) (queue : List Message)
    → a.pool ≡ some queue
    → (give id m o a).pool ≡ some (if is_some o then queue else queue ++ m ∷ [])
unfolding give
give-pool id m none a queue p = (submit_lem m a queue p).1
give-pool id m (some slot) a queue p = p

lookup-give_correlated :
    (key : String) (m : Message) (o : Option String) (a : Agent) (queue : List Message)
    → a.pool ≡ some queue
    → lookup key (give_correlated m o a).waiters
      ≡ add_reply (is_reply_to key o) m (lookup key a.waiters)
unfolding give_correlated is_reply_to
lookup-give_correlated key m none a queue p =
    rw ((submit_lem m a queue p).0) (add_reply-false m (lookup key a.waiters))
lookup-give_correlated key m (some id) a queue p =
    lookup-give id key m (lookup id a.waiters) a queue p refl

give_correlated-pool :
    (m : Message) (o : Option String) (a : Agent) (queue : List Message)
    → a.pool ≡ some queue
    → (give_correlated m o a).pool
      ≡ some (if is_awaited a.waiters o then queue else queue ++ m ∷ [])
unfolding give_correlated is_awaited
give_correlated-pool m none a queue p = (submit_lem m a queue p).1
give_correlated-pool m (some id) a queue p = give-pool id m (lookup id a.waiters) a queue p

is_some-add_reply :
    (b : Bool) (m : Message) (o : Option (List Message)) → is_some (add_reply b m o) ≡ is_some o
unfolding add_reply
is_some-add_reply b m none = refl
is_some-add_reply b m (some slot) = refl

is_awaited-dispatch_pull :
    (m : Message) (a : Agent) (queue : List Message) (o : Option String)
    → a.pool ≡ some queue
    → is_awaited (dispatch_pull m a).waiters o ≡ is_awaited a.waiters o
unfolding dispatch_pull is_awaited
is_awaited-dispatch_pull m a queue none p = refl
is_awaited-dispatch_pull m a queue (some key) p =
    ap is_some (lookup-give_correlated key m m.correlation_id a queue p)
    ∙ is_some-add_reply (is_reply_to key m.correlation_id) m (lookup key a.waiters)

append-if :
    (b : Bool) (xs : List Message) (m : Message) (ys : List Message)
    → (if b then xs ++ m ∷ [] else xs) ++ ys ≡ xs ++ (if b then m ∷ ys else ys)
append-if false xs m ys = refl
append-if true [] m ys = refl
append-if true (x ∷ xs) m ys = ap (λ zs. x ∷ zs) (append-if true xs m ys)

append-if_not :
    (b : Bool) (xs : List Message) (m : Message) (ys : List Message)
    → (if b then xs else xs ++ m ∷ []) ++ ys ≡ xs ++ (if not b then m ∷ ys else ys)
append-if_not true xs m ys = refl
append-if_not false xs m ys = append-if true xs m ys

append-nil : (xs : List Message) → xs ≡ xs ++ []
append-nil [] = refl
append-nil (x ∷ xs) = ap (λ zs. x ∷ zs) (append-nil xs)

dispatch_all-slot :
    (ms : List Message) (a : Agent) (queue slot : List Message) (id : String)
    → a.pool ≡ some queue
    → lookup id a.waiters ≡ some slot
    → lookup id (dispatch_all ms a).waiters
      ≡ some (slot ++ keep_if (λ m. is_reply_to id m.correlation_id) ms)
unfolding dispatch_all dispatch_pull add_reply
dispatch_all-slot [] a queue slot id p e = e ∙ ap some (append-nil slot)
dispatch_all-slot (m ∷ ms) a queue slot id p e =
    dispatch_all-slot ms (dispatch_pull m a) _ _ id
      (give_correlated-pool m m.correlation_id a queue p)
      (lookup-give_correlated id m m.correlation_id a queue p
        ∙ ap (add_reply (is_reply_to id m.correlation_id) m) e)
    ∙ ap some (append-if (is_reply_to id m.correlation_id) slot m _)

dispatch_all-pool :
    (ms : List Message) (a : Agent) (queue : List Message) (awaited : Option String → Bool)
    → a.pool ≡ some queue
    → ((o : Option String) → is_awaited a.waiters o ≡ awaited o)
    → (dispatch_all ms a).pool ≡ some (queue ++ keep_if (λ m. not (awaited m.correlation_id)) ms)
unfolding dispatch_all dispatch_pull
dispatch_all-pool [] a queue awaited p same = p ∙ ap some (append-nil queue)
dispatch_all-pool (m ∷ ms) a queue awaited p same =
    dispatch_all-pool ms (dispatch_pull m a) _ awaited
      (give_correlated-pool m m.correlation_id a queue p
        ∙ ap (λ b. some (if b then queue else queue ++ m ∷ [])) (same m.correlation_id))
      (λ o. is_awaited-dispatch_pull m a queue o p ∙ same o)
    ∙ ap some (append-if_not (awaited m.correlation_id) queue m _)

-- While the pool is open, a pending request gets exactly the polled messages that are correlated to
-- it, in their order, and the pool exactly those that no pending request waits for.
pub dispatch_all_lem :
    (ms : List Message) (a : Agent) (queue slot : List Message) (id : String)
    → a.pool ≡ some queue
    → lookup id a.waiters ≡ some slot
    → (lookup id (dispatch_all ms a).waiters
        ≡ some (slot ++ keep_if (λ m. is_reply_to id m.correlation_id) ms))
      × ((dispatch_all ms a).pool
          ≡ some (queue ++ keep_if (λ m. not (is_awaited a.waiters m.correlation_id)) ms))
dispatch_all_lem ms a queue slot id p e =
    (dispatch_all-slot ms a queue slot id p e, dispatch_all-pool ms a queue _ p (λ o. refl))
