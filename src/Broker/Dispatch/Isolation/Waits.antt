-- ===== src/Broker/Dispatch/Isolation/Waits.antt =====
-- broker/server.py: the waits of a poll of one agent, and the entries of another.
use robotsix_agent_comm.Prelude.{
  String, ℕ, leb, Bool, true, false, List, [], ◌∷◌, ◌++◌, ◌≡◌, refl, sym, ◌∙◌, str_eq,
  if◌then◌else◌, ◌⊎◌, inl, inr, Bool-cases, Option-cases,
}
use robotsix_agent_comm.Prelude.Dict
use robotsix_agent_comm.Protocol.Value.{Value}
use robotsix_agent_comm.Broker.State.{Server}
use robotsix_agent_comm.Broker.Http.{World, Answer}
use robotsix_agent_comm.Broker.Poll.{
  server_of, Wake, Polled, answered, waiting, polled, deliver, look, wait_for_messages,
  messages_response,
}
use robotsix_agent_comm.Broker.Dispatch.Isolation.{
  Spares, Safe, Safe-if, Spared, self, deliver-Spares,
}

-- a look ends the poll whatever would follow it, or goes on to what follows it
look-cases :
    (w : World) (p : String) (deadline now : ℕ) (t : Server)
    → ((a : Answer) × (u : Server) × ((n : Polled) → look w p deadline now n t ≡ answered a u))
      ⊎ ((n : Polled) → look w p deadline now n t ≡ n)
unfolding look
look-cases w p deadline now t = elim (Option-cases (Dict.lookup p t.mailboxes)) [
  | inl e ↦ inl (messages_response [], t, λ n. rw (e, look) refl)
  | inr ([], e) ↦ elim (Bool-cases (leb deadline now)) [
    | inl f ↦ inl ((deliver w p [] t).0, (deliver w p [] t).1, λ n. rw (e, look, f) refl)
    | inr f ↦ inr (λ n. rw (e, look, f) refl)
  ]
  | inr (v ∷ vs, e) ↦
      inl ((deliver w p (v ∷ vs) t).0, (deliver w p (v ∷ vs) t).1, λ n. rw (e, look) refl)
]

-- What a request of `p`, given the wakes that its waits meet, leaves of the entries of `b`: of those at
-- its start, and after each wake of those at the wake. Once it has answered, it does no more.
pub record Guarded (p b : String) (s : Server) (f : List Wake → Polled) : Type 0 where
  pub kept : Spares p b s (server_of (f []))
  pub woken :
      (before : List Wake) (k : Wake) (t : Server)
      → f before ≡ waiting t
      → Spares p b k.server (server_of (f (before ++ k ∷ [])))
  pub ended :
      (before after : List Wake) (a : Answer) (t : Server)
      → f before ≡ answered a t
      → f (before ++ after) ≡ answered a t

pub Guarded-if :
    {p b : String} {s : Server} (c : Bool) (f g : List Wake → Polled)
    → Guarded p b s f
    → Guarded p b s g
    → Guarded p b s (λ ks. if c then f ks else g ks)
Guarded-if true f g h k = h
Guarded-if false f g h k = k

pub Guarded-once :
    {p b : String} {s : Server} {other : str_eq p b ≡ false} (x : Answer × Server)
    → Spared p b s other x
    → Guarded p b s (λ ks. polled x)
Guarded-once (a, u) h = record {
  kept = h.kept;
  woken = λ before k t e. cc;
  ended = λ before after b t e. e;
}

module _ (p b : String) (other : str_eq p b ≡ false) (w : World) (deadline : ℕ) where
  look-Safe :
      (s : Server) (now : ℕ) {t : Server}
      → Spares p b s t
      → Safe p b s other (look w p deadline now (waiting t) t)
  unfolding look
  look-Safe s now {t} x =
      let deliver-Safe : (vs : List Value) → Safe p b s other (polled (deliver w p vs t)) =
        λ vs. record { kept = deliver-Spares p b s other w vs x } in
      elim (Option-cases (Dict.lookup p t.mailboxes)) [
        | inl e ↦ rw (e, look) (record { kept = x })
        | inr ([], e) ↦
            rw (e, look)
              (Safe-if p b s other (leb deadline now) (polled (deliver w p [] t)) (waiting t)
                (deliver-Safe []) (record { kept = x }))
        | inr (v ∷ vs, e) ↦ rw (e, look) (deliver-Safe (v ∷ vs))
      ]

  wait-woken :
      (now : ℕ) (s : Server) (before : List Wake) (k : Wake) (t : Server)
      → wait_for_messages w p deadline now before s ≡ waiting t
      → Spares p b k.server (server_of (wait_for_messages w p deadline now (before ++ k ∷ []) s))
  unfolding wait_for_messages
  wait-woken now s [] k t h = elim (look-cases w p deadline now s) [
    | inl (a, u, f) ↦ absurd (cc (sym (f (waiting s)) ∙ h))
    | inr f ↦ rw (f) ((look-Safe k.server k.now (self p b k.server other)).kept)
  ]
  wait-woken now s (j ∷ js) k t h = elim (look-cases w p deadline now s) [
    | inl (a, u, f) ↦ absurd (cc (sym (f (wait_for_messages w p deadline j.now js j.server)) ∙ h))
    | inr f ↦ rw (f (wait_for_messages w p deadline j.now (js ++ k ∷ []) j.server)) (
        wait-woken j.now j.server js k t
          (sym (f (wait_for_messages w p deadline j.now js j.server)) ∙ h))
  ]

  wait-ended :
      (now : ℕ) (s : Server) (before after : List Wake) (a : Answer) (t : Server)
      → wait_for_messages w p deadline now before s ≡ answered a t
      → wait_for_messages w p deadline now (before ++ after) s ≡ answered a t
  unfolding wait_for_messages
  wait-ended now s [] [] a t h = h
  wait-ended now s [] (k ∷ ks) a t h = elim (look-cases w p deadline now s) [
    | inl (b, u, f) ↦ f _ ∙ sym (f (waiting s)) ∙ h
    | inr f ↦ absurd (cc (sym (f (waiting s)) ∙ h))
  ]
  wait-ended now s (j ∷ js) after a t h = elim (look-cases w p deadline now s) [
    | inl (b, u, f) ↦ f _ ∙ sym (f (wait_for_messages w p deadline j.now js j.server)) ∙ h
    | inr f ↦
        f _
        ∙ wait-ended j.now j.server js after a t
            (sym (f (wait_for_messages w p deadline j.now js j.server)) ∙ h)
  ]

  pub wait-Guarded :
      (s : Server) (now : ℕ) (t : Server)
      → Spares p b s t
      → Guarded p b s (λ ks. wait_for_messages w p deadline now ks t)
  unfolding wait_for_messages
  wait-Guarded s now t x = record {
    kept = (look-Safe s now x).kept;
    woken = wait-woken now t;
    ended = wait-ended now t;
  }
