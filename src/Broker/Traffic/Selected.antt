-- ===== src/Broker/Traffic/Selected.antt =====
-- broker/server.py: which records `_handle_traffic` returns.
use robotsix_agent_comm.Prelude.{
  String, ℕ, zero, suc, ◌≤◌, ◌-◌, Bool, true, ◌||◌, Option, none, some, List, [], ◌∷◌, str_eq,
  eq_iff, keep_if, length, drop, length-drop, All, ◌≡◌, ◌≢◌, arith, Bool-cases, inl, inr,
}
use robotsix_agent_comm.Prelude.Int.{ℤ, pos, leb_ℤ}
use robotsix_agent_comm.Broker.State.{TrafficRecord}
use robotsix_agent_comm.Broker.Send.{is_text}
use robotsix_agent_comm.Broker.Traffic.{
  Filters, select_traffic, filter_text, filter_time, by_agent, by_topic, from_time, to_time, cut,
}

-- A record that passes every filter that is set.
pub record Matches (f : Filters) (r : TrafficRecord) : Type 0 where
  pub agent : f.agent ≢ "" → (is_text r.source f.agent || is_text r.destination f.agent) ≡ true
  pub topic : f.topic ≢ "" → is_text r.topic f.topic ≡ true
  pub since : (t : ℤ) → f.since ≡ some t → leb_ℤ t (pos r.timestamp) ≡ true
  pub until : (t : ℤ) → f.until ≡ some t → leb_ℤ (pos r.timestamp) t ≡ true

module _ {A : Type 0} where
  All-drop : (P : A → Type 0) (n : ℕ) (xs : List A) → All P xs → All P (drop n xs)
  All-drop P zero xs h = h
  All-drop P (suc n) [] h = h
  All-drop P (suc n) (x ∷ xs) h = All-drop P n xs h.1

  -- a filter keeps what held and adds its own test
  All-keep_if :
      (P Q : A → Type 0) (p : A → Bool) (xs : List A)
      → ((x : A) → p x ≡ true → P x → Q x)
      → All P xs
      → All Q (keep_if p xs)
  All-keep_if P Q p [] f h = tt
  All-keep_if P Q p (x ∷ xs) f h = elim (Bool-cases (p x)) [
    | inl e ↦ rw (e) (f x e h.0, All-keep_if P Q p xs f h.1)
    | inr e ↦ rw (e) (All-keep_if P Q p xs f h.1)
  ]

  All-map : (P Q : A → Type 0) (xs : List A) → ((x : A) → P x → Q x) → All P xs → All Q xs
  All-map P Q [] f h = tt
  All-map P Q (x ∷ xs) f h = (f x h.0, All-map P Q xs f h.1)

  All-any : (xs : List A) → All (λ x. Unit {0}) xs
  All-any [] = tt
  All-any (x ∷ xs) = (tt, All-any xs)

abbrev Passes : String → (String → TrafficRecord → Bool) → TrafficRecord → Type 0
Passes t p r = t ≢ "" → p t r ≡ true

abbrev PassesTime : Option ℤ → (ℤ → TrafficRecord → Bool) → TrafficRecord → Type 0
PassesTime o p r = (t : ℤ) → o ≡ some t → p t r ≡ true

filter_text-All :
    (P : TrafficRecord → Type 0) (t : String) (p : String → TrafficRecord → Bool)
    (rs : List TrafficRecord)
    → All P rs
    → All (λ r. P r × Passes t p r) (filter_text t p rs)
filter_text-All P t p rs h = elim (Bool-cases (str_eq t "")) [
  | inl e ↦ rw (e) (All-map _ _ rs (λ r x. (x, λ named. absurd (named ((eq_iff t "").0 e)))) h)
  | inr e ↦ rw (e) (All-keep_if _ _ (p t) rs (λ r y x. (x, λ named. y)) h)
]

filter_time-All :
    (P : TrafficRecord → Type 0) (o : Option ℤ) (p : ℤ → TrafficRecord → Bool)
    (rs : List TrafficRecord)
    → All P rs
    → All (λ r. P r × PassesTime o p r) (filter_time o p rs)
filter_time-All P none p rs h = All-map _ _ rs (λ r x. (x, λ t e. cc)) h
filter_time-All P (some t) p rs h =
    All-keep_if _ _ (p t) rs (λ r y x. (x, λ u e. ground (arith, y, e))) h

cut-All :
    (P : TrafficRecord → Type 0) (o : Option ℕ) (rs : List TrafficRecord)
    → All P rs
    → All P (cut o rs)
cut-All P none rs h = h
cut-All P (some n) rs h = All-drop P _ rs h

length-cut : (o : Option ℕ) (n : ℕ) (rs : List TrafficRecord) → o ≡ some n → length (cut o rs) ≤ n
length-cut none n rs e = cc
length-cut (some m) n rs e = ground (arith, length-drop (length rs - m) rs, e)

-- The records that a traffic request selects pass every filter that it sets, and are at most as many
-- as its limit, if it sets one.
pub select_traffic-Matches :
    (f : Filters) (rs : List TrafficRecord)
    → All (Matches f) (select_traffic f rs)
      × ((n : ℕ) → f.limit ≡ some n → length (select_traffic f rs) ≤ n)
unfolding select_traffic
select_traffic-Matches f rs =
    let h1 = filter_text-All (λ r. Unit {0}) f.agent by_agent rs (All-any rs) in
    let h2 = filter_text-All _ f.topic by_topic _ h1 in
    let h3 = filter_time-All _ f.since from_time _ h2 in
    let h4 = filter_time-All _ f.until to_time _ h3 in
    (
      cut-All _ f.limit _ (
          All-map _ _ _
            (λ r x. record { agent = x.0.0.0.1; topic = x.0.0.1; since = x.0.1; until = x.1 }) h4),
      λ n e. length-cut f.limit n _ e,
    )
