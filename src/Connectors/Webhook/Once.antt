-- ===== src/Connectors/Webhook/Once.antt =====
-- Events that are delivered again.
use Prim.Native.String
use case_automation_mcp.Common.{
  ℕ, suc, ◌+◌, ◌≤◌, ◌<◌, ◌*◌, leb, le→leb, String, Bool, false, ◌≡◌, inl, inr, Option, none, some,
  List, [], ◌∷◌, lookup, lookup-insert, arith, ltb, ◌==◌, if◌then◌else◌, Bool-cases, subst, eq_iff,
  refl,
}
use case_automation_mcp.Json.{Json}
use case_automation_mcp.Connectors.Webhook.{
  World, is_held, microseconds, dedup_ttl_seconds, Event, Delivery, Gateway, enqueue,
  mark_and_enqueue, deduplicate, accept_event, parse_body, process_webhook, dedup_key,
  verify_signature, signature_of, max_body_bytes,
}

-- how often the sink was given an event with that key
unfoldable pub count : String → List (String × Event) → ℕ
count k [] = 0
count k ((j, e) ∷ l) = let rest = count k l in if j == k then suc rest else rest

-- a key that does not expire before `until`
abbrev lasts : ℕ → Option ℕ → Bool
lasts until none = false
lasts until (some expiry) = leb until expiry

-- a key that was given to the sink stays in Redis until `until`, and was given once
abbrev Once : ℕ → String → Gateway → Type 0
Once until k g = count k g.sent ≤ (if lasts until (lookup k g.keys) then 1 else 0)

not_held :
    (now until : ℕ) (o : Option ℕ) → now < until → is_held now o ≡ false → lasts until o ≡ false
not_held now until none h f = refl
not_held now until (some e) h f = ground arith

-- a call at a time from which the key lasts until `until`
abbrev InWindow : ℕ → World → Type 0
InWindow until w = (w.now < until) × (until ≤ w.now + dedup_ttl_seconds * microseconds)

mark_and_enqueue-Once :
    (w : World) (until : ℕ) (key k : String) (e : Event) (g : Gateway)
    → InWindow until w
    → lasts until (lookup key g.keys) ≡ false
    → Once until k g
    → Once until k (mark_and_enqueue w key e g).1
unfolding mark_and_enqueue enqueue count
mark_and_enqueue-Once w until key k e g window new h = elim (Bool-cases (w.redis_answers g.uses)) [
  | inr down ↦ rw down h
  | inl up ↦
      rw (up, lookup-insert key k (w.now + dedup_ttl_seconds * microseconds) g.keys)
        elim (Bool-cases (key == k)) [
          | inl same ↦
              let new' =
                subst (λ j. lasts until (lookup j g.keys) ≡ false) ((eq_iff key k).0 same) new in
              let none_yet : count k g.sent ≤ 0 = rw new' at h in
              rw (same, le→leb until (w.now + dedup_ttl_seconds * microseconds) window.1)
                (omega (arith, none_yet))
          | inr other ↦ rw other h
        ]
]

deduplicate-Once :
    (w : World) (until : ℕ) (key k : String) (e : Event) (g : Gateway)
    → InWindow until w
    → Once until k g
    → Once until k (deduplicate w key e g).1
unfolding deduplicate
deduplicate-Once w until key k e g window h = elim (Bool-cases (w.redis_answers g.uses)) [
  | inr down ↦ rw down h
  | inl up ↦ elim (Bool-cases (is_held w.now (lookup key g.keys))) [
    | inl there ↦ rw (up, there) h
    | inr new ↦
        rw (up, new)
          (mark_and_enqueue-Once w until key k e (record g { uses = g.uses + 1 }) window
            (not_held w.now until (lookup key g.keys) window.0 new) h)
  ]
]

accept_event-Once :
    (w : World) (until : ℕ) (connector k : String) (o : Option Event) (g : Gateway)
    → InWindow until w
    → Once until k g
    → Once until k (accept_event w connector o g).1
unfolding accept_event
accept_event-Once w until connector k none g window h = h
accept_event-Once w until connector k (some e) g window h =
    deduplicate-Once w until (dedup_key connector e.provider_event_id) k e g window h

parse_body-Once :
    (w : World) (until : ℕ) (q : Delivery) (k : String) (o : Option Json) (g : Gateway)
    → InWindow until w
    → Once until k g
    → Once until k (parse_body w q o g).1
unfolding parse_body
parse_body-Once w until q k none g window h = h
parse_body-Once w until q k (some payload) g window h =
    accept_event-Once w until q.connector_name k (q.normaliser q.connector_name payload) g window h

process_webhook-Once :
    (w : World) (until : ℕ) (q : Delivery) (k : String) (g : Gateway)
    → InWindow until w
    → Once until k g
    → Once until k (process_webhook w q g).1
unfolding process_webhook
process_webhook-Once w until q k g window h =
    elim (Bool-cases (ltb max_body_bytes (String.len q.raw_body))) [
      | inl large ↦ rw large h
      | inr small ↦
          elim (Bool-cases (
            verify_signature w q.raw_body (signature_of q.headers) q.secret
              (lookup "x-timestamp" q.headers))) [
                | inl good ↦
                    rw (small, good) (parse_body-Once w until q k (w.loads q.raw_body) g window h)
                | inr bad ↦ rw (small, bad) h
              ]
    ]

-- deliveries to one gateway within seven days from `first`, with the world as it is at each of them
pub data Calls (first : ℕ) : Gateway → Gateway → Type 0 where
  start : {a : Gateway} → Calls first a a
  deliver :
      {a b : Gateway} (w : World) (q : Delivery)
      → first ≤ w.now
      → w.now < first + 604800000000
      → Calls first a b
      → Calls first a (process_webhook w q b).1

Calls-Once :
    (first : ℕ) (k : String) {a b : Gateway}
    → Calls first a b
    → Once (first + 604800000000) k a
    → Once (first + 604800000000) k b
Calls-Once first k start h = h
Calls-Once first k (deliver {a} {b} w q after before calls) h =
    process_webhook-Once w (first + 604800000000) q k b (before, omega (arith, after))
      (Calls-Once first k calls h)

nothing : (k : String) (x : Bool) → count k [] ≤ (if x then 1 else 0)
unfolding count
nothing k x = ground arith

-- From a gateway whose sink was given nothing yet, any deliveries within seven days, with whatever
-- failures of Redis and of the sink, give the sink at most one event for each key of connector and
-- provider event id.
pub process_webhook_once :
    (first : ℕ) (k : String) (a b : Gateway) → a.sent ≡ [] → Calls first a b → count k b.sent ≤ 1
process_webhook_once first k a b idle calls =
    at_most_one (lasts (first + 604800000000) (lookup k b.keys)) (
      Calls-Once first k calls
        (rw idle (nothing k (lasts (first + 604800000000) (lookup k a.keys)))))
  where
    at_most_one : {n : ℕ} (x : Bool) → n ≤ (if x then 1 else 0) → n ≤ 1
    at_most_one x h = ground arith
