-- ===== src/Connectors/Webhook/Signed.antt =====
-- What an event that is enqueued has passed.
use Prim.Native.String
use case_automation_mcp.Common.{
  not_empty, ℕ, ◌+◌, ◌-◌, ◌*◌, ◌≤◌, String, Bool, true, false, ◌≡◌, ◌≢◌, refl, inl, inr, Option,
  none, some, lookup, truthy, arith, ltb, leb→le, ◌&&◌, eq_iff, Bool-cases, Option-cases,
}
use case_automation_mcp.Json.{Json}
use case_automation_mcp.Connectors.Webhook.{
  World, Stamp, not_a_number, infinite, since_epoch, before_epoch, is_near, is_held, microseconds,
  Event, Delivery, Gateway, enqueued, deduplicate, accept_event, parse_body, process_webhook,
  dedup_key, verify_signature, is_fresh, is_signed, signature_of, max_body_bytes, replay_window,
}

-- not a number, or at most 300 seconds away
abbrev pub IsNear : ℕ → Stamp → Type 0
IsNear now not_a_number = Unit
IsNear now infinite = ⊥
IsNear now (since_epoch ts) = (now ≤ ts + 300000000) × (ts ≤ now + 300000000)
IsNear now (before_epoch ts) = now + ts ≤ 300000000

is_near-IsNear : (now : ℕ) (ts : Stamp) → is_near now ts ≡ true → IsNear now ts
unfolding is_near
is_near-IsNear now not_a_number h = tt
is_near-IsNear now infinite h = cc
is_near-IsNear now (since_epoch ts) h =
    let le = leb→le ((now - ts) + (ts - now)) (replay_window * microseconds) h in
    (omega (arith, le), omega (arith, le))
is_near-IsNear now (before_epoch ts) h = leb→le (now + ts) (replay_window * microseconds) h

-- the time of the header, if there is one, is read, and is near
abbrev pub IsFresh : World → Option String → Type 0
IsFresh w none = Unit
IsFresh w (some header) = (ts : Stamp) × (w.float header ≡ some ts) × IsNear w.now ts

-- the signature is the HMAC of the body
abbrev pub IsSigned : World → Delivery → Option String → Type 0
IsSigned w q none = ⊥
IsSigned w q (some signature) = (w.hmac q.secret q.raw_body ≡ signature) × (signature ≢ "")

-- the payload normalises to an event whose key is not in Redis, or has expired
abbrev pub IsNew : World → Delivery → Gateway → Type 0
IsNew w q g =
    (payload : Json) × (e : Event) × (w.loads q.raw_body ≡ some payload)
    × (q.normaliser q.connector_name payload ≡ some e)
    × (is_held w.now (lookup (dedup_key q.connector_name e.provider_event_id) g.keys) ≡ false)

is_fresh-IsFresh : (w : World) (o : Option String) → is_fresh w o ≡ true → IsFresh w o
unfolding is_fresh
is_fresh-IsFresh w none h = tt
is_fresh-IsFresh w (some header) h = elim (Option-cases (w.float header)) [
  | inl missing ↦ cc (rw (missing, is_fresh) at h)
  | inr (ts, there) ↦ (ts, there, is_near-IsNear w.now ts (rw (there, is_fresh) at h))
]

both : {b : Bool} (a : Bool) → (a && b) ≡ true → (a ≡ true) × (b ≡ true)
both true h = (refl, h)
both false h = cc

verify_signature-IsSigned :
    (w : World) (q : Delivery) (o : Option String) (time : Option String)
    → verify_signature w q.raw_body o q.secret time ≡ true
    → IsSigned w q o × IsFresh w time
unfolding verify_signature is_signed
verify_signature-IsSigned w q none time h = cc
verify_signature-IsSigned w q (some signature) time h =
    let (rest, signed) = both (truthy signature && is_fresh w time) h in
    let (full, recent) = both (truthy signature) rest in
    (
      ((eq_iff (w.hmac q.secret q.raw_body) signature).0 signed, not_empty signature full),
      is_fresh-IsFresh w time recent,
    )

new_key :
    (w : World) (key : String) (e : Event) (g : Gateway)
    → (deduplicate w key e g).0 ≡ enqueued
    → is_held w.now (lookup key g.keys) ≡ false
unfolding deduplicate
new_key w key e g h = elim (Bool-cases (is_held w.now (lookup key g.keys))) [
  | inr new ↦ new
  | inl there ↦ elim (Bool-cases (w.redis_answers g.uses)) [
    | inl up ↦ cc (rw (up, there) at h)
    | inr down ↦ cc (rw down at h)
  ]
]

accepted-IsNew :
    (w : World) (q : Delivery) (payload : Json) (o : Option Event) (g : Gateway)
    → w.loads q.raw_body ≡ some payload
    → q.normaliser q.connector_name payload ≡ o
    → (accept_event w q.connector_name o g).0 ≡ enqueued
    → IsNew w q g
unfolding accept_event
accepted-IsNew w q payload none g read known h = cc
accepted-IsNew w q payload (some e) g read known h =
    (payload, e, read, known, new_key w (dedup_key q.connector_name e.provider_event_id) e g h)

parsed-IsNew :
    (w : World) (q : Delivery) (o : Option Json) (g : Gateway)
    → w.loads q.raw_body ≡ o
    → (parse_body w q o g).0 ≡ enqueued
    → IsNew w q g
unfolding parse_body
parsed-IsNew w q none g read h = cc
parsed-IsNew w q (some payload) g read h =
    accepted-IsNew w q payload (q.normaliser q.connector_name payload) g read refl h

small_enough : (n : ℕ) → ltb max_body_bytes n ≡ false → n ≤ 1048576
small_enough n h = ground arith

-- An event is enqueued only from a body of at most 1048576 bytes, with a signature that is the HMAC of
-- the body under the secret and is not empty, and with no time, a time at most 300 seconds from now, or
-- one that `float` reads as not a number. The body is JSON that the normaliser turns into an event, and
-- the key of the event is not in Redis, or has expired.
pub process_webhook-enqueued :
    (w : World) (q : Delivery) (g : Gateway)
    → (process_webhook w q g).0 ≡ enqueued
    → (String.len q.raw_body ≤ 1048576)
      × IsSigned w q (signature_of q.headers)
      × IsFresh w (lookup "x-timestamp" q.headers)
      × IsNew w q g
unfolding process_webhook
process_webhook-enqueued w q g h = elim (Bool-cases (ltb max_body_bytes (String.len q.raw_body))) [
  | inl large ↦ cc (rw large at h)
  | inr small ↦
      elim (Bool-cases (
        verify_signature w q.raw_body (signature_of q.headers) q.secret
          (lookup "x-timestamp" q.headers))) [
            | inr bad ↦ cc (rw (small, bad) at h)
            | inl good ↦
                let (signed, recent) =
                  verify_signature-IsSigned w q (signature_of q.headers)
                    (lookup "x-timestamp" q.headers) good in
                (
                  small_enough (String.len q.raw_body) small,
                  signed,
                  recent,
                  parsed-IsNew w q (w.loads q.raw_body) g refl (rw (small, good) at h),
                )
          ]
]
