-- ===== src/Qc/Privilege/Blocking.antt =====
-- Packets that carry a restricted document out of their matter.
use case_automation_mcp.Common.{
  String, Bool, true, false, not, ◌≡◌, ◌≢◌, refl, ap, ◌⊎◌, inl, inr, Option, none, some, List, [],
  ◌∷◌, keep, Any, In, Bool-cases, Dict, lookup, values, any, ◌||◌, ◌==◌, ne→==-false,
}
use mathlib.Core.Option.{some_inj}
use case_automation_mcp.Qc.Types.{VerificationPacket, Check, fail, block}
use case_automation_mcp.Qc.Registry.{applies, run_checks, settle_check}
use case_automation_mcp.Qc.Registry.Sorting.{In-sort_by_id}
use case_automation_mcp.Qc.Registry.Aggregation.{fail-settle_check, aggregate-fails}
use case_automation_mcp.Qc.Privilege.{
  RestrictionPolicy, privilege_check, privilege_result, has_restricted, effective_external,
  has_unknown_recipient, is_participant,
}

-- the recipient is not the client of the matter
abbrev pub Outsider : VerificationPacket → String → Type 0
Outsider p r = p.matter.client ≢ some r

-- A restricted document, and a recipient outside the matter or a claim that the packet leaves it.
pub record Leaks (p : VerificationPacket) : Type 0 where
  pub restricted : Any (λ d. d.restricted ≡ true) p.documents
  pub leaves : (p.external_bound ≡ true) ⊎ Any (Outsider p) p.intended_recipients

any-true : {A : Type 0} (t : A → Bool) (l : List A) → Any (λ x. t x ≡ true) l → any t l ≡ true
any-true t [] m = absurd m
any-true t (x ∷ l) (inl e) = rw e
any-true t (x ∷ l) (inr m) = elim (Bool-cases (t x)) [
  | inl yes_ ↦ rw yes_
  | inr no_ ↦ rw no_ (any-true t l m)
]

is_participant-outsider :
    (c : Option String) (r : String) → c ≢ some r → not (is_participant c r) ≡ true
is_participant-outsider none r h = refl
is_participant-outsider (some c) r h = rw (ne→==-false c r (λ e. h (ap some e)))

Any-outsiders :
    (p : VerificationPacket) (l : List String)
    → Any (Outsider p) l
    → Any (λ r. not (is_participant p.matter.client r) ≡ true) l
Any-outsiders p [] m = absurd m
Any-outsiders p (r ∷ l) (inl o) = inl (is_participant-outsider p.matter.client r o)
Any-outsiders p (r ∷ l) (inr m) = inr (Any-outsiders p l m)

restricts : (p : VerificationPacket) → Leaks p → has_restricted p ≡ true
unfolding has_restricted
restricts p leak = any-true (λ d. d.restricted) p.documents leak.restricted

leaves_matter : (p : VerificationPacket) → Leaks p → effective_external p ≡ true
unfolding effective_external has_unknown_recipient
leaves_matter p leak = from leak.leaves
  where
    or-right : (b c : Bool) → c ≡ true → (b || c) ≡ true
    or-right true c h = refl
    or-right false c h = h

    from :
        (p.external_bound ≡ true) ⊎ Any (Outsider p) p.intended_recipients
        → (p.external_bound
            || any (λ r. not (is_participant p.matter.client r)) p.intended_recipients)
          ≡ true
    from (inl claim) = rw claim
    from (inr m) = or-right p.external_bound _ (
        any-true (λ r. not (is_participant p.matter.client r)) p.intended_recipients
          (Any-outsiders p p.intended_recipients m))

In-values : {A : Type 0} (k : String) (a : A) (d : Dict A) → lookup k d ≡ some a → In a (values d)
unfolding lookup values
In-values k a [] h = cc
In-values k a ((j, b) ∷ d) h = elim (Bool-cases (j == k)) [
  | inl here ↦ inl (some_inj.0 (rw here at h))
  | inr further ↦ inr (In-values k a d (rw further at h))
]

In-keep : {A : Type 0} (p : A → Bool) (a : A) (l : List A) → p a ≡ true → In a l → In a (keep p l)
In-keep p a [] h m = absurd m
In-keep p a (b ∷ l) h (inl e) = rw (e, h) (inl refl)
In-keep p a (b ∷ l) h (inr m) = elim (Bool-cases (p b)) [
  | inl kept ↦ rw kept (inr (In-keep p a l h m))
  | inr dropped ↦ rw dropped (In-keep p a l h m)
]

applies-privilege :
    (policy : Option RestrictionPolicy) (kind : String)
    → applies (privilege_check policy).applies_to kind ≡ true
unfolding privilege_check
applies-privilege policy kind = refl

fails-privilege :
    (policy : Option RestrictionPolicy) (p : VerificationPacket)
    → Leaks p
    → (settle_check (privilege_check policy) ((privilege_check policy).run p)).verdict ≡ fail
unfolding privilege_check
fails-privilege policy p leak =
    fail-settle_check (privilege_check policy) (privilege_result policy p)
      (unfold privilege_result in rw (restricts p leak, leaves_matter p leak) refl)

-- Where the privilege check is registered, a run of all checks on a packet with a restricted
-- document and a recipient outside the matter, or a claim that it leaves it, blocks the packet,
-- whatever the other checks answer.
pub run_checks-Leaks :
    (policy : Option RestrictionPolicy) (p : VerificationPacket) (r : Dict Check)
    → lookup "privilege" r ≡ some (privilege_check policy)
    → Leaks p
    → (run_checks p none r).aggregate ≡ block
run_checks-Leaks policy p r registered leak =
    aggregate-fails p r (privilege_check policy)
      (In-sort_by_id (privilege_check policy) _ (
        In-keep (λ c. applies c.applies_to p.kind) (privilege_check policy) (values r)
          (applies-privilege policy p.kind)
          (In-values "privilege" (privilege_check policy) r registered)))
      (fails-privilege policy p leak)
