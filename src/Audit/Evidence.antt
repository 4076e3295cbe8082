-- ===== src/Audit/Evidence.antt =====
-- What two logs with the same last hash have in common.
use Prim.Native.String
use case_automation_mcp.Common.{
  Option, some, refl, String, ◌≡◌, sym, ◌∙◌, List, [], ◌∷◌, All, length, arith, none,
}
use case_automation_mcp.Json.{Json}
use case_automation_mcp.Audit.{
  record_body, compute_hash, optional_text, Hashing, Row, Log, genesis_hash, expected_hash, verify,
  intact, last, latest_hash,
}
use case_automation_mcp.Audit.Chain.{Chained, verify_iff, end_hash, end_hash-latest}

-- the hashed fields of two rows
pub record SameFields (r s : Row) : Type 0 where
  pub entry : r.entry ≡ s.entry
  pub timestamp : r.timestamp ≡ s.timestamp
  pub prev_hash : r.prev_hash ≡ s.prev_hash

-- the dict that is hashed for a row
unfoldable pub body_of : Hashing → Row → Json
body_of h r = record_body h r.entry r.timestamp r.prev_hash

-- SHA-256 tells apart what is hashed for the two rows, and `isoformat` their times
unfoldable pub Apart : Hashing → Row → Row → Type 0
Apart h r s =
    (h.sha256 (String.◌++◌ r.prev_hash (h.canonical (body_of h r)))
        ≡ h.sha256 (String.◌++◌ s.prev_hash (h.canonical (body_of h s)))
      → body_of h r ≡ body_of h s)
    × (h.isoformat r.timestamp ≡ h.isoformat s.timestamp → r.timestamp ≡ s.timestamp)

-- so it is for all rows of the logs, one of each
unfoldable pub NoCollision : Hashing → List Row → List Row → Type 0
NoCollision h a b = All (λ r. All (λ s. Apart h r s) b) a

optional_text-inj : (a b : Option String) → optional_text a ≡ optional_text b → a ≡ b
optional_text-inj none none e = refl
optional_text-inj none (some t) e = cc
optional_text-inj (some s) none e = cc
optional_text-inj (some s) (some t) e = cc

-- every field of an entry is in the dict
SameFields-body :
    (h : Hashing) (r s : Row)
    → (h.isoformat r.timestamp ≡ h.isoformat s.timestamp → r.timestamp ≡ s.timestamp)
    → body_of h r ≡ body_of h s
    → SameFields r s
unfolding body_of record_body
SameFields-body h r s times e =
    let actor : r.entry.actor ≡ s.entry.actor = cc in
    let action : r.entry.action ≡ s.entry.action = cc in
    let inputs : r.entry.inputs ≡ s.entry.inputs = cc in
    let outputs : r.entry.outputs ≡ s.entry.outputs = cc in
    let approval : r.entry.approval ≡ s.entry.approval = cc in
    let when : h.isoformat r.timestamp ≡ h.isoformat s.timestamp = cc in
    let run : optional_text r.entry.run_id ≡ optional_text s.entry.run_id = cc in
    let prev : r.prev_hash ≡ s.prev_hash = cc in
    let run_id = optional_text-inj r.entry.run_id s.entry.run_id run in
    record {
      entry = λ i. record {
        actor = actor i;
        action = action i;
        inputs = inputs i;
        outputs = outputs i;
        approval = approval i;
        run_id = run_id i;
      };
      timestamp = times when;
      prev_hash = prev;
    }

SameFields-hash :
    (h : Hashing) (r s : Row) → Apart h r s → expected_hash h r ≡ expected_hash h s → SameFields r s
unfolding Apart expected_hash compute_hash body_of
SameFields-hash h r s apart e = SameFields-body h r s apart.1 (apart.0 e)

pub SameHistory : List Row → List Row → Type 0
SameHistory [] [] = Unit
SameHistory [] (s ∷ b) = ⊥
SameHistory (r ∷ a) [] = ⊥
SameHistory (r ∷ a) (s ∷ b) = SameFields r s × SameHistory a b

NoCollision-tail :
    (h : Hashing) (s : Row) (a b : List Row) → NoCollision h a (s ∷ b) → NoCollision h a b
unfolding NoCollision
NoCollision-tail h s [] b n = tt
NoCollision-tail h s (r ∷ a) b n = (n.0.1, NoCollision-tail h s a b n.1)

SameHistory-Chained :
    (h : Hashing) (p q : String) (a b : List Row)
    → length a ≡ length b
    → Chained h p a
    → Chained h q b
    → end_hash p a ≡ end_hash q b
    → NoCollision h a b
    → SameHistory a b × (p ≡ q)
unfolding SameHistory Chained NoCollision end_hash
SameHistory-Chained h p q [] [] l c d e n = (tt, e)
SameHistory-Chained h p q [] (s ∷ b) l c d e n = ground arith
SameHistory-Chained h p q (r ∷ a) [] l c d e n = ground arith
SameHistory-Chained h p q (r ∷ a) (s ∷ b) l (pr, hr, c) (ps, hs, d) e (n, n') =
    let (same, hashes) =
      SameHistory-Chained h r.record_hash s.record_hash a b (omega arith) c d e
        (NoCollision-tail h s a b n') in
    let fields = SameFields-hash h r s n.0 (sym hr ∙ hashes ∙ hs) in
    ((fields, same), sym pr ∙ fields.prev_hash ∙ ps)

-- Two logs of the same length that both verify and whose latest hashes are the same have the same
-- entries at the same times, row by row, unless SHA-256 gives the different dicts of two of their
-- rows the same digest, or `isoformat` two of their times the same text.
pub verify-SameHistory :
    (h : Hashing) (a b : Log)
    → verify h none none a ≡ intact
    → verify h none none b ≡ intact
    → length a.rows ≡ length b.rows
    → latest_hash (last a.rows) ≡ latest_hash (last b.rows)
    → NoCollision h a.rows b.rows
    → SameHistory a.rows b.rows
verify-SameHistory h a b va vb l e n =
    (SameHistory-Chained h genesis_hash genesis_hash a.rows b.rows l ((verify_iff h a).0 va)
      ((verify_iff h b).0 vb) (end_hash-latest a.rows ∙ e ∙ sym (end_hash-latest b.rows)) n).0
