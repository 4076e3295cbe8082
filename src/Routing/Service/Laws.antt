-- ===== src/Routing/Service/Laws.antt =====
-- What one call of the routing service does to the store, on each of its branches.
use case_automation_mcp.Common.{
  String, true, false, ◌≡◌, refl, ◌∙◌, inl, inr, none, some, Dict, lookup, insert, dict_laws,
  lookup-insert, eq_refl, eq_iff, Bool-cases, Option-cases, ◌==◌,
}
use case_automation_mcp.Routing.Types.{
  RouteOutcome, blocked, queued, dry_run_only, duplicate, RoutingDecision,
}
use case_automation_mcp.Routing.Config.{RoutingConfig}
use case_automation_mcp.Routing.Classifier.{Classification, classify}
use case_automation_mcp.Routing.PrivilegeGate.{is_fail}
use case_automation_mcp.Routing.Service.{
  World, Service, Request, route, answer, dispatch, settle, decide, destination_of, verdict_of,
  is_review, file_document, move, the_move, derive_idem_key, decision_to_result, write_audit, save,
}

-- a new key leaves what is under the others
pub insert_other {ℓ} :
    {V : Type ℓ} (k j : String) (v : V) (l : Dict V) {u : V}
    → lookup j l ≡ some u
    → lookup k l ≡ none
    → lookup j (insert k v l) ≡ some u
insert_other k j v l h n = rw (lookup-insert k j v l) elim (Bool-cases (k == j)) [
  | inl same ↦ let e = (eq_iff k j).0 same in cc
  | inr other ↦ rw other h
]

pub write_audit_same :
    (d : RoutingDecision) (o : RouteOutcome) (s : Service)
    → ((write_audit d o s).decisions ≡ s.decisions) × ((write_audit d o s).moves ≡ s.moves)
unfolding write_audit
write_audit_same d o s = elim (Option-cases s.audits) [
  | inl e ↦ rw e (refl, refl)
  | inr (calls, e) ↦ rw e (refl, refl)
]

pub route-known :
    (w : World) (cfg : RoutingConfig) (q : Request) (s : Service) (d : RoutingDecision)
    → lookup (derive_idem_key w cfg q) s.decisions ≡ some d
    → route w cfg q s
      ≡ (decision_to_result d duplicate (derive_idem_key w cfg q), write_audit d duplicate s)
unfolding route answer
route-known w cfg q s d h = rw (h, answer) refl

pub route-new :
    (w : World) (cfg : RoutingConfig) (q : Request) (s : Service)
    → lookup (derive_idem_key w cfg q) s.decisions ≡ none
    → route w cfg q s ≡ dispatch w cfg q (classify w.lower q.document q.extraction_fields cfg) s
unfolding route answer
route-new w cfg q s h = rw (h, answer) refl

-- the branches of a request that is new, with the outcome and the state that is saved to
pub data Branch (w : World) (cfg : RoutingConfig) (q : Request) (c : Classification) (s : Service)
    : RouteOutcome → Service → Type 0 where
  stopped : is_fail (verdict_of q (destination_of cfg q c)) ≡ true → Branch w cfg q c s blocked s
  reviewed : is_review (destination_of cfg q c).kind ≡ true → Branch w cfg q c s queued s
  rehearsed : q.options.dry_run ≡ true → Branch w cfg q c s dry_run_only s
  filed :
      is_fail (verdict_of q (destination_of cfg q c)) ≡ false
      → Branch w cfg q c s (move w (the_move w cfg q c) s).0 (move w (the_move w cfg q c) s).1

pub dispatch-Branch :
    (w : World) (cfg : RoutingConfig) (q : Request) (c : Classification) (s : Service)
    → (o : RouteOutcome) × (t : Service) × Branch w cfg q c s o t
      × (dispatch w cfg q c s ≡ settle (decide w cfg q c o) t)
unfolding dispatch file_document
dispatch-Branch w cfg q c s = elim (Bool-cases (is_fail (verdict_of q (destination_of cfg q c)))) [
  | inl h ↦ (blocked, s, stopped h, rw h refl)
  | inr pass ↦ elim (Bool-cases (is_review (destination_of cfg q c).kind)) [
    | inl h ↦ (queued, s, reviewed h, rw (pass, h) refl)
    | inr folder ↦ elim (Bool-cases q.options.dry_run) [
      | inl h ↦ (dry_run_only, s, rehearsed h, rw (pass, folder, h) refl)
      | inr real ↦ (
        (move w (the_move w cfg q c) s).0,
        (move w (the_move w cfg q c) s).1,
        filed pass,
        rw (pass, folder, real) refl,
      )
    ]
  ]
]

pub Branch-decisions :
    {w : World} {cfg : RoutingConfig} {q : Request} {c : Classification} {s t : Service}
    {o : RouteOutcome}
    → Branch w cfg q c s o t
    → t.decisions ≡ s.decisions
unfolding move
Branch-decisions (stopped h) = refl
Branch-decisions (reviewed h) = refl
Branch-decisions (rehearsed h) = refl
Branch-decisions (filed h) = refl

pub settle_state :
    (d : RoutingDecision) (s : Service)
    → ((settle d s).1.decisions ≡ insert d.idempotency_key d s.decisions)
      × ((settle d s).1.moves ≡ s.moves)
unfolding settle save
settle_state d s = write_audit_same d d.outcome (save d s)

-- a new request is decided, and the decision saved
pub route-Branch :
    (w : World) (cfg : RoutingConfig) (q : Request) (s : Service)
    → lookup (derive_idem_key w cfg q) s.decisions ≡ none
    → (o : RouteOutcome) × (t : Service) × Branch w cfg q
        (classify w.lower q.document q.extraction_fields cfg)
        s
        o
        t
      × (route w cfg q s
          ≡ settle (decide w cfg q (classify w.lower q.document q.extraction_fields cfg) o) t)
route-Branch w cfg q s h =
    let (o, t, b, e) =
      dispatch-Branch w cfg q (classify w.lower q.document q.extraction_fields cfg) s in
    (o, t, b, route-new w cfg q s h ∙ e)

-- the decision that a call leaves under its key, and what the call returns of it
pub route-saves :
    (w : World) (cfg : RoutingConfig) (q : Request) (s : Service)
    → (d : RoutingDecision) × (o : RouteOutcome) × (lookup
          (derive_idem_key w cfg q)
          (route w cfg q s).1.decisions
        ≡ some d)
      × ((route w cfg q s).0 ≡ decision_to_result d o (derive_idem_key w cfg q))
unfolding decide settle
route-saves w cfg q s = elim (Option-cases (lookup (derive_idem_key w cfg q) s.decisions)) [
  | inr (d, h) ↦ (
    d,
    duplicate,
    rw (route-known w cfg q s d h, (write_audit_same d duplicate s).0) h,
    rw (route-known w cfg q s d h) refl,
  )
  | inl h ↦
      let (o, t, b, e) = route-Branch w cfg q s h in
      let d = decide w cfg q (classify w.lower q.document q.extraction_fields cfg) o in
      (
        d,
        o,
        rw (e, (settle_state d t).0) simp (dict_laws, eq_refl (derive_idem_key w cfg q)),
        rw e refl,
      )
]

-- a decision that is there stays as it is
pub route-keeps :
    (w : World) (cfg : RoutingConfig) (q : Request) (s : Service) (k : String) (d : RoutingDecision)
    → lookup k s.decisions ≡ some d
    → lookup k (route w cfg q s).1.decisions ≡ some d
unfolding decide
route-keeps w cfg q s k d h = elim (Option-cases (lookup (derive_idem_key w cfg q) s.decisions)) [
  | inr (d', h') ↦ rw (route-known w cfg q s d' h', (write_audit_same d' duplicate s).0) h
  | inl h' ↦
      let (o, t, b, e) = route-Branch w cfg q s h' in
      let d' = decide w cfg q (classify w.lower q.document q.extraction_fields cfg) o in
      rw (e, (settle_state d' t).0, Branch-decisions b) (insert_other _ _ d' s.decisions h h')
]
