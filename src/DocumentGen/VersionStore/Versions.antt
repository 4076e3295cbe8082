-- ===== src/DocumentGen/VersionStore/Versions.antt =====
-- The versions that are given out.
use case_automation_mcp.Common.{
  ℕ, ◌+◌, ◌≤◌, ◌<◌, max, String, true, ◌≡◌, refl, sym, ◌∙◌, inl, inr, List, [], ◌∷◌, lookup,
  Outcome, ok, err, continue, arith, eq_iff, if◌then◌else◌, Bool-cases, Option-cases, subst,
}
use case_automation_mcp.DocumentGen.VersionStore.{
  Document, Key, same_key, Ledger, StoreError, Storing, World, Request, latest, next_version,
  lookup_idem, record_idem, collides, put, store_new, store_document,
}

-- the highest version of a key in the calls of `put`
unfoldable pub newest : Key → List (Key × ℕ) → ℕ
newest k [] = 0
newest k ((j, n) ∷ l) = let rest = newest k l in if same_key j k then max n rest else rest

-- every call has a version above those of the earlier calls for its key
abbrev pub Descending : List (Key × ℕ) → Type 0
Descending [] = Unit
Descending ((k, n) ∷ l) = (newest k l < n) × Descending l

-- every version that was used is counted
Counted : Ledger → Type 0
Counted g = Descending g.puts × ((k : Key) → newest k g.puts ≤ latest k g.versions)

same_key-eq : (a b : Key) → same_key a b ≡ true → a ≡ b
unfolding same_key
same_key-eq a b h =
    let matter : a.matter_id ≡ b.matter_id = ground (arith, eq_iff a.matter_id b.matter_id) in
    let name : a.template_name ≡ b.template_name =
      ground (arith, eq_iff a.template_name b.template_name) in
    let key : a.doc_key ≡ b.doc_key = ground (arith, eq_iff a.doc_key b.doc_key) in
    λ i. record { matter_id = matter i; template_name = name i; doc_key = key i }

record_idem_log :
    (key : String) (d : Document) (c : String) (g : Ledger)
    → ((record_idem key d c g).1.puts ≡ g.puts) × ((record_idem key d c g).1.versions ≡ g.versions)
unfolding record_idem
record_idem_log key d c g = elim (Bool-cases (collides c (lookup key g.idem_checksums))) [
  | inl bad ↦ rw bad (refl, refl)
  | inr good ↦ rw good (refl, refl)
]

-- both logs of a result
abbrev Logs :
    {A : Type 0} → List (Key × ℕ) → List (Key × ℕ) → Outcome StoreError A × Ledger → Type 0
Logs puts versions p = (p.1.puts ≡ puts) × (p.1.versions ≡ versions)

continue-Logs :
    {A B : Type 0} {puts versions : List (Key × ℕ)} (p : Outcome StoreError A × Ledger)
    (f : A → Storing B)
    → Logs puts versions p
    → ((a : A) (h : Ledger) → Logs puts versions (ok a, h) → Logs puts versions (f a h))
    → Logs puts versions (continue p.0 f p.1)
continue-Logs (ok a, h) f l k = k a h l
continue-Logs (err e, h) f l k = l

record_idem-Logs :
    {puts versions : List (Key × ℕ)} (key : String) (d : Document) (c : String) (g : Ledger)
    → g.puts ≡ puts
    → g.versions ≡ versions
    → Logs puts versions (record_idem key d c g)
record_idem-Logs key d c g p v =
    ((record_idem_log key d c g).0 ∙ p, (record_idem_log key d c g).1 ∙ v)

-- what a new document adds to both logs
store_new-Logs :
    (w : World) (q : Request) (g : Ledger)
    → Logs
        ((q.key, latest q.key g.versions + 1) ∷ g.puts)
        ((q.key, latest q.key g.versions + 1) ∷ g.versions)
        (store_new w q g)
unfolding store_new next_version put
store_new-Logs w q g =
    continue-Logs (put w q (latest q.key g.versions + 1) (next_version q.key g).1) _ (refl, refl)
      (λ d h l.
        continue-Logs (record_idem q.idem_key d q.checksum h) _
          (record_idem-Logs q.idem_key d q.checksum h l.0 l.1) (λ u y m. m))

store_new-Counted : (w : World) (q : Request) (g : Ledger) → Counted g → Counted (store_new w q g).1
unfolding Counted newest latest
store_new-Counted w q g h =
    let (puts, versions) = store_new-Logs w q g in
    (rw puts (omega (arith, h.1 q.key), h.0), λ k. rw (puts, versions) (counted k))
  where
    counted :
        (k : Key)
        → newest k ((q.key, latest q.key g.versions + 1) ∷ g.puts)
          ≤ latest k ((q.key, latest q.key g.versions + 1) ∷ g.versions)
    counted k = elim (Bool-cases (same_key q.key k)) [
      | inl same ↦
          let e = same_key-eq q.key k same in
          let below : newest k g.puts ≤ latest q.key g.versions =
            subst (λ j. newest k g.puts ≤ latest j g.versions) (sym e) (h.1 k) in
          rw same (ground (arith, below))
      | inr other ↦ rw other (h.1 k)
    ]

store_document-Counted :
    (w : World) (q : Request) (g : Ledger) → Counted g → Counted (store_document w q g).1
unfolding store_document
store_document-Counted w q g h = elim (Option-cases (lookup_idem q.idem_key g)) [
  | inl new ↦ rw new (store_new-Counted w q g h)
  | inr (d, there) ↦ rw there h
]

-- requests to one ledger, with the docstore as it is at each of them
pub data Calls : Ledger → Ledger → Type 0 where
  start : {a : Ledger} → Calls a a
  store : {a b : Ledger} (w : World) (q : Request) → Calls a b → Calls a (store_document w q b).1

Calls-Counted : {a b : Ledger} → Calls a b → Counted a → Counted b
Calls-Counted start h = h
Calls-Counted (store {a} {b} w q calls) h = store_document-Counted w q b (Calls-Counted calls h)

-- From a ledger for which the docstore was not called yet, any requests, with whatever failures of the
-- docstore, give each call of `put` a version above those of the earlier calls for its matter, template
-- and document key.
pub store_document-Descending : (a b : Ledger) → a.puts ≡ [] → Calls a b → Descending b.puts
unfolding Counted newest
store_document-Descending a b none_yet calls =
    (Calls-Counted calls (rw none_yet (tt, λ k. omega arith))).0
