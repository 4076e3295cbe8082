-- ===== src/Audit/Chain.antt =====
-- The chain of hashes that `verify` recomputes, and what `record` adds to it.
use case_automation_mcp.Common.{
  ℕ, String, ◌≡◌, refl, sym, ap, ◌↔◌, none, List, [], ◌∷◌, ◌++◌, arith, eq_iff,
}
use case_automation_mcp.Audit.{
  Hashing, Entry, Row, Log, intact, genesis_hash, last, latest_hash, new_row, record_entry,
  get_range, expected_hash, check_rows, verify,
}

-- Each row holds the hash of the one before it, and its own hash.
unfoldable pub Chained : Hashing → String → List Row → Type 0
Chained h prev [] = Unit
Chained h prev (r ∷ rows) =
    (r.prev_hash ≡ prev) × (r.record_hash ≡ expected_hash h r) × Chained h r.record_hash rows

check_rows_iff :
    (h : Hashing) (prev : String) (rows : List Row)
    → (check_rows h prev rows ≡ intact) ↔ Chained h prev rows
unfolding check_rows Chained
check_rows_iff h prev [] = (λ _. tt, λ _. refl)
check_rows_iff h prev (r ∷ rows) =
    let (to, from) = check_rows_iff h r.record_hash rows in
    (
      λ e. ground (arith, eq_iff r.prev_hash prev, eq_iff r.record_hash (expected_hash h r), to),
      λ c. ground (arith, eq_iff r.prev_hash prev, eq_iff r.record_hash (expected_hash h r), from),
    )

get_range-all : (rows : List Row) → get_range none none rows ≡ rows
unfolding get_range
get_range-all [] = refl
get_range-all (r ∷ rows) = ap (λ l. r ∷ l) (get_range-all rows)

-- `verify` of the whole log answers that it is intact exactly when the log is chained from the
-- genesis hash.
pub verify_iff :
    (h : Hashing) (log : Log) → (verify h none none log ≡ intact) ↔ Chained h genesis_hash log.rows
unfolding verify
verify_iff h log = rw get_range-all (check_rows_iff h genesis_hash log.rows)

-- the hash that the next row is to hold
unfoldable pub end_hash : String → List Row → String
end_hash prev [] = prev
end_hash prev (r ∷ rows) = end_hash r.record_hash rows

pub end_hash-latest : (rows : List Row) → end_hash genesis_hash rows ≡ latest_hash (last rows)
unfolding end_hash
end_hash-latest [] = refl
end_hash-latest (r ∷ rows) = later r rows
  where
    later :
        (r : Row) (rows : List Row) → end_hash r.record_hash rows ≡ latest_hash (last (r ∷ rows))
    later r [] = refl
    later r (s ∷ rows) = later s rows

Chained-append :
    (h : Hashing) (prev : String) (rows : List Row) (r : Row)
    → Chained h prev rows
    → r.prev_hash ≡ end_hash prev rows
    → r.record_hash ≡ expected_hash h r
    → Chained h prev (rows ++ r ∷ [])
unfolding Chained end_hash
Chained-append h prev [] r c p e = (p, e, tt)
Chained-append h prev (s ∷ rows) r (p', e', c) p e =
    (p', e', Chained-append h s.record_hash rows r c p e)

-- A log that verifies still does after an entry is recorded.
pub verify-record_entry :
    (h : Hashing) (now : ℕ) (e : Entry) (log : Log)
    → verify h none none log ≡ intact
    → verify h none none (record_entry h now e log).1 ≡ intact
verify-record_entry h now e log good = (verify_iff h (record_entry h now e log).1).1 (
    unfold record_entry in
    Chained-append h genesis_hash log.rows (new_row h now e log) ((verify_iff h log).0 good)
      (unfold new_row in sym (end_hash-latest log.rows))
      (unfold new_row in unfold expected_hash in refl))
