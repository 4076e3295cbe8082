-- ===== src/Qc/Registry/Sorting.antt =====
-- Sorting the checks by id.
use Prim.Native.String.{compare}
use case_automation_mcp.Common.{◌≡◌, ◌⊎◌, inl, inr, List, [], ◌∷◌, In, Bool-cases}
use case_automation_mcp.Qc.Types.{Check}
use case_automation_mcp.Qc.Registry.{insert_sorted, sort_by_id, after}

In-insert_sorted : (c d : Check) (l : List Check) → (d ≡ c) ⊎ In c l → In c (insert_sorted d l)
unfolding insert_sorted
In-insert_sorted c d [] m = m
In-insert_sorted c d (b ∷ l) m = elim (Bool-cases (after (compare d.id b.id))) [
  | inl later ↦ rw later (place m (In-insert_sorted c d l))
  | inr first ↦ rw first m
]
  where
    place :
        (d ≡ c) ⊎ ((b ≡ c) ⊎ In c l)
        → ((d ≡ c) ⊎ In c l → In c (insert_sorted d l))
        → (b ≡ c) ⊎ In c (insert_sorted d l)
    place (inl e) f = inr (f (inl e))
    place (inr (inl q)) f = inl q
    place (inr (inr m)) f = inr (f (inr m))

pub In-sort_by_id : (c : Check) (l : List Check) → In c l → In c (sort_by_id l)
unfolding sort_by_id
In-sort_by_id c [] m = m
In-sort_by_id c (d ∷ l) (inl e) = In-insert_sorted c d (sort_by_id l) (inl e)
In-sort_by_id c (d ∷ l) (inr m) = In-insert_sorted c d (sort_by_id l) (inr (In-sort_by_id c l m))
