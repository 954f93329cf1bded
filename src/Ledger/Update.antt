-- ===== src/Ledger/Update.antt =====
-- One SQL statement on the rows of the table.
use test_defense_validation.Base.{ℕ, ◌+◌, Option, none, some, List, [], ◌∷◌}
use test_defense_validation.Ledger.Row.{Row}

abbrev pub Table : Type 0
Table = List Row

abbrev pub changed : Row → Option Row → Row
changed r none = r
changed r (some q) = q

-- UPDATE: `f` is the WHERE clause and the SET clause of one row. The second part is RowsAffected.
unfoldable pub update : (Row → Option Row) → Table → Table × ℕ
update f [] = ([], 0)
update f (r ∷ rs) =
    let (rest, n) = update f rs in elim (f r) [ none ↦ (r ∷ rest, n) | some q ↦ (q ∷ rest, n + 1) ]
