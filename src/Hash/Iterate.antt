-- ===== src/Hash/Iterate.antt =====
-- Iteration: `HASH_ItFirst` and `HASH_ItNext` lead through the whole table.
use zhangxy.Base.{
  ℕ, zero, suc, ◌+◌, ◌≤◌, ◌≡◌, refl, ap, ◌∙◌, List, [], ◌∷◌, ◌++◌, arith, length, take, drop,
  take_all, drop-drop,
}
use zhangxy.Hash.{Entry, HashTable, HashIterator, scan_rows, it_first, it_next}

-- The values of a chain, and of the rows in their order.
unfoldable pub chain_values : List Entry → List ℕ
chain_values [] = []
chain_values (e ∷ c) = e.value ∷ chain_values c

unfoldable pub all_values : List (List Entry) → List ℕ
unfolding chain_values
all_values [] = []
all_values (c ∷ cs) = chain_values c ++ all_values cs

-- The caller's loop `for (it = first; it; it = next) visit(HASH_ItThis(it))`, on fuel.
pub visit : ℕ → HashTable → HashIterator → List ℕ
visit zero ht it = []
visit (suc fuel) ht it = elim it.entry [ [] ↦ [] | e ∷ c ↦ e.value ∷ visit fuel ht (it_next ht it) ]

abbrev rows_of : HashTable → List (List Entry)
rows_of ht = take (ht.rows + 1) ht.table

abbrev at_entry : ℕ → List Entry → HashIterator
at_entry index chain = record { index = index; entry = chain }

-- From one entry on, on enough fuel.
abbrev Visits : ℕ → HashTable → Type 0
Visits fuel ht =
    (index : ℕ) (e : Entry) (c : List Entry)
    → let left = chain_values (e ∷ c) ++ all_values (drop (index + 1) (rows_of ht)) in
      length left ≤ fuel → visit fuel ht (at_entry index (e ∷ c)) ≡ left

drop-suc {ℓ} :
    {A : Type ℓ} (c : A) (cs xs : List A) (i : ℕ) → c ∷ cs ≡ drop i xs → cs ≡ drop (i + 1) xs
drop-suc c cs xs i h = ap (drop 1) h ∙ drop-drop 1 i (i + 1) xs (omega arith)

-- `scan_rows` skips the empty rows.
scan_rows-visit :
    (fuel : ℕ) (ht : HashTable) (index : ℕ) (cs : List (List Entry))
    → Visits fuel ht
    → cs ≡ drop index (rows_of ht)
    → length (all_values cs) ≤ fuel
    → visit fuel ht (scan_rows index cs) ≡ all_values cs
unfolding scan_rows all_values visit chain_values
scan_rows-visit zero ht index [] ih h k = refl
scan_rows-visit (suc fuel) ht index [] ih h k = refl
scan_rows-visit fuel ht index ([] ∷ cs) ih h k =
    scan_rows-visit fuel ht (index + 1) cs ih (drop-suc [] cs (rows_of ht) index h) k
scan_rows-visit fuel ht index ((e ∷ c) ∷ cs) ih h k =
    let tail = drop-suc (e ∷ c) cs (rows_of ht) index h in rw tail (ih index e c (rw (← tail) k))

visit-Visits : (fuel : ℕ) (ht : HashTable) → Visits fuel ht
unfolding visit it_next chain_values
visit-Visits zero ht index e c k = absurd (omega arith)
visit-Visits (suc fuel) ht index e [] k = ap (◌∷◌ e.value) (
    scan_rows-visit fuel ht (index + 1) (drop (index + 1) (rows_of ht)) (visit-Visits fuel ht) refl
      (omega arith))
visit-Visits (suc fuel) ht index e (e' ∷ c) k =
    ap (◌∷◌ e.value) (visit-Visits fuel ht index e' c (omega arith))

-- A caller that goes from `HASH_ItFirst` by `HASH_ItNext` until NULL sees the value of each entry of
-- the table exactly once, row by row, if the table has a row for each value of its mask.
pub visit_lem :
    (ht : HashTable) (fuel : ℕ)
    → length ht.table ≡ ht.rows + 1
    → length (all_values ht.table) ≤ fuel
    → visit fuel ht (it_first ht) ≡ all_values ht.table
unfolding it_first
visit_lem ht fuel sized enough =
    let whole : rows_of ht ≡ ht.table = take_all (ht.rows + 1) ht.table (omega arith) in
    scan_rows-visit fuel ht 0 (rows_of ht) (visit-Visits fuel ht) refl (rw whole enough)
    ∙ ap all_values whole
