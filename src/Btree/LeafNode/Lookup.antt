-- ===== src/Btree/LeafNode/Lookup.antt =====
-- `leaf_lookup` reads a leaf with ascending keys as a finite map.
use mini_sql.Base.{
  ℕ, suc, ◌+◌, ◌-◌, ◌<◌, ◌≡◌, ◌≢◌, ◌⊎◌, inl, inr, arith, none, some, ltb, ◌==◌, ◌&&◌, Bool-cases,
}
use mini_sql.Btree.{Cell, Leaf, leaf_node_find_cell}
use mini_sql.Btree.Search.{IsAscending, Splits, leaf_keys, find_cell-Splits}
use mini_sql.Btree.Cells.{insert_at, remove_at}
use mini_sql.Btree.LeafNode.{leaf_lookup}

-- A leaf whose keys ascend, of a size that the search can index.
pub record IsSorted (node : Leaf) : Type 0 where
  pub ascends : IsAscending (leaf_keys node) node.num_cells
  pub small : node.num_cells < 2147483648

-- No cell of the leaf has the key.
abbrev pub Absent : Leaf → ℕ → Type 0
Absent node key = (i : ℕ) → i < node.num_cells → (node.cells i).key ≢ key

pub Splits-index :
    {keys : ℕ → ℕ} {n : ℕ} {key r : ℕ} (i : ℕ)
    → IsAscending keys n
    → Splits keys n key r
    → i < n
    → keys i ≡ key
    → r ≡ i
Splits-index {r = r} i asc s h e = ground (arith, s.below i, s.above r, asc r i)

pub lookup_hit :
    (node : Leaf) (key i : ℕ)
    → IsSorted node
    → i < node.num_cells
    → (node.cells i).key ≡ key
    → leaf_lookup node key ≡ some (node.cells i).value
unfolding leaf_lookup
lookup_hit node key i s h e =
    rw (Splits-index i s.ascends (find_cell-Splits node key s.ascends s.small) h e) (ground arith)

pub lookup_miss : (node : Leaf) (key : ℕ) → Absent node key → leaf_lookup node key ≡ none
unfolding leaf_lookup
lookup_miss node key absent = ground (arith, absent (leaf_node_find_cell node key))

-- A key stands in one cell or in none.
pub Absent-cases :
    (node : Leaf) (key : ℕ)
    → IsSorted node
    → ((i : ℕ) × (i < node.num_cells) × ((node.cells i).key ≡ key)) ⊎ Absent node key
Absent-cases node key s = elim (Bool-cases (ltb r node.num_cells && ((node.cells r).key == key))) [
  | inl here ↦ inl (r, ground arith, ground arith)
  | inr not_here ↦
      inr (λ i h e. let same : r ≡ i = Splits-index i s.ascends split h e in ground arith)
]
  where
    r : ℕ
    r = leaf_node_find_cell node key

    split : Splits (leaf_keys node) node.num_cells key r
    split = find_cell-Splits node key s.ascends s.small

pub IsAscending-ext :
    {f g : ℕ → ℕ} (n : ℕ) → ((j : ℕ) → j < n → f j ≡ g j) → IsAscending g n → IsAscending f n
IsAscending-ext n same asc i j l h = grind (arith, same i, same j, asc i j)

-- Putting a cell in where its key belongs keeps the keys ascending.
pub insert_at-IsAscending :
    (a : ℕ → Cell) (n r : ℕ) (c : Cell)
    → IsAscending (λ i. (a i).key) n
    → Splits (λ i. (a i).key) n c.key r
    → ((i : ℕ) → i < n → (a i).key ≢ c.key)
    → IsAscending (λ i. (insert_at a r c i).key) (suc n)
unfolding insert_at
insert_at-IsAscending a n r c asc s absent i j l h = ground (
  arith,
  s.below i,
  s.above (j - 1),
  absent (j - 1),
  asc i j,
  asc i (j - 1),
  asc (i - 1) (j - 1),
  s.within,
)

pub remove_at-IsAscending :
    (a : ℕ → Cell) (n k : ℕ)
    → IsAscending (λ i. (a i).key) n
    → IsAscending (λ i. (remove_at a k i).key) (n - 1)
unfolding remove_at
remove_at-IsAscending a n k asc i j l h =
    ground (arith, asc i j, asc i (j + 1), asc (i + 1) (j + 1))
