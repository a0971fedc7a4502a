-- ===== src/Btree/Layout.antt =====
-- How the nodes lie in their pages: cells stay inside the page and apart, and the row limit that
-- table definitions use is exactly the one that leaves room for the wanted number of cells.
use native.Mathlib.Nat.{le-div_iff_mul-le, mul_comm, mul-le-mul_right}
use mini_sql.Base.{ℕ, suc, ◌+◌, ◌-◌, ◌*◌, ◌/◌, ◌%◌, ◌≤◌, ◌<◌, ◌≡◌, arith, ◌↔◌, ap}
use mini_sql.Schema.{Schema, u32_mod}
use mini_sql.Pager.{page_size}
use mini_sql.Btree.{
  header_size, leaf_node_cell_size, leaf_node_max_cells, leaf_node_max_row_size, leaf_node_cell,
  internal_node_cell, internal_node_cell_size, internal_node_max_keys,
}

cell_size_bounds :
    (s : Schema)
    → s.row_size < u32_mod - 7
    → (4 + s.row_size ≤ leaf_node_cell_size s)
      × (leaf_node_cell_size s ≤ s.row_size + 7)
      × (leaf_node_cell_size s % 4 ≡ 0)
unfolding leaf_node_cell_size
cell_size_bounds s h = omega arith

-- The cell is the least multiple of 4 with room for the key and the row.
cell_size_least :
    (s : Schema) (t : ℕ)
    → s.row_size < u32_mod - 7
    → 4 + s.row_size ≤ 4 * t
    → leaf_node_cell_size s ≤ 4 * t
unfolding leaf_node_cell_size
cell_size_least s t h g = omega arith

-- A row whose size is a `uint32_t` below 2^32 - 7 is at most as wide as `leaf_node_max_row_size`
-- says for `m` cells, 0 < m ≤ 1020, exactly when a leaf holds at least `m` cells with that row.
pub max_row_size_iff :
    (s : Schema) (m : ℕ)
    → s.row_size < u32_mod - 7
    → 0 < m
    → m ≤ 1020
    → (s.row_size ≤ leaf_node_max_row_size m) ↔ (m ≤ leaf_node_max_cells s)
unfolding leaf_node_max_row_size leaf_node_max_cells
max_row_size_iff s m h pos few = (
  λ p. (le-div_iff_mul-le {k = leaf_node_cell_size s} (omega (arith, bounds))).1 (
      omega (
        arith,
        swap,
        (le-div_iff_mul-le {x = leaf_node_cell_size s} {y = 4080} pos).0 (
            let c : leaf_node_cell_size s ≤ 4 * (4080 / m / 4) =
              cell_size_least s (4080 / m / 4) h (omega (arith, quotient)) in
            omega arith),
      )),
  λ p.
      let c : leaf_node_cell_size s ≤ 4080 / m = (le-div_iff_mul-le pos).1 (
        omega (
          arith,
          swap,
          (le-div_iff_mul-le {k = leaf_node_cell_size s} {x = m} {y = 4080}
                (omega (arith, bounds))).0
              p,
        )) in
      omega (arith, bounds, quotient),
)
  where
    bounds :
        (4 + s.row_size ≤ leaf_node_cell_size s)
        × (leaf_node_cell_size s ≤ s.row_size + 7)
        × (leaf_node_cell_size s % 4 ≡ 0)
    bounds = cell_size_bounds s h

    swap : m * leaf_node_cell_size s ≡ leaf_node_cell_size s * m
    swap = mul_comm m (leaf_node_cell_size s)

    quotient : 4 ≤ 4080 / m
    quotient = (le-div_iff_mul-le pos).1 (omega arith)

-- Cells `i < j` of a leaf that can hold them both lie behind the header and inside the page, are
-- aligned to 4 bytes, do not overlap, and each has room for the key and the row.
pub leaf_cells-disjoint :
    (s : Schema) (i j : ℕ)
    → s.row_size < u32_mod - 7
    → i < j
    → j < leaf_node_max_cells s
    → (header_size ≤ leaf_node_cell i s)
      × (leaf_node_cell i s + 4 + s.row_size ≤ leaf_node_cell j s)
      × (leaf_node_cell j s + 4 + s.row_size ≤ page_size)
      × (leaf_node_cell i s % 4 ≡ 0)
      × (leaf_node_cell j s % 4 ≡ 0)
unfolding leaf_node_cell leaf_node_max_cells
leaf_cells-disjoint s i j h l b =
    let c = leaf_node_cell_size s in
    let bounds = cell_size_bounds s h in
    let whole : suc j * c ≤ 4080 = (le-div_iff_mul-le {k = c} (omega (arith, bounds))).0 b in
    let apart : suc i * c ≤ j * c = mul-le-mul_right c l in
    let quarter : c ≡ 4 * (c / 4) = omega (arith, bounds) in
    let at_i : i * c ≡ i * (4 * (c / 4)) = ap (λ x. i * x) quarter in
    let at_j : j * c ≡ j * (4 * (c / 4)) = ap (λ x. j * x) quarter in omega (arith, bounds)

-- So do the cells of an internal node, of which the cap never allows more than the page holds.
pub internal_cells-disjoint :
    (configured i j : ℕ)
    → i < j
    → j < internal_node_max_keys configured
    → (header_size ≤ internal_node_cell i)
      × (internal_node_cell i + internal_node_cell_size ≤ internal_node_cell j)
      × (internal_node_cell j + internal_node_cell_size ≤ page_size)
      × (internal_node_cell i % 4 ≡ 0)
unfolding internal_node_max_keys internal_node_cell
internal_cells-disjoint configured i j l b = ground arith
