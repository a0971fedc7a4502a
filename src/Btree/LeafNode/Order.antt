-- ===== src/Btree/LeafNode/Order.antt =====
-- What the loops over a leaf's cells leave in the arrays.
use mini_sql.Base.{
  ℕ, zero, suc, ◌+◌, ◌-◌, ◌/◌, ◌≤◌, ◌<◌, ◌≡◌, refl, arith, ltb, Bool-cases, inl, inr, update,
}
use mini_sql.Btree.{Cell, Leaf}
use mini_sql.Btree.Cells.{insert_at, remove_at, shift_right-insert_at, shift_left-remove_at}
use mini_sql.Btree.LeafNode.{
  insert_with_room, leaf_node_insert_cell, leaf_node_remove_cell, Halves, place_cell, place_cells,
  divide_cells,
}

insert_at_end :
    (a : ℕ → Cell) (k : ℕ) (c : Cell) (j : ℕ) → j ≤ k → update a k c j ≡ insert_at a k c j
unfolding insert_at
insert_at_end a k c j h = ground arith

pub insert_with_room-insert_at :
    (node : Leaf) (k : ℕ) (c : Cell) (j : ℕ)
    → k ≤ node.num_cells
    → j ≤ node.num_cells
    → (insert_with_room node k c).cells j ≡ insert_at node.cells k c j
unfolding insert_with_room
insert_with_room-insert_at node k c j h b = elim (Bool-cases (ltb k node.num_cells)) [
  | inl inside ↦ rw inside (shift_right-insert_at node.cells k node.num_cells c j h b)
  | inr last ↦ rw last (insert_at_end node.cells k c j (ground arith))
]

pub insert_cell-insert_at :
    (node : Leaf) (k : ℕ) (c : Cell) (j : ℕ)
    → k ≤ node.num_cells
    → j ≤ node.num_cells
    → (leaf_node_insert_cell node k c).cells j ≡ insert_at node.cells k c j
unfolding leaf_node_insert_cell
insert_cell-insert_at node k c j h b = shift_right-insert_at node.cells k node.num_cells c j h b

pub remove_cell-remove_at :
    (node : Leaf) (k : ℕ) (j : ℕ)
    → k < node.num_cells
    → suc j < node.num_cells
    → (leaf_node_remove_cell node k).cells j ≡ remove_at node.cells k j
unfolding leaf_node_remove_cell
remove_cell-remove_at node k j h b =
    ground (arith, shift_left-remove_at node.cells k node.num_cells j)

module _ (a : ℕ → Cell) (left k : ℕ) (c : Cell) where
  -- The loop from `i` down: the old array is untouched below `i`, and what is in place from `i` on
  -- is the insertion's result.
  record IsPlaced (total i : ℕ) (h : Halves) : Type 0 where
    kept : (j : ℕ) → j < i → h.old j ≡ a j
    lower : (j : ℕ) → i ≤ j → j < left → h.old j ≡ insert_at a k c j
    upper : (j : ℕ) → i ≤ left + j → left + j < total → h.new j ≡ insert_at a k c (left + j)

  place_cell-IsPlaced :
      (total i : ℕ) (h : Halves)
      → IsPlaced total (suc i) h
      → IsPlaced total i (place_cell left k c i h)
  place_cell-IsPlaced total i h p = record {
    kept = λ j b. unfold place_cell in ground (arith, p.kept j);
    lower =
        λ j b l. unfold place_cell insert_at in ground (arith, p.kept i, p.kept (i - 1), p.lower j);
    upper =
        λ j b l. unfold place_cell insert_at in ground (arith, p.kept i, p.kept (i - 1), p.upper j);
  }

  place_cells-IsPlaced :
      (total i : ℕ) (h : Halves) → IsPlaced total i h → IsPlaced total 0 (place_cells left k c i h)
  unfolding place_cells
  place_cells-IsPlaced total zero h p = p
  place_cells-IsPlaced total (suc i) h p =
      place_cells-IsPlaced total i (place_cell left k c i h) (place_cell-IsPlaced total i h p)

module _ (max_cells : ℕ) (old_node new_node : Leaf) (k : ℕ) (c : Cell) where
  divided : Leaf × Leaf
  divided = divide_cells max_cells old_node new_node k c

  divided-IsPlaced :
      IsPlaced old_node.cells
        (max_cells + 1 - (max_cells + 1) / 2)
        k
        c
        (max_cells + 1)
        0
        (record { old = divided.0.cells; new = divided.1.cells })
  unfolding divided divide_cells
  divided-IsPlaced =
      place_cells-IsPlaced old_node.cells (max_cells + 1 - (max_cells + 1) / 2) k c (max_cells + 1)
        (max_cells + 1) _
        (record {
          kept = λ i b. refl;
          lower = λ i b l. absurd (omega arith);
          upper = λ i b l. absurd (omega arith);
        })

  pub divide_cells-lower :
      (i : ℕ)
      → i < max_cells + 1 - (max_cells + 1) / 2
      → (divide_cells max_cells old_node new_node k c).0.cells i ≡ insert_at old_node.cells k c i
  divide_cells-lower i h = unfold divided in divided-IsPlaced.lower i (omega arith) h

  pub divide_cells-upper :
      (j : ℕ)
      → j < (max_cells + 1) / 2
      → (divide_cells max_cells old_node new_node k c).1.cells j
        ≡ insert_at old_node.cells k c (max_cells + 1 - (max_cells + 1) / 2 + j)
  divide_cells-upper j h = unfold divided in divided-IsPlaced.upper j (omega arith) (omega arith)

-- Splitting a full leaf of `max_cells` cells divides the cells with the new one put in at
-- `cell_num`, in order and with none lost or doubled: the old node has the first
-- `max_cells + 1 - (max_cells + 1) / 2` of them and the new node the other `(max_cells + 1) / 2`,
-- though the loop writes the old node's array while it still reads from it.
pub divide_cells-insert_at :
    (max_cells : ℕ) (old_node new_node : Leaf) (k : ℕ) (c : Cell) (i j : ℕ)
    → i < max_cells + 1 - (max_cells + 1) / 2
    → j < (max_cells + 1) / 2
    → let (old', new') = divide_cells max_cells old_node new_node k c in
      (old'.num_cells ≡ max_cells + 1 - (max_cells + 1) / 2)
      × (new'.num_cells ≡ (max_cells + 1) / 2)
      × (old'.cells i ≡ insert_at old_node.cells k c i)
      × (new'.cells j ≡ insert_at old_node.cells k c (old'.num_cells + j))
unfolding divide_cells
divide_cells-insert_at max_cells old_node new_node k c i j b b' = (
  refl,
  refl,
  divide_cells-lower max_cells old_node new_node k c i b,
  divide_cells-upper max_cells old_node new_node k c j b',
)
