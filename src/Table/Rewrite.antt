-- ===== src/Table/Rewrite.antt =====
-- What writing the leaf in which a key belongs does to a table and its rows.
use mini_sql.Base.{ℕ, zero, ◌<◌, ◌≤◌, ◌≡◌, ◌≢◌, ◌⊎◌, inl, inr, arith, refl, update}
use mini_sql.Base.Bytes.{Bytes}
use mini_sql.Schema.{u32_mod}
use mini_sql.Btree.{Leaf}
use mini_sql.Btree.LeafNode.Lookup.{IsSorted}
use mini_sql.Btree.Store.{leaf, Store}
use mini_sql.Btree.Tree.{IsTree, IsLeafIn, Holds, in_leaf, in_child, Descends, here, down}
use mini_sql.Table.Contents.{IsTable, grown, HoldsRow, HasCell, Holds-height, cell_of}
use mini_sql.Btree.Replace.{replaced-IsTree, replaced-Holds, kept-Holds, new-Holds}

-- What a leaf holds under a key, the tree above it holds.
pub Descends-Holds :
    {s : Store} {q from to key height page low high : ℕ} {row : Bytes}
    → Descends s q from to height page low high
    → Holds s key row zero q
    → Holds s key row height page
Descends-Holds (here l) h = h
Descends-Holds (down node i at exists asc small within below b path) h =
    in_child node i at b (Descends-Holds path h)

-- The store with another leaf on one page.
abbrev pub with_leaf : Store → ℕ → Leaf → Store
with_leaf s n node = record s { pages = update s.pages n (leaf node) }

-- What writing `new` over the leaf `old` in which `key` belongs does to the table.
pub record Rewritten (s t : Store) (root key : ℕ) (old new : Leaf) : Type 0 where
  pub table : IsTable t root
  pub after :
      (k : ℕ) (row : Bytes)
      → HoldsRow t root k row
      → HasCell new k row ⊎ (HoldsRow s root k row × (k ≢ key))
  pub fresh : (k : ℕ) (row : Bytes) → HasCell new k row → HoldsRow t root k row
  pub kept :
      (k : ℕ) (row : Bytes) → HoldsRow s root k row → HasCell old k row ⊎ HoldsRow t root k row

-- Every key of `new` is a key of `old`, or `key`.
abbrev pub KeysOf : (old new : Leaf) → ℕ → Type 0
KeysOf old new key =
    (i : ℕ)
    → i < new.num_cells
    → ((new.cells i).key ≡ key)
      ⊎ ((j : ℕ) × (j < old.num_cells) × ((new.cells i).key ≡ (old.cells j).key))

module _ (s : Store) (root key q from to height : ℕ) (target : IsLeafIn s q from to)
    (low_enough : height ≤ s.num_pages) (tree : IsTree s height root 0 u32_mod)
    (path : Descends s q from to height root 0 u32_mod) (range : (from ≤ key) × (key < to))
    (new : Leaf) (sorted : IsSorted new) (filled : 0 < new.num_cells)
    (keys : KeysOf target.node new key) where
  fresh_leaf : IsLeafIn (with_leaf s q new) q from to
  fresh_leaf = record {
    node = new;
    at = ground arith;
    exists = target.exists;
    sorted = sorted;
    keys = λ i h. elim (keys i h) [
      | inl e ↦ omega arith
      | inr (j, b, e) ↦ omega (arith, target.keys j b)
    ];
    filled = filled;
  }

  same_elsewhere : (n : ℕ) → n ≢ q → (with_leaf s q new).pages n ≡ s.pages n
  same_elsewhere n ne = ground arith

  new-IsTree : IsTree (with_leaf s q new) height root 0 u32_mod
  new-IsTree =
      replaced-IsTree s (with_leaf s q new) q (target.node.cells 0).key target.node 0 target.at
        target.filled refl same_elsewhere (omega arith) from to (target.keys 0 target.filled)
        fresh_leaf path

  pub rewritten : Rewritten s (with_leaf s q new) root key target.node new
  unfolding fresh_leaf
  rewritten = record {
    table = grown low_enough new-IsTree;
    after = λ k row h.
        elim (replaced-Holds s (with_leaf s q new) q (target.node.cells 0).key target.node 0
          target.at target.filled refl same_elsewhere (omega arith) from to
          (target.keys 0 target.filled) fresh_leaf path (Holds-height new-IsTree h.1)) [
            | inl here_now ↦ inl (cell_of new fresh_leaf.at here_now)
            | inr (old_row, out) ↦ inr ((height, old_row), λ e. omega arith)
          ];
    fresh = λ k row (i, c). (
      height,
      new-Holds s (with_leaf s q new) q (target.node.cells 0).key target.node 0 target.at
          target.filled refl same_elsewhere (omega arith) from to (target.keys 0 target.filled)
          fresh_leaf path (in_leaf new i fresh_leaf.at c.0 c.1),
    );
    kept = λ k row h.
        elim (kept-Holds s (with_leaf s q new) q (target.node.cells 0).key target.node 0 target.at
          target.filled refl same_elsewhere (omega arith) from to (target.keys 0 target.filled)
          fresh_leaf path (Holds-height tree h.1)) [
            | inl before ↦ inl (cell_of target.node target.at before)
            | inr now ↦ inr (height, now)
          ];
  }
