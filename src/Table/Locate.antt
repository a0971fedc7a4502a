-- ===== src/Table/Locate.antt =====
-- The leaf and the cell where `table_find` puts the cursor.
use mini_sql.Base.{ℕ, ◌<◌, ◌≡◌, inl, inr, some, arith, refl}
use mini_sql.Base.Bytes.{Bytes}
use mini_sql.Schema.{u32_mod}
use mini_sql.Btree.{Leaf}
use mini_sql.Btree.LeafNode.Lookup.{IsSorted}
use mini_sql.Btree.Store.{leaf, Store, ◌>>=◌, rounds}
use mini_sql.Btree.Tree.{leaf_tree, IsLeafIn, in_leaf}
use mini_sql.Cursor.{cursor_at, table_find, descend}
use mini_sql.Cursor.Descent.{descend-Reaches, descend_leaf}
use mini_sql.Table.Contents.{
  IsTable, grown, empty, HoldsRow, HasCell, Holds-height, cell_of, empty_row,
}
use mini_sql.Table.Rewrite.{Rewritten, with_leaf, KeysOf, rewritten, Descends-Holds}

-- The leaf in which a key is or belongs, as `table_find` finds it.
pub record Located (s : Store) (root key : ℕ) : Type 0 where
  pub leaf_page : ℕ
  pub node : Leaf
  pub at : s.pages leaf_page ≡ leaf node
  pub exists : leaf_page < s.num_pages
  pub sorted : IsSorted node
  pub find : table_find root key s ≡ some (cursor_at leaf_page key node, s)
  pub only : (row : Bytes) → HoldsRow s root key row → HasCell node key row
  pub back : (k : ℕ) (row : Bytes) → HasCell node k row → HoldsRow s root k row
  pub rewrite :
      (new : Leaf)
      → IsSorted new
      → 0 < new.num_cells
      → KeysOf node new key
      → Rewritten s (with_leaf s leaf_page new) root key node new

pub table_find_lem :
    (s : Store) (root key page : ℕ) (node : Leaf)
    → descend (rounds s) root key s ≡ some ((page, node), s)
    → table_find root key s ≡ some (cursor_at page key node, s)
unfolding table_find
table_find_lem s root key page node e = rw (◌>>=◌, e) refl

only_leaf :
    (s : Store) (root key : ℕ) (node : Leaf)
    → root < s.num_pages
    → node.num_cells ≡ 0
    → key < u32_mod
    → (new : Leaf) → IsSorted new
    → 0 < new.num_cells
    → KeysOf node new key
    → IsLeafIn (with_leaf s root new) root 0 u32_mod
only_leaf s root key node exists none_in small new sorted filled keys = record {
  node = new;
  at = ground arith;
  exists = exists;
  sorted = sorted;
  keys = λ i h. elim (keys i h) [
    | inl e ↦ (omega arith, omega arith)
    | inr (j, b, e) ↦ absurd (omega arith)
  ];
  filled = filled;
}

-- The first row of an empty table.
filled_up :
    (s : Store) (root key : ℕ) (node : Leaf)
    → s.pages root ≡ leaf node
    → root < s.num_pages
    → node.num_cells ≡ 0
    → key < u32_mod
    → (new : Leaf) → IsSorted new
    → 0 < new.num_cells
    → KeysOf node new key
    → Rewritten s (with_leaf s root new) root key node new
unfolding only_leaf
filled_up s root key node at exists none_in small new sorted filled keys =
    let l = only_leaf s root key node exists none_in small new sorted filled keys in
    record {
      table = grown (omega arith) (leaf_tree l);
      after = λ k row h. inl (cell_of new l.at (Holds-height (leaf_tree l) h.1));
      fresh = λ k row (i, c). (0, in_leaf new i l.at c.0 c.1);
      kept = λ k row h. absurd (empty_row node at none_in h.1);
    }

pub table_find-Located :
    (s : Store) (root key : ℕ) → IsTable s root → key < u32_mod → Located s root key
table_find-Located s root key (grown {height = height} low_enough tree) small =
    let r = descend-Reaches s (rounds s) key tree (omega arith) (omega arith) small in
    record {
      leaf_page = r.leaf_page;
      node = r.target.node;
      at = r.target.at;
      exists = r.target.exists;
      sorted = r.target.sorted;
      find = table_find_lem s root key r.leaf_page r.target.node r.run;
      only = λ row h. cell_of r.target.node r.target.at (r.only row (Holds-height tree h.1));
      back = λ k row (i, c).
          (height, Descends-Holds r.path (in_leaf r.target.node i r.target.at c.0 c.1));
      rewrite =
          rewritten s root key r.leaf_page r.low r.high height r.target low_enough tree r.path
            r.range;
    }
table_find-Located s root key (empty node at exists none_in) small = record {
  leaf_page = root;
  node = node;
  at = at;
  exists = exists;
  sorted = record { ascends = λ i j l h. absurd (omega arith); small = omega arith };
  find = table_find_lem s root key root node (descend_leaf s s.num_pages key root node exists at);
  only = λ row h. absurd (empty_row node at none_in h.1);
  back = λ k row (i, c). absurd (omega arith);
  rewrite = filled_up s root key node at exists none_in small;
}
