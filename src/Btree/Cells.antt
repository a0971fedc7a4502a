-- ===== src/Btree/Cells.antt =====
-- The loops of src/btree.c that move cells within a node's array, one element at a time, and the
-- block copies. `memcpy` between two nodes, or between disjoint parts of one, is `copy_cells`.
use mini_sql.Base.{
  ℕ, zero, suc, ◌+◌, ◌-◌, ◌≤◌, ◌<◌, ◌≡◌, arith, ◌&&◌, ltb, leb, ◌==◌, if◌then◌else◌, update,
}

module _ {A : Type 0} where
  -- for(i = n; i > k; --i) a[i] = a[i - 1];
  unfoldable pub shift_right : (ℕ → A) → ℕ → ℕ → ℕ → A
  shift_right a k zero = a
  shift_right a k (suc i) = if ltb k (suc i) then shift_right (update a (suc i) (a i)) k i else a

  -- for(; rounds > 0; ++i) a[i] = a[i + 1];
  unfoldable pub shift_left : (ℕ → A) → ℕ → ℕ → ℕ → A
  shift_left a i zero = a
  shift_left a i (suc rounds) = shift_left (update a i (a (i + 1))) (i + 1) rounds

  -- memcpy(to + at, from + start, n)
  unfoldable pub copy_cells : (ℕ → A) → ℕ → (ℕ → A) → ℕ → ℕ → ℕ → A
  copy_cells to at from start n j =
      if leb at j && ltb j (at + n) then from (start + (j - at)) else to j

  pub shift_right_lem :
      (a : ℕ → A) (k n j : ℕ)
      → shift_right a k n j ≡ (if ltb k j && leb j n then a (j - 1) else a j)
  unfolding shift_right
  shift_right_lem a k zero j = ground arith
  shift_right_lem a k (suc i) j = ground (arith, shift_right_lem (update a (suc i) (a i)) k i j)

  pub shift_left_lem :
      (a : ℕ → A) (i n j : ℕ)
      → shift_left a i n j ≡ (if leb i j && ltb j (i + n) then a (j + 1) else a j)
  unfolding shift_left
  shift_left_lem a i zero j = ground arith
  shift_left_lem a i (suc n) j = ground (arith, shift_left_lem (update a i (a (i + 1))) (i + 1) n j)

  -- The array with `x` put in at `k`, and with the element at `k` taken out.
  unfoldable pub insert_at : (ℕ → A) → ℕ → A → ℕ → A
  insert_at a k x j = if ltb j k then a j else if j == k then x else a (j - 1)

  unfoldable pub remove_at : (ℕ → A) → ℕ → ℕ → A
  remove_at a k j = if ltb j k then a j else a (j + 1)

  -- Opening a gap at `k ≤ n` and writing it inserts, as far as the first n + 1 elements.
  pub shift_right-insert_at :
      (a : ℕ → A) (k n : ℕ) (x : A) (j : ℕ)
      → k ≤ n
      → j ≤ n
      → update (shift_right a k n) k x j ≡ insert_at a k x j
  unfolding insert_at
  shift_right-insert_at a k n x j h b = ground (arith, shift_right_lem a k n j)

  -- Closing the gap at `k < n` removes, as far as the first n - 1 elements.
  pub shift_left-remove_at :
      (a : ℕ → A) (k n j : ℕ) → k < n → suc j < n → shift_left a k (n - 1 - k) j ≡ remove_at a k j
  unfolding remove_at
  shift_left-remove_at a k n j h b = ground (arith, shift_left_lem a k (n - 1 - k) j)
