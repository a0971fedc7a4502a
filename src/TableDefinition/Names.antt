-- ===== src/TableDefinition/Names.antt =====
-- The check that no two columns have one name.
use mini_sql.Base.{
  ℕ, zero, suc, ◌<◌, ◌≡◌, inl, inr, false, some, List, [], ◌∷◌, get_elem?, arith, subst, Bool-cases,
}
use mini_sql.Base.Bytes.{Bytes}
use mini_sql.Base.Result.{ok}
use mini_sql.Ast.{ColumnAst}
use mini_sql.Schema.{schema_names_equal}
use mini_sql.TableDefinition.{is_named, check_names}

is_named-get :
    (name : Bytes) (before : List ColumnAst) (c : ColumnAst) (i : ℕ)
    → is_named name before ≡ false
    → get_elem? before i ≡ some c
    → schema_names_equal name c.name ≡ false
unfolding is_named
is_named-get name [] c i h e = absurd (ground arith)
is_named-get name (x ∷ cs) c zero h e = ground arith
is_named-get name (x ∷ cs) c (suc i) h e = is_named-get name cs c i (ground arith) e

check_names-cons :
    (before cs : List ColumnAst) (x : ColumnAst)
    → check_names before (x ∷ cs) ≡ ok tt
    → (is_named x.name before ≡ false) × (check_names (x ∷ before) cs ≡ ok tt)
unfolding check_names
check_names-cons before cs x h = elim (Bool-cases (is_named x.name before)) [
  | inl twice ↦ absurd (ground arith)
  | inr new ↦ (new, ground arith)
]

-- No column from `cs` on is named as one of `before`.
check_names-before :
    (before cs : List ColumnAst) (c d : ColumnAst) (i j : ℕ)
    → check_names before cs ≡ ok tt
    → get_elem? before i ≡ some c
    → get_elem? cs j ≡ some d
    → schema_names_equal d.name c.name ≡ false
unfolding check_names
check_names-before before [] c d i j h e f = absurd (ground arith)
check_names-before before (x ∷ cs) c d i zero h e f =
    let new = (check_names-cons before cs x h).0 in
    let same : x ≡ d = cc in
    subst (λ (y : ColumnAst). schema_names_equal y.name c.name ≡ false) same
      (is_named-get x.name before c i new e)
check_names-before before (x ∷ cs) c d i (suc j) h e f =
    check_names-before (x ∷ before) cs c d (suc i) j (check_names-cons before cs x h).1 e f

pub check_names-distinct :
    (before cs : List ColumnAst) (c d : ColumnAst) (i j : ℕ)
    → check_names before cs ≡ ok tt
    → i < j
    → get_elem? cs i ≡ some c
    → get_elem? cs j ≡ some d
    → schema_names_equal d.name c.name ≡ false
unfolding check_names
check_names-distinct before [] c d i j h l e f = absurd (ground arith)
check_names-distinct before (x ∷ cs) c d zero zero h l e f = absurd (omega arith)
check_names-distinct before (x ∷ cs) c d (suc i) zero h l e f = absurd (omega arith)
check_names-distinct before (x ∷ cs) c d zero (suc j) h l e f =
    check_names-before (x ∷ before) cs c d zero j (check_names-cons before cs x h).1 e f
check_names-distinct before (x ∷ cs) c d (suc i) (suc j) h l e f =
    check_names-distinct (x ∷ before) cs c d i j (check_names-cons before cs x h).1 (omega arith) e
      f
