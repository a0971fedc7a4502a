-- ===== src/Expression/Ordering.antt =====
-- `order_texts` is the lexicographic order of byte strings, a total order.
use mini_sql.Base.{◌≡◌, refl, sym, ap, ◌∙◌, arith, [], ◌∷◌, ltb, if◌then◌else◌, ◌↔◌}
use mini_sql.Base.Bytes.{Bytes}
use mini_sql.Expression.{Sign, less, same, greater, order_texts}

-- The order that the comment describes, byte by byte: a shorter string that is a prefix comes first.
unfoldable pub lexicographic : Bytes → Bytes → Sign
lexicographic [] [] = same
lexicographic [] (y ∷ b) = less
lexicographic (x ∷ a) [] = greater
lexicographic (x ∷ a) (y ∷ b) =
    let rest = lexicographic a b in if ltb x y then less else if ltb y x then greater else rest

order_texts-lexicographic : (a b : Bytes) → order_texts a b ≡ lexicographic a b
unfolding order_texts lexicographic
order_texts-lexicographic [] [] = refl
order_texts-lexicographic [] (y ∷ b) = ground arith
order_texts-lexicographic (x ∷ a) [] = ground arith
order_texts-lexicographic (x ∷ a) (y ∷ b) = ground (arith, order_texts-lexicographic a b)

abbrev pub opposite : Sign → Sign
opposite less = greater
opposite same = same
opposite greater = less

lexicographic-opposite : (a b : Bytes) → lexicographic b a ≡ opposite (lexicographic a b)
unfolding lexicographic
lexicographic-opposite [] [] = refl
lexicographic-opposite [] (y ∷ b) = refl
lexicographic-opposite (x ∷ a) [] = refl
lexicographic-opposite (x ∷ a) (y ∷ b) = ground (arith, lexicographic-opposite a b)

lexicographic-same : (a b : Bytes) → lexicographic a b ≡ same → a ≡ b
unfolding lexicographic
lexicographic-same [] [] h = refl
lexicographic-same [] (y ∷ b) h = absurd (cc)
lexicographic-same (x ∷ a) [] h = absurd (cc)
lexicographic-same (x ∷ a) (y ∷ b) h = ground (arith, lexicographic-same a b)

lexicographic_trans :
    (a b c : Bytes) → lexicographic a b ≡ less → lexicographic b c ≡ less → lexicographic a c ≡ less
unfolding lexicographic
lexicographic_trans [] [] [] h k = absurd (cc)
lexicographic_trans [] (y ∷ b) [] h k = absurd (cc)
lexicographic_trans [] b (z ∷ c) h k = refl
lexicographic_trans (x ∷ a) [] c h k = absurd (cc)
lexicographic_trans (x ∷ a) (y ∷ b) [] h k = absurd (cc)
lexicographic_trans (x ∷ a) (y ∷ b) (z ∷ c) h k =
    ground (arith, lexicographic_trans a b c, lexicographic-same a b, lexicographic-same b c)

lexicographic_refl : (a : Bytes) → lexicographic a a ≡ same
unfolding lexicographic
lexicographic_refl [] = refl
lexicographic_refl (x ∷ a) = ground (arith, lexicographic_refl a)

-- TEXT comparison is the lexicographic order of bytes: it agrees with that order on every pair of
-- texts, reports equal exactly for equal texts, and swapping the sides swaps the sign.
pub order_texts-IsOrder :
    (a b : Bytes)
    → (order_texts a b ≡ lexicographic a b)
      × ((order_texts a b ≡ same) ↔ (a ≡ b))
      × (order_texts b a ≡ opposite (order_texts a b))
order_texts-IsOrder a b =
    rw (order_texts-lexicographic a b, order_texts-lexicographic b a)
      (
        refl,
        (λ h. lexicographic-same a b h, λ e. ap (lexicographic a) (sym e) ∙ lexicographic_refl a),
        lexicographic-opposite a b,
      )

-- It is transitive.
pub order_texts_trans :
    (a b c : Bytes) → order_texts a b ≡ less → order_texts b c ≡ less → order_texts a c ≡ less
order_texts_trans a b c h k =
    order_texts-lexicographic a c
    ∙ lexicographic_trans a b c (sym (order_texts-lexicographic a b) ∙ h)
        (sym (order_texts-lexicographic b c) ∙ k)
