-- ===== src/Tests/Pages.antt =====
-- The pager and the file header: theorems at a file of three pages.
use mini_sql.Base.{ℕ, ◌<◌, ◌≡◌, ◌⊎◌, refl, arith, none, some, [], ◌∷◌, update}
use mini_sql.Base.Bytes.{Bytes, head_byte}
use mini_sql.Pager.{Pager, zero_page, pager_get_page, pager_allocate_page, pager_free_page}
use mini_sql.Pager.FreeList.{
  IsCached, contents, pager_allocate_page-Fresh, pager_allocate_page-pager_free_page,
}

-- A file whose pages all start with 1, the type of a leaf.
abbrev disk : ℕ → Bytes
disk n = 1 ∷ n ∷ []

abbrev opened : Pager
opened = record { num_pages = 3; capacity = 16; pages = λ i. none; free_head = 0 }

opened-IsCached : IsCached opened
opened-IsCached = record { slots = omega arith; empty = λ n h. refl }

abbrev grown : Pager
grown = record {
  num_pages = 4;
  capacity = 16;
  pages = update (λ i. none) 3 (some zero_page);
  free_head = 0;
}

pager_allocate_page-Fresh_example :
    ((◌≡◌ {A = ℕ} 3 3) ⊎ (head_byte (contents disk opened 3) ≡ 255))
    × (3 < 4)
    × (contents disk grown 2 ≡ contents disk opened 2)
    × IsCached grown
unfolding pager_allocate_page pager_get_page
pager_allocate_page-Fresh_example = pager_allocate_page-Fresh disk opened 2 opened-IsCached refl

pager_allocate_page-pager_free_page_example :
    (q : Pager) × (r : Pager) × (pager_free_page disk opened 2 ≡ some q)
    × (head_byte (contents disk q 2) ≡ 255)
    × (pager_allocate_page disk q ≡ some (2, r))
    × (r.free_head ≡ 0)
    × (r.num_pages ≡ 3)
    × (contents disk r 1 ≡ contents disk opened 1)
pager_allocate_page-pager_free_page_example =
    pager_allocate_page-pager_free_page disk opened 2 1 opened-IsCached (omega arith) (omega arith)
      (omega arith)
