-- ===== src/Pager.antt =====
-- src/pager.c and include/pager.h: the cache of pages and the free list. What the file held when it
-- was opened is the parameter `disk`: `disk n` is what `read` leaves in a zeroed buffer for page `n`.
-- `none` stands for the exits of the source. Memory is always found, and page numbers stay below
-- 2^32 - 1, which a file of 16 TiB would reach.
pub mod FreeList
use mini_sql.Base.{
  ℕ, ◌+◌, ◌-◌, ◌*◌, ◌/◌, ◌%◌, ◌<◌, ◌≡◌, refl, arith, Option, none, some, List, [], ◌∷◌, ltb, leb,
  ◌==◌, if◌then◌else◌, length, replicate, update, not, ◌&&◌,
}
use mini_sql.Base.Bytes.{Bytes, head_byte}
use mini_sql.Schema.{u32_mod}
use mini_sql.Record.{overwrite, slice, u32_bytes, bytes_u32}

abbrev pub page_size : ℕ
page_size = 4096

-- A page as `calloc` or `memset` leaves it.
unfoldable pub zero_page : Bytes
zero_page = replicate page_size 0

-- `file_descriptor` is left out, and `file_length` is read by nothing. A slot of `pages` is `none`
-- where the page is not resident.
pub record Pager : Type 0 where
  pub num_pages : ℕ
  pub capacity : ℕ
  pub pages : ℕ → Option Bytes
  pub free_head : ℕ

abbrev initial_page_capacity : ℕ
initial_page_capacity = 16

unfoldable pub grow_page_cache : Pager → ℕ → Pager
grow_page_cache p needed =
    let doubled = if ltb ((u32_mod - 1) / 2) p.capacity then u32_mod - 1 else p.capacity * 2 in
    let new_capacity = if ltb doubled needed then needed else doubled in
    record p {
      pages = λ i. if leb p.capacity i && ltb i new_capacity then none else p.pages i;
      capacity = new_capacity;
    }

-- `pager_open` on a file of this length.
unfoldable pub pager_open : (file_length : ℕ) → Option Pager
unfolding grow_page_cache
pager_open file_length =
    let n = file_length % u32_mod / page_size in
    if not (file_length % page_size == 0)
    then none
    else some (
        grow_page_cache (record { num_pages = n; capacity = 0; pages = λ i. none; free_head = 0 })
          (if ltb initial_page_capacity n then n else initial_page_capacity))

abbrev free_page_marker : ℕ
free_page_marker = 255

-- What `pager_free_page` leaves in the page: the marker, and the old head of the list.
unfoldable pub free_page : ℕ → Bytes
free_page next = overwrite 4 (u32_bytes next) (overwrite 0 (free_page_marker ∷ []) zero_page)

-- The first page of the free list, taken off it.
unfoldable pub take_free : ℕ → Bytes × Pager → Option (ℕ × Pager)
take_free page_num (page, q) =
    if head_byte page == free_page_marker
    then some (
      page_num,
      record q {
        free_head = bytes_u32 (slice 4 4 page);
        pages = update q.pages page_num (some zero_page);
      },
    )
    else none

module _ (disk : ℕ → Bytes) where
  -- A miss: the page read or made, and the pager that holds it.
  unfoldable pub load_page : Pager → ℕ → Bytes × Pager
  load_page p page_num =
      let page = if ltb page_num p.num_pages then disk page_num else zero_page in
      (
        page,
        record p {
          pages = update p.pages page_num (some page);
          num_pages = if leb p.num_pages page_num then page_num + 1 else p.num_pages;
        },
      )

  -- `pager_get_page`: the page's bytes, and the pager.
  unfoldable pub pager_get_page : Pager → ℕ → Option (Bytes × Pager)
  unfolding load_page grow_page_cache
  pager_get_page p page_num =
      if ltb p.num_pages page_num
      then none
      else let q = if leb p.capacity page_num then grow_page_cache p (page_num + 1) else p in
        elim (q.pages page_num) [ none ↦ some (load_page q page_num) | some page ↦ some (page, q) ]

  unfoldable pub pager_allocate_page : Pager → Option (ℕ × Pager)
  unfolding take_free
  pager_allocate_page p =
      if not (p.free_head == 0)
      then elim (pager_get_page p p.free_head) [
        | none ↦ none
        | some got ↦ take_free p.free_head got
      ]
      else elim (pager_get_page p p.num_pages) [
        | none ↦ none
        | some got ↦ some (p.num_pages, got.1)
      ]

  unfoldable pub pager_free_page : Pager → ℕ → Option Pager
  unfolding free_page
  pager_free_page p page_num = elim (pager_get_page p page_num) [
    | none ↦ none
    | some got ↦ some (record got.1 {
      pages = update got.1.pages page_num (some (free_page got.1.free_head));
      free_head = page_num;
    })
  ]
