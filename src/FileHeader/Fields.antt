-- ===== src/FileHeader/Fields.antt =====
-- The header's fields: what is written is read back, and a header that is written is accepted.
use mini_sql.Base.{ℕ, ◌+◌, ◌<◌, ◌≤◌, ◌≡◌, ◌≢◌, refl, ap, ◌∙◌, arith, ◌∷◌, [], length, take, ◌++◌}
use mini_sql.Base.Bytes.{Bytes, codes}
use mini_sql.Schema.{u32_mod}
use mini_sql.Record.{overwrite, slice, u32_bytes, bytes_u32}
use mini_sql.Record.RoundTrip.{
  length-overwrite, slice-overwrite_self, length-u32_bytes, bytes_u32-u32_bytes,
}
use mini_sql.Pager.{page_size, zero_page}
use mini_sql.Pager.FreeList.{length-zero_page}
use mini_sql.FileHeader.{
  header_magic, file_format_version, read_field, write_field, file_header_initialize,
  file_header_set_free_head,
}

length-write_field : (page : Bytes) (o v : ℕ) → length (write_field page o v) ≡ length page
unfolding write_field
length-write_field page o v = length-overwrite o (u32_bytes v) page

pub read_field-write_field :
    (page : Bytes) (o v : ℕ)
    → v < u32_mod
    → o + 4 ≤ length page
    → read_field (write_field page o v) o ≡ v
unfolding read_field write_field
read_field-write_field page o v h fits =
    ap bytes_u32 (
      rw (length-u32_bytes v) at
        (slice-overwrite_self o (u32_bytes v) page (omega (arith, length-u32_bytes v))))
    ∙ bytes_u32-u32_bytes v h

-- A header as it is written for a catalog root, with the free list's head set after that.
abbrev pub header : ℕ → ℕ → Bytes
header root head = file_header_set_free_head (file_header_initialize root) head

abbrev magic_page : Bytes
magic_page = overwrite 0 header_magic zero_page

length-magic_page : length magic_page ≡ page_size
length-magic_page = length-overwrite 0 header_magic zero_page ∙ length-zero_page

module _ (root head : ℕ) (root_small : root < u32_mod) (head_small : head < u32_mod) where
  abbrev versioned : Bytes
  versioned = write_field magic_page 16 file_format_version

  abbrev sized : Bytes
  sized = write_field versioned 20 page_size

  abbrev rooted : Bytes
  rooted = write_field sized 24 root

  header_lem : header root head ≡ write_field rooted 28 head
  unfolding file_header_set_free_head file_header_initialize
  header_lem = refl

  length-versioned : length versioned ≡ page_size
  length-versioned = length-write_field magic_page 16 file_format_version ∙ length-magic_page

  length-sized : length sized ≡ page_size
  length-sized = length-write_field versioned 20 page_size ∙ length-versioned

  length-rooted : length rooted ≡ page_size
  length-rooted = length-write_field sized 24 root ∙ length-sized

  pub length-header : length (header root head) ≡ page_size
  length-header = rw header_lem (length-write_field rooted 28 head ∙ length-rooted)

-- What page 0 of a file of `num_pages` pages has to hold, written out.
abbrev pub IsHeader : Bytes → ℕ → Type 0
IsHeader page num_pages =
    (take 16 page ≡ codes "mini-sql format" ++ (0 ∷ []))
    × (bytes_u32 (slice 16 4 page) ≡ 3)
    × (bytes_u32 (slice 20 4 page) ≡ 4096)
    × (bytes_u32 (slice 24 4 page) ≢ 0)
    × (bytes_u32 (slice 24 4 page) < num_pages)
    × (bytes_u32 (slice 28 4 page) < num_pages)
