-- ===== src/FileHeader.antt =====
-- src/file_header.c and include/file_header.h: page 0 of the file.
pub mod Fields
use mini_sql.Base.{ℕ, Bool, true, false, ◌∷◌, [], List, ◌==◌, leb, ◌||◌, not, if◌then◌else◌}
use mini_sql.Base.Bytes.{Bytes, codes}
use mini_sql.Base.Result.{Result, ok, err}
use mini_sql.Record.{overwrite, slice, u32_bytes, bytes_u32}
use mini_sql.Pager.{page_size, zero_page}
use mini_sql.Expression.{Sign, same, less, greater, memcmp}

abbrev pub file_format_version : ℕ
file_format_version = 3

-- Fifteen characters and the terminating NUL.
unfoldable pub header_magic : Bytes
header_magic =
    109 ∷ 105 ∷ 110 ∷ 105 ∷ 45 ∷ 115 ∷ 113 ∷ 108 ∷ 32 ∷ 102 ∷ 111 ∷ 114 ∷ 109 ∷ 97 ∷ 116 ∷ 0 ∷ []

unfoldable pub read_field : Bytes → ℕ → ℕ
read_field page offset = bytes_u32 (slice offset 4 page)

unfoldable pub write_field : Bytes → ℕ → ℕ → Bytes
write_field page offset value = overwrite offset (u32_bytes value) page

-- The page's old bytes are cleared first, so they are no argument.
unfoldable pub file_header_initialize : (catalog_root_page_num : ℕ) → Bytes
unfolding write_field
file_header_initialize catalog_root_page_num =
    let cleared = overwrite 0 header_magic zero_page in
    let versioned = write_field cleared 16 file_format_version in
    let sized = write_field versioned 20 page_size in write_field sized 24 catalog_root_page_num

-- What is wrong with a header, with the value that the message shows.
pub data HeaderError : Type 0 where
  not_a_database : HeaderError
  other_version : ℕ → HeaderError
  other_page_size : ℕ → HeaderError
  bad_catalog_root : ℕ → HeaderError
  bad_free_head : ℕ → HeaderError

abbrev pub equal_sign : Sign → Bool
equal_sign same = true
equal_sign _ = false

unfoldable pub file_header_validate : Bytes → (num_pages : ℕ) → Result HeaderError (Unit {0})
unfolding read_field
file_header_validate page num_pages =
    let version = read_field page 16 in
    let size = read_field page 20 in
    let catalog_root = read_field page 24 in
    let free_head = read_field page 28 in
    if not (equal_sign (memcmp 16 page header_magic))
    then err not_a_database
    else if not (version == file_format_version)
    then err (other_version version)
    else if not (size == page_size)
    then err (other_page_size size)
    else if catalog_root == 0 || leb num_pages catalog_root
    then err (bad_catalog_root catalog_root)
    else if leb num_pages free_head
    then err (bad_free_head free_head)
    else ok tt

unfoldable pub file_header_catalog_root_page : Bytes → ℕ
unfolding read_field
file_header_catalog_root_page page = read_field page 24

unfoldable pub file_header_free_head : Bytes → ℕ
unfolding read_field
file_header_free_head page = read_field page 28

unfoldable pub file_header_set_free_head : Bytes → ℕ → Bytes
unfolding write_field
file_header_set_free_head page free_head = write_field page 28 free_head
