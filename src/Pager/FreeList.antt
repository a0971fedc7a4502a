-- ===== src/Pager/FreeList.antt =====
-- The free list: an allocation never hands out a page in use, and no operation changes another page.
use mini_sql.Base.{
  length-replicate, ℕ, suc, ◌+◌, ◌<◌, ◌≤◌, ◌≡◌, ◌≢◌, ◌⊎◌, inl, inr, refl, sym, ap, ◌∙◌, arith, true,
  false, Option, none, some, [], ◌∷◌, ltb, leb, ◌==◌, if◌then◌else◌, length, update, Bool-cases,
  Option-cases, subst,
}
use mini_sql.Base.Bytes.{Bytes, head_byte}
use mini_sql.Schema.{u32_mod}
use mini_sql.Record.{overwrite, slice, u32_bytes, bytes_u32}
use mini_sql.Record.RoundTrip.{
  length-overwrite, slice-overwrite_self, length-u32_bytes, bytes_u32-u32_bytes,
}
use mini_sql.Pager.{
  Pager, page_size, zero_page, free_page, grow_page_cache, load_page, pager_get_page, take_free,
  pager_allocate_page, pager_free_page,
}

-- What `include/pager.h` promises of the cache: a slot for every page, and nothing resident past
-- the last page.
pub record IsCached (p : Pager) : Type 0 where
  pub slots : p.num_pages ≤ p.capacity
  pub empty : (n : ℕ) → p.num_pages ≤ n → p.pages n ≡ none

grow_page_cache-IsCached :
    (p : Pager) (needed : ℕ)
    → IsCached p
    → p.num_pages ≤ needed
    → IsCached (grow_page_cache p needed)
unfolding grow_page_cache
grow_page_cache-IsCached p needed c h = record {
  slots = ground (arith, c.slots);
  empty = λ n l. ground (arith, c.empty n l);
}

pub length-zero_page : length zero_page ≡ page_size
unfolding zero_page
length-zero_page = length-replicate {A = ℕ} page_size 0

length-free_page : (next : ℕ) → length (free_page next) ≡ page_size
unfolding free_page
length-free_page next =
    length-overwrite 4 (u32_bytes next) (overwrite 0 (255 ∷ []) zero_page)
    ∙ length-overwrite 0 (255 ∷ []) zero_page
    ∙ length-zero_page

free_page-next : (next : ℕ) → next < u32_mod → bytes_u32 (slice 4 4 (free_page next)) ≡ next
unfolding free_page overwrite u32_bytes
free_page-next next h =
    ap bytes_u32 (
      slice-overwrite_self 4 (u32_bytes next) (overwrite 0 (255 ∷ []) zero_page) (
        omega (
          arith,
          length-u32_bytes next,
          length-overwrite 0 (255 ∷ []) zero_page,
          length-zero_page,
        )))
    ∙ bytes_u32-u32_bytes next h

free_page-marked : (next : ℕ) → head_byte (free_page next) ≡ 255
unfolding free_page
free_page-marked next = unfold overwrite zero_page in refl

module _ (disk : ℕ → Bytes) where
  -- The bytes of page `n` as the program sees them, resident or not.
  unfoldable pub contents : Pager → ℕ → Bytes
  contents p n = elim (p.pages n) [
    | none ↦ if ltb n p.num_pages then disk n else zero_page
    | some page ↦ page
  ]

  -- What fetching page `n` does.
  pub record Fetched (p : Pager) (n : ℕ) (page : Bytes) (q : Pager) : Type 0 where
    pub found : page ≡ contents p n
    pub inside : n ≤ p.num_pages
    pub grown : q.num_pages ≡ (if n == p.num_pages then suc n else p.num_pages)
    pub head : q.free_head ≡ p.free_head
    pub kept : (m : ℕ) → contents q m ≡ contents p m
    pub cached : IsCached q

  grow-contents :
      (p : Pager) (needed m : ℕ) → IsCached p → contents (grow_page_cache p needed) m ≡ contents p m
  unfolding contents grow_page_cache
  grow-contents p needed m c = elim (Bool-cases (ltb m p.capacity)) [
    | inl inside ↦ ground arith
    | inr outside ↦
        let past : p.num_pages ≤ m = ground (arith, c.slots) in
        let e = c.empty m past in ground arith
  ]

  load_page-Fetched :
      (p : Pager) (n : ℕ)
      → IsCached p
      → n ≤ p.num_pages
      → n < p.capacity
      → p.pages n ≡ none
      → Fetched p n (load_page disk p n).0 (load_page disk p n).1
  unfolding contents load_page
  load_page-Fetched p n c l s e = record {
    found = ground arith;
    inside = l;
    grown = ground arith;
    head = refl;
    kept = λ m. ground arith;
    cached = record { slots = ground (arith, c.slots); empty = λ m h. ground (arith, c.empty m) };
  }

  -- The cache with room for page `n`.
  abbrev room : Pager → ℕ → Pager
  room p n = if leb p.capacity n then grow_page_cache p (n + 1) else p

  record IsReady (p : Pager) (n : ℕ) (q : Pager) : Type 0 where
    pages : q.num_pages ≡ p.num_pages
    head : q.free_head ≡ p.free_head
    slot : n < q.capacity
    kept : (m : ℕ) → contents q m ≡ contents p m
    cached : IsCached q

  room-IsReady : (p : Pager) (n : ℕ) → IsCached p → n ≤ p.num_pages → IsReady p n (room p n)
  room-IsReady p n c l = elim (Bool-cases (leb p.capacity n)) [
    | inl full ↦ rw full (record {
      pages = unfold grow_page_cache in refl;
      head = unfold grow_page_cache in refl;
      slot = unfold grow_page_cache in ground arith;
      kept = λ m. grow-contents p (n + 1) m c;
      cached = grow_page_cache-IsCached p (n + 1) c (ground (arith, c.slots));
    })
    | inr roomy ↦
        rw roomy
          (record { pages = refl; head = refl; slot = ground arith; kept = λ m. refl; cached = c })
  ]

  Fetched-ready :
      (p : Pager) (n : ℕ) {q : Pager} {page : Bytes} {r : Pager}
      → IsReady p n q
      → Fetched q n page r
      → Fetched p n page r
  Fetched-ready p n e f = record {
    found = f.found ∙ e.kept n;
    inside = omega (arith, f.inside, e.pages);
    grown = rw (sym e.pages) f.grown;
    head = f.head ∙ e.head;
    kept = λ m. f.kept m ∙ e.kept m;
    cached = f.cached;
  }

  hit-Fetched :
      (p : Pager) (n : ℕ) (page : Bytes) → IsCached p → p.pages n ≡ some page → Fetched p n page p
  unfolding contents
  hit-Fetched p n page c e =
      let in_use : n < p.num_pages = ground (arith, c.empty n) in
      record {
        found = ground arith;
        inside = omega arith;
        grown = ground arith;
        head = refl;
        kept = λ m. refl;
        cached = c;
      }

  -- A page that exists, or the next one, is fetched.
  pub pager_get_page_inside :
      (p : Pager) (n : ℕ)
      → IsCached p
      → n ≤ p.num_pages
      → (page : Bytes) × (q : Pager) × (pager_get_page disk p n ≡ some (page, q))
        × Fetched p n page q
  unfolding pager_get_page
  pager_get_page_inside p n c l =
      let r = room-IsReady p n c l in
      elim (Option-cases ((room p n).pages n)) [
        | inl e ↦ (
          (load_page disk (room p n) n).0,
          (load_page disk (room p n) n).1,
          ground arith,
          Fetched-ready p n r
              (load_page-Fetched (room p n) n r.cached (omega (arith, r.pages)) r.slot e),
        )
        | inr (page, e) ↦ (
          page,
          room p n,
          ground arith,
          Fetched-ready p n r (hit-Fetched (room p n) n page r.cached e),
        )
      ]

  abbrev FetchedBy : Pager → ℕ → Option (Bytes × Pager) → Type 0
  FetchedBy p n none = Unit {0}
  FetchedBy p n (some got) = Fetched p n got.0 got.1

  pager_get_page-Fetched :
      (p : Pager) (n : ℕ) → IsCached p → FetchedBy p n (pager_get_page disk p n)
  pager_get_page-Fetched p n c = elim (Bool-cases (ltb p.num_pages n)) [
    | inl outside ↦
        let e : pager_get_page disk p n ≡ none = unfold pager_get_page in rw outside refl in rw e tt
    | inr inside ↦ let (page, q, e, f) = pager_get_page_inside p n c (ground arith) in rw e f
  ]

  -- What an allocation gives: the page, and the pager.
  record Allocated (p : Pager) (n : ℕ) (q : Pager) : Type 0 where
    unused : (n ≡ p.num_pages) ⊎ (head_byte (contents p n) ≡ 255)
    inside : n < q.num_pages
    cached : IsCached q
    page : (m : ℕ) → contents q m ≡ (if m == n then zero_page else contents p m)

  AllocatedBy : Pager → Option (ℕ × Pager) → Type 0
  AllocatedBy p none = Unit {0}
  AllocatedBy p (some got) = Allocated p got.0 got.1

  past-zero : (p : Pager) → IsCached p → contents p p.num_pages ≡ zero_page
  unfolding contents
  past-zero p c = ground (arith, c.empty p.num_pages)

  Fetched-inside :
      (p : Pager) (n : ℕ) (page : Bytes) (q : Pager) → Fetched p n page q → n < q.num_pages
  Fetched-inside p n page q f = ground (arith, f.inside, f.grown)

  appended :
      (p : Pager) (page : Bytes) (q : Pager)
      → IsCached p
      → Fetched p p.num_pages page q
      → Allocated p p.num_pages q
  appended p page q c f = record {
    unused = inl refl;
    inside = Fetched-inside p p.num_pages page q f;
    cached = f.cached;
    page = λ m. ground (arith, f.kept m, past-zero p c);
  }

  -- Writing to a page that has been fetched.
  write_page : Pager → ℕ → Bytes → Pager
  write_page q n bytes = record q { pages = update q.pages n (some bytes) }

  write_page-IsCached :
      (q : Pager) (n : ℕ) (bytes : Bytes)
      → IsCached q
      → n < q.num_pages
      → IsCached (write_page q n bytes)
  unfolding write_page
  write_page-IsCached q n bytes c l = record {
    slots = c.slots;
    empty = λ m h. ground (arith, c.empty m h);
  }

  contents-write_page :
      (q : Pager) (n : ℕ) (bytes : Bytes) (m : ℕ)
      → contents (write_page q n bytes) m ≡ (if m == n then bytes else contents q m)
  unfolding write_page contents
  contents-write_page q n bytes m = ground arith

  reused :
      (p : Pager) (n : ℕ) (page : Bytes) (q : Pager)
      → IsCached p
      → Fetched p n page q
      → AllocatedBy p (take_free n (page, q))
  unfolding take_free AllocatedBy write_page contents
  reused p n page q c f = elim (Bool-cases (head_byte page == 255)) [
    | inl marked ↦ rw marked (record {
      unused = inr (ground (arith, f.found));
      inside = Fetched-inside p n page q f;
      cached = record {
        slots = f.cached.slots;
        empty = λ m h. ground (arith, f.cached.empty m h, Fetched-inside p n page q f);
      };
      page = λ m.
          contents-write_page q n zero_page m
          ∙ ap (λ b. if m == n then zero_page else b) (f.kept m);
    })
    | inr other ↦ rw other tt
  ]

  pager_allocate_page-Allocated :
      (p : Pager) → IsCached p → AllocatedBy p (pager_allocate_page disk p)
  unfolding pager_allocate_page AllocatedBy
  pager_allocate_page-Allocated p c = elim (Bool-cases (p.free_head == 0)) [
    | inl empty ↦
        let (page, q, e, f) = pager_get_page_inside p p.num_pages c (omega arith) in
        rw (empty, e) (appended p page q c f)
    | inr listed ↦
        rw listed
          (from_list (pager_get_page disk p p.free_head) (pager_get_page-Fetched p p.free_head c))
  ]
    where
      from_list :
          (got : Option (Bytes × Pager))
          → FetchedBy p p.free_head got
          → AllocatedBy p (elim got [ none ↦ none | some g ↦ take_free p.free_head g ])
      from_list none f = tt
      from_list (some (page, q)) f = reused p p.free_head page q c f

  -- An allocation hands out a page that was marked free or did not exist, which is then part of the
  -- database and zero-filled; a node page, whose first byte is 0 or 1, is never handed out while it
  -- is in use. No other page changes, and the cache keeps its invariant.
  pub pager_allocate_page-Fresh :
      (p : Pager) (m : ℕ) {n : ℕ} {q : Pager}
      → IsCached p
      → pager_allocate_page disk p ≡ some (n, q)
      → ((n ≡ p.num_pages) ⊎ (head_byte (contents p n) ≡ 255))
        × (n < q.num_pages)
        × (contents q m ≡ (if m == n then zero_page else contents p m))
        × IsCached q
  pager_allocate_page-Fresh p m {n} {q} c e =
      let a : AllocatedBy p (some (n, q)) =
        subst (AllocatedBy p) e (pager_allocate_page-Allocated p c) in
      unfold AllocatedBy in (a.unused, a.inside, a.page m, a.cached)

  resident :
      (s : Pager) (n : ℕ) (page : Bytes)
      → n ≤ s.num_pages
      → n < s.capacity
      → s.pages n ≡ some page
      → pager_get_page disk s n ≡ some (page, s)
  unfolding pager_get_page
  resident s n page l r e = ground arith

  -- The pager after page `n` of `q` has been freed, and then allocated again.
  abbrev freed : Pager → ℕ → Pager
  freed q n = record q { pages = update q.pages n (some (free_page q.free_head)); free_head = n }

  abbrev taken : Pager → ℕ → Pager
  taken q n = record (freed q n) {
    free_head = bytes_u32 (slice 4 4 (free_page q.free_head));
    pages = update (freed q n).pages n (some zero_page);
  }

  contents-freed : (q : Pager) (n : ℕ) → contents (freed q n) n ≡ free_page q.free_head
  unfolding contents
  contents-freed q n = ground arith

  contents-taken :
      (q : Pager) (n m : ℕ) → contents (taken q n) m ≡ (if m == n then zero_page else contents q m)
  unfolding contents
  contents-taken q n m = ground arith

  pager_free_page-freed :
      (p : Pager) (n : ℕ) (page : Bytes) (q : Pager)
      → pager_get_page disk p n ≡ some (page, q)
      → pager_free_page disk p n ≡ some (freed q n)
  unfolding pager_free_page
  pager_free_page-freed p n page q e = rw (pager_free_page, e) refl

  pager_allocate_page-taken :
      (q : Pager) (n : ℕ)
      → n ≢ 0
      → n < q.num_pages
      → IsCached q
      → pager_allocate_page disk (freed q n) ≡ some (n, taken q n)
  unfolding pager_allocate_page take_free
  pager_allocate_page-taken q n ne l c =
      let listed : (n == 0) ≡ false = ground arith in
      let hit : (n == n) ≡ true = ground arith in
      let got =
        resident (freed q n) n (free_page q.free_head) (omega arith) (omega (arith, c.slots))
          (rw hit refl) in
      let marked : (head_byte (free_page q.free_head) == 255) ≡ true =
        rw (free_page-marked q.free_head) refl in
      rw (listed, got, marked) refl

  -- A page of the database, other than the header, that is freed is the next one to be allocated;
  -- it comes back zero-filled, the free list and the number of pages are again what they were, and
  -- no other page has changed.
  pub pager_allocate_page-pager_free_page :
      (p : Pager) (n m : ℕ)
      → IsCached p
      → n < p.num_pages
      → n ≢ 0
      → p.free_head < u32_mod
      → (q : Pager) × (r : Pager) × (pager_free_page disk p n ≡ some q)
        × (head_byte (contents q n) ≡ 255)
        × (pager_allocate_page disk q ≡ some (n, r))
        × (r.free_head ≡ p.free_head)
        × (r.num_pages ≡ p.num_pages)
        × (contents r m ≡ (if m == n then zero_page else contents p m))
  pager_allocate_page-pager_free_page p n m c l ne small =
      let (page, q, e, f) = pager_get_page_inside p n c (omega arith) in
      (
        freed q n,
        taken q n,
        pager_free_page-freed p n page q e,
        ap head_byte (contents-freed q n) ∙ free_page-marked q.free_head,
        pager_allocate_page-taken q n ne (Fetched-inside p n page q f) f.cached,
        free_page-next q.free_head (rw f.head small) ∙ f.head,
        ground (arith, f.grown),
        contents-taken q n m ∙ ap (λ b. if m == n then zero_page else b) (f.kept m),
      )
