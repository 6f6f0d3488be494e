-- ===== src/Segment/Pages.antt =====
-- Which bytes of the file a page of a segment gets.
use Prim.Native.Nat.{min}
use os161_project_c.Base.{
  ℕ, ◌+◌, ◌-◌, ◌*◌, ◌%◌, ◌^◌, ◌≤◌, ◌<◌, ◌≡◌, ◌≢◌, ◌⊎◌, refl, false, Bool-cases, inl, inr, ltb, ◌==◌,
  if◌then◌else◌, ok, panic, page_size, lt→ltb, arith,
}
use os161_project_c.Segment.{
  Segment, Plan, page_count, page_number, first_page, last_page, middle_page, load_plan,
}

-- A segment that an ELF header may describe: it ends in user space, and its file part is no longer
-- than its memory part.
pub record IsLoadable (seg : Segment) : Type 0 where
  pub user : seg.p_vaddr + seg.p_memsz ≤ 2 ^ 31
  pub file_fits : seg.p_filesz ≤ seg.p_memsz
  pub offset_fits : seg.p_offset + seg.p_filesz < 2 ^ 32

-- An address of the segment whose place in its page is not below the segment's own.
pub record IsInside (seg : Segment) (va : ℕ) : Type 0 where
  pub above : seg.p_vaddr ≤ va
  pub below : va < seg.p_vaddr + seg.p_memsz
  pub place : seg.p_vaddr % page_size ≤ va % page_size

-- The plan for the page of `va`: the page gets the bytes of the file part that fall into it. The
-- first is the segment's byte number `from`, at place `at` of the page.
pub record Loads (seg : Segment) (va pa : ℕ) (plan : Plan) : Type 0 where
  pub from : ℕ
  pub at : ℕ
  pub is_first : (at ≡ 0) ⊎ (from ≡ 0)
  pub lines_up : seg.p_vaddr + from ≡ va - va % page_size + at
  pub length : plan.read_len ≡ min (seg.p_filesz - from) (page_size - at)
  pub dest : plan.dest_paddr ≡ pa + at
  pub source : plan.read_len ≢ 0 → plan.file_offset ≡ seg.p_offset + from
  pub unchanged : plan.filesz ≡ seg.p_filesz

module _ {seg : Segment} {va : ℕ} (pa : ℕ) (loadable : IsLoadable seg)
    (inside : IsInside seg va) where
  enough_pages : page_number seg va < page_count seg va
  enough_pages = omega arith

  no_clamp : ltb (page_count seg va * page_size % 2 ^ 32) seg.p_filesz ≡ false
  no_clamp = ground (arith, loadable.user)

  first-Loads : page_number seg va ≡ 0 → Loads seg va pa (first_page seg seg.p_filesz pa)
  unfolding first_page
  first-Loads zero = record {
    from = 0;
    at = seg.p_vaddr % page_size;
    is_first = inr refl;
    lines_up = omega arith;
    length = ground arith;
    dest = omega arith;
    source = λ _. omega arith;
    unchanged = refl;
  }

  last-Loads :
      page_number seg va ≢ 0
      → page_number seg va ≡ page_count seg va - 1
      → Loads seg va pa (last_page seg (page_count seg va) seg.p_filesz pa)
  unfolding last_page
  last-Loads later last = record {
    from = page_number seg va * page_size - seg.p_vaddr % page_size;
    at = 0;
    is_first = inl refl;
    lines_up = omega arith;
    length = ground (arith, loadable.user, loadable.file_fits);
    dest = omega arith;
    source = λ some_bytes. ground (arith, loadable.user, loadable.offset_fits);
    unchanged = refl;
  }

  middle-Loads :
      page_number seg va ≢ 0
      → Loads seg va pa (middle_page seg (page_number seg va) seg.p_filesz pa)
  unfolding middle_page
  middle-Loads later = record {
    from = page_number seg va * page_size - seg.p_vaddr % page_size;
    at = 0;
    is_first = inl refl;
    lines_up = omega arith;
    length = ground (arith, loadable.user, loadable.file_fits);
    dest = omega arith;
    source = λ some_bytes. ground (arith, loadable.user, loadable.offset_fits);
    unchanged = refl;
  }

  plan-Loads : Loads seg va pa (
      if page_number seg va == 0
      then first_page seg seg.p_filesz pa
      else if page_number seg va == page_count seg va - 1
      then last_page seg (page_count seg va) seg.p_filesz pa
      else middle_page seg (page_number seg va) seg.p_filesz pa)
  plan-Loads = elim (Bool-cases (page_number seg va == 0)) [
    | inl first ↦ rw first (first-Loads (ground arith))
    | inr later ↦ elim (Bool-cases (page_number seg va == page_count seg va - 1)) [
      | inl last ↦ rw (later, last) (last-Loads (ground arith) (ground arith))
      | inr middle ↦ rw (later, middle) (middle-Loads (ground arith))
    ]
  ]

  -- For an address of a loadable segment whose place in its page is not below the segment's own
  -- place in its first page, the plan succeeds: the page gets exactly the bytes of the file part
  -- that fall into it, each at its own address, and the recorded file size stays.
  pub load_plan-Loads : (plan : Plan) × (load_plan seg va pa ≡ ok plan) × Loads seg va pa plan
  unfolding load_plan
  load_plan-Loads = (_, rw (no_clamp, lt→ltb _ _ enough_pages), plan-Loads)

-- For a loadable segment that begins and ends at a page border, the first address past it stops
-- the kernel.
pub load_plan-past_end :
    (seg : Segment) (pa : ℕ)
    → IsLoadable seg
    → seg.p_vaddr % page_size ≡ 0
    → seg.p_memsz % page_size ≡ 0
    → load_plan seg (seg.p_vaddr + seg.p_memsz) pa ≡ panic
unfolding load_plan
load_plan-past_end seg pa loadable base whole =
    let beyond : ltb (page_number seg (seg.p_vaddr + seg.p_memsz))
          (page_count seg (seg.p_vaddr + seg.p_memsz))
        ≡ false =
      ground (arith, loadable.user) in
    rw beyond

-- A loadable segment that is no longer than a page and crosses a page border stops the kernel when
-- the first byte of its second page is touched: the number of pages is computed from the place of
-- the access in its page, not from that of the segment.
pub load_plan-short_crossing :
    (seg : Segment) (pa : ℕ)
    → IsLoadable seg
    → seg.p_memsz ≤ page_size
    → page_size < seg.p_vaddr % page_size + seg.p_memsz
    → load_plan seg (seg.p_vaddr - seg.p_vaddr % page_size + page_size) pa ≡ panic
unfolding load_plan
load_plan-short_crossing seg pa loadable short crossing =
    let va = seg.p_vaddr - seg.p_vaddr % page_size + page_size in
    let beyond : ltb (page_number seg va) (page_count seg va) ≡ false =
      ground (arith, loadable.user) in
    rw beyond
