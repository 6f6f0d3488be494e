-- ===== src/PageTable/Destroy.antt =====
-- The two functions of kern/vm/pt.c that free a page table, over the frames that they give back.
-- Inner and outer tables are blocks of whole pages, so kfree of one is free_kpages of its address,
-- which is an argument. The directory itself is a part of a page, and its kfree is left out.
use os161_project_c.Base.{
  ℕ, Bool, true, false, not, ◌&&◌, ◌==◌, none, some, if◌then◌else◌, Outcome, ok, ◌>>=◌, ◌>>◌,
  kassert, deref, for_each, pos, ◌==ℤ◌,
}
use os161_project_c.PageTable.{InnerEntry, OuterEntry, Directory}
use os161_project_c.Coremap.{Coremap, page_free, free_kpages}

-- The loop body: every entry in use gives its frame back, unless its offset is 1.
unfoldable pub free_entry : InnerEntry → Coremap → Outcome Coremap
free_entry e c = if e.valid && not (e.swap_offset ==ℤ pos 1) then page_free e.pfn c else ok c

unfoldable pub pt_destroy_inner : (at : ℕ) → OuterEntry → Coremap → Outcome Coremap
pt_destroy_inner at o c = do
  pages ← deref o.pages
  kassert (not (o.size == 0))
  kassert o.valid
  c1 ← for_each o.size (λ i c'. free_entry (pages i) c') c
  free_kpages at c1

abbrev pub has_pages : OuterEntry → Bool
has_pages o = elim o.pages [ none ↦ false | some _ ↦ true ]

-- The addresses of the tables' memory.
pub record Blocks : Type 0 where
  pub inner_at : ℕ → ℕ
  pub outer_at : ℕ

unfoldable pub pt_destroy : Blocks → Directory → Coremap → Outcome Coremap
pt_destroy at pt c = do
  c1 ←
      for_each pt.size
        (λ i c'.
          if has_pages (pt.pages i) && (pt.pages i).valid
          then pt_destroy_inner (at.inner_at i) (pt.pages i) c'
          else ok c')
        c
  free_kpages at.outer_at c1
