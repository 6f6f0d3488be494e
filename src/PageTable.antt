-- ===== src/PageTable.antt =====
-- The two-level page table of one process: kern/vm/pt.c and kern/include/pt.h, except the two
-- functions that free it (PageTable/Destroy.antt). An array is a function of its index, and a
-- pointer to an inner table is an optional table. `room` says whether `kmalloc` finds memory,
-- `junk` is what the memory that it returns happens to hold.
pub mod View
pub mod Maps
pub mod Destroy
pub mod Frees
mod Tests
use os161_project_c.Base.{
  ℕ, ◌/◌, ◌^◌, Bool, true, false, Option, none, some, ltb, if◌then◌else◌, update, for_below,
  Outcome, ok, ◌>>=◌, ◌>>◌, kassert, deref, ℤ, minus_one, bits, page_size,
}

abbrev pub size_pt_outer : ℕ
size_pt_outer = 1024

abbrev pub size_pt_inner : ℕ
size_pt_inner = 1024

abbrev pub pfn_not_used : ℕ
pfn_not_used = 0

pub record InnerEntry : Type 0 where
  pub valid : Bool
  pub pfn : ℕ
  pub swap_offset : ℤ

pub record OuterEntry : Type 0 where
  pub valid : Bool
  pub size : ℕ
  pub pages : Option (ℕ → InnerEntry)

pub record Directory : Type 0 where
  pub size : ℕ
  pub pages : ℕ → OuterEntry

unfoldable pub get_outer_index : ℕ → ℕ
get_outer_index va = bits 22 32 va / 2 ^ 22

unfoldable pub get_inner_index : ℕ → ℕ
get_inner_index va = bits 12 22 va / 2 ^ 12

unfoldable pub get_page_offset : ℕ → ℕ
get_page_offset va = bits 0 12 va

-- What the initialising loops write.
abbrev pub blank_inner : InnerEntry
blank_inner = record { valid = false; pfn = pfn_not_used; swap_offset = minus_one }

abbrev pub blank_outer : OuterEntry → OuterEntry
blank_outer e = record e { valid = false; pages = none }

unfoldable pub pt_create : (room room' : Bool) → (junk : ℕ → OuterEntry) → Outcome Directory
pt_create room room' junk = do
  kassert room
  kassert room'
  ok (record {
    size = size_pt_outer;
    pages = for_below size_pt_outer (λ i pages. update pages i (blank_outer (junk i))) junk;
  })

unfoldable pub pt_define_inner :
    (room : Bool) → (junk : ℕ → InnerEntry) → Directory → ℕ → Outcome Directory
unfolding get_outer_index
pt_define_inner room junk pt va = do
  let index = get_outer_index va
  kassert (if (pt.pages index).valid then false else true)
  kassert room
  let table = for_below size_pt_inner (λ i pages. update pages i blank_inner) junk
  ok (record pt {
    pages =
        update pt.pages index (record { valid = true; size = size_pt_inner; pages = some table });
  })

-- The assertions at the head of the four functions below.
unfoldable pub check_indices : ℕ → Outcome (Unit {0})
unfolding get_outer_index get_inner_index get_page_offset
check_indices va = do
  kassert (ltb (get_outer_index va) size_pt_outer)
  kassert (ltb (get_inner_index va) size_pt_inner)
  kassert (ltb (get_page_offset va) page_size)

-- `pt->pages[outer].pages[inner]`
unfoldable pub read_entry : Directory → ℕ → Outcome InnerEntry
unfolding get_outer_index get_inner_index
read_entry pt va = do
  table ← deref (pt.pages (get_outer_index va)).pages
  ok (table (get_inner_index va))

unfoldable pub write_entry : Directory → ℕ → InnerEntry → Outcome Directory
unfolding get_outer_index get_inner_index
write_entry pt va e = do
  let outer = get_outer_index va
  table ← deref (pt.pages outer).pages
  ok (record pt {
    pages =
        update pt.pages outer
          (record (pt.pages outer) { pages = some (update table (get_inner_index va) e) });
  })

unfoldable pub pt_get_pa : Directory → ℕ → Outcome ℕ
unfolding check_indices read_entry
pt_get_pa pt va = do
  check_indices va
  if (pt.pages (get_outer_index va)).valid
      then (do e ← read_entry pt va; ok (if e.valid then e.pfn else pfn_not_used))
      else ok pfn_not_used

unfoldable pub pt_get_offset : Directory → ℕ → Outcome ℤ
unfolding check_indices read_entry
pt_get_offset pt va = do
  check_indices va
  if (pt.pages (get_outer_index va)).valid
      then (do e ← read_entry pt va; ok (if e.valid then e.swap_offset else minus_one))
      else ok minus_one

-- Allocates the inner table of `va` if there is none, and asserts that there is one then.
unfoldable pub ensure_inner :
    (room : Bool) → (junk : ℕ → InnerEntry) → Directory → ℕ → Outcome Directory
unfolding pt_define_inner
ensure_inner room junk pt va = do
  pt' ← (if (pt.pages (get_outer_index va)).valid then ok pt else pt_define_inner room junk pt va)
  kassert (pt'.pages (get_outer_index va)).valid
  ok pt'

unfoldable pub pt_set_pa :
    (room : Bool) → (junk : ℕ → InnerEntry) → Directory → ℕ → ℕ → Outcome Directory
pt_set_pa room junk pt va pa = do
  check_indices va
  pt' ← ensure_inner room junk pt va
  e ← read_entry pt' va
  write_entry pt' va (record e { valid = true; pfn = pa })

unfoldable pub pt_set_offset :
    (room : Bool) → (junk : ℕ → InnerEntry) → Directory → ℕ → ℤ → Outcome Directory
pt_set_offset room junk pt va offset = do
  check_indices va
  pt' ← ensure_inner room junk pt va
  e ← read_entry pt' va
  write_entry pt' va (record e { valid = true; swap_offset = offset })
