-- ===== src/Segment/Load.antt =====
-- What `seg_load_page` leaves in memory.
use mathlib.Core.Path.{subst}
use os161_project_c.Base.{
  ℕ, ◌+◌, ◌-◌, ◌<◌, ◌≡◌, ◌≢◌, true, false, Bool-cases, inl, inr, not, ltb, in_run, ◌==◌,
  if◌then◌else◌, ok, Ensures-ok, page_size, arith,
}
use os161_project_c.Stats.{Statistics, page_fault_zero, page_fault_disk, elf_file_read}
use os161_project_c.Stats.Growth.{Grows, Grows-add, Grows-of, unit, increment-Grows}
use os161_project_c.Vfs.{Vfs, Bytes, copy_in}
use os161_project_c.Segment.{Segment, Plan, load_plan, count_load, seg_load_page}
use os161_project_c.Segment.Pages.{IsLoadable, IsInside, Loads, load_plan-Loads}
use os161_project_c.Swap.Slots.{increment_statistics-ok}

-- What a load of `n` bytes counts.
abbrev pub load_counts : ℕ → ℕ → ℕ
load_counts n i =
    if n == 0 then unit page_fault_zero i else unit elf_file_read i + unit page_fault_disk i

count_load-ok :
    (n : ℕ) (s : Statistics)
    → (s' : Statistics) × (count_load n s ≡ ok s') × Grows (load_counts n) s s'
unfolding count_load
count_load-ok n s =
    let (s1, zero) = increment_statistics-ok page_fault_zero s (omega arith) in
    let (s2, elf) = increment_statistics-ok elf_file_read s (omega arith) in
    let (s3, disk) = increment_statistics-ok page_fault_disk s2 (omega arith) in
    elim (Bool-cases (n == 0)) [
      | inl none_read ↦ (
        s1,
        rw none_read zero,
        Grows-of (λ i ne. rw none_read) (Ensures-ok (increment-Grows page_fault_zero s) zero),
      )
      | inr some_read ↦ (
        s3,
        rw (some_read, elf) disk,
        Grows-of (λ i ne. rw some_read)
            (Grows-add (Ensures-ok (increment-Grows elf_file_read s) elf)
              (Ensures-ok (increment-Grows page_fault_disk s2) disk)),
      )
    ]

-- The page at `pa` after a complete read of `b`.
pub record Loaded (mem : Bytes) (pa : ℕ) (plan : Plan) (b mem' : Bytes) : Type 0 where
  pub page :
      (j : ℕ)
      → j < page_size
      → mem' (pa + j) ≡ (
          if in_run plan.dest_paddr plan.read_len (pa + j) then b (pa + j - plan.dest_paddr) else 0)
  pub outside : (a : ℕ) → in_run pa page_size a ≡ false → mem' a ≡ mem a

load-Loaded :
    {seg : Segment} {va pa : ℕ} {plan : Plan} (mem b : Bytes)
    → Loads seg va pa plan
    → Loaded mem pa plan b
        (copy_in (copy_in mem pa page_size (λ i. 0)) plan.dest_paddr plan.read_len b)
unfolding copy_in
load-Loaded mem b l =
    let dest = l.dest in
    let length = l.length in
    record { page = λ j small. ground arith; outside = λ a out. ground arith }

module _ (vfs : Vfs) (disk : vfs.Disk) (seg : Segment) (va pa : ℕ) (mem : Bytes)
    (stats : Statistics) where
  planned-Loads :
      (plan : Plan)
      → load_plan seg va pa ≡ ok plan
      → IsLoadable seg
      → IsInside seg va
      → Loads seg va pa plan
  planned-Loads plan planned loadable inside =
      let (plan', done, l) = load_plan-Loads pa loadable inside in
      let same : plan' ≡ plan = ground (arith, done, planned) in subst (Loads seg va pa) same l

  -- What the call leaves when the file delivers all that it is asked for.
  pub record FullLoad (plan : Plan) : Type 0 where
    pub after : Bytes
    pub counted : Statistics
    pub returns : seg_load_page vfs disk seg va pa mem stats ≡ ok (0, seg, after, counted)
    pub grown : Grows (load_counts plan.read_len) stats counted
    pub planned : Loads seg va pa plan
    pub loaded :
        Loaded mem pa plan (vfs.vop_read disk seg.vnode plan.file_offset plan.read_len).bytes after

  -- For an address of a loadable segment with a file, whose place in its page is not below the
  -- segment's own place in its first page, and a frame that is not frame 0, where the file delivers
  -- all that it is asked for: `seg_load_page` returns 0, the page holds the bytes of the file part
  -- that fall into it, each at its own address, and zeros around them, memory outside the page is
  -- as before, and so is the segment.
  pub seg_load_page-FullLoad :
      (plan : Plan)
      → load_plan seg va pa ≡ ok plan
      → IsLoadable seg
      → IsInside seg va
      → seg.vnode ≢ 0
      → 0 < pa
      → (vfs.vop_read disk seg.vnode plan.file_offset plan.read_len).result ≡ 0
      → (vfs.vop_read disk seg.vnode plan.file_offset plan.read_len).resid ≡ 0
      → FullLoad plan
  unfolding seg_load_page
  seg_load_page-FullLoad plan planned loadable inside has_file frame good whole =
      let l = planned-Loads plan planned loadable inside in
      let (stats', counted, grown) = count_load-ok plan.read_len stats in
      let file : not (seg.vnode == 0) ≡ true = ground arith in
      let less : plan.read_len - 0 ≡ plan.read_len = omega arith in
      let above : ltb 0 pa ≡ true = ground arith in
      record {
        after =
            copy_in (copy_in mem pa page_size (λ i. 0)) plan.dest_paddr plan.read_len
              (vfs.vop_read disk seg.vnode plan.file_offset plan.read_len).bytes;
        counted = stats';
        grown = grown;
        planned = l;
        returns = rw (file, planned, above, counted, good, whole, less, l.unchanged);
        loaded = load-Loaded mem _ l;
      }
