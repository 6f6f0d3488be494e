-- ===== src/Segment.antt =====
-- A part of a program in memory and the page that is loaded for it: kern/vm/segments.c and
-- kern/include/segments.h. All values are 32-bit and wrap around; a vnode is a number, 0 for NULL.
pub mod Pages
pub mod Load
pub mod Define
mod Tests
use os161_project_c.Base.{
  ℕ, ◌+◌, ◌-◌, ◌*◌, ◌/◌, ◌%◌, ◌^◌, Bool, true, false, not, ltb, ◌==◌, if◌then◌else◌, Outcome, ok,
  ◌>>=◌, ◌>>◌, kassert, bits, page_size, page_frame,
}
use os161_project_c.Stats.{
  Statistics, increment_statistics, page_fault_zero, page_fault_disk, elf_file_read,
}
use os161_project_c.Vfs.{Vfs, Bytes, copy_in}

pub record Segment : Type 0 where
  pub p_type : ℕ
  pub p_offset : ℕ
  pub p_vaddr : ℕ
  pub p_filesz : ℕ
  pub p_memsz : ℕ
  pub p_permission : ℕ
  pub vnode : ℕ

abbrev pub pt_load : ℕ
pt_load = 1

-- `PF_X`, `PF_W`, `PF_R` are ELF's bits; `PF_S` marks the stack.
abbrev pub pf_x : ℕ
pf_x = 1

abbrev pub pf_w : ℕ
pf_w = 2

abbrev pub pf_r : ℕ
pf_r = 4

abbrev pub pf_s : ℕ
pf_s = 8

abbrev pub userstack : ℕ
userstack = 0x8000_0000

abbrev pub vmc1_stackpages : ℕ
vmc1_stackpages = 12

abbrev pub enoexec : ℕ
enoexec = 13

abbrev pub u32 : ℕ → ℕ
u32 x = x % 2 ^ 32

abbrev pub sub32 : ℕ → ℕ → ℕ
sub32 a b = (a + 2 ^ 32 - b) % 2 ^ 32

abbrev pub empty_segment : Segment
empty_segment = record {
  p_type = 0;
  p_offset = 0;
  p_vaddr = 0;
  p_filesz = 0;
  p_memsz = 0;
  p_permission = 0;
  vnode = 0;
}

-- `room` says whether `kmalloc` finds memory.
unfoldable pub seg_create : (room : Bool) → Outcome Segment
seg_create room = do kassert room; ok empty_segment

-- The assertions of `seg_define` and `seg_define_stack`: the segment is still as it was created.
unfoldable pub check_unused : Segment → Outcome (Unit {0})
check_unused seg = do
  kassert (seg.p_type == 0)
  kassert (seg.p_offset == 0)
  kassert (seg.p_vaddr == 0)
  kassert (seg.p_filesz == 0)
  kassert (seg.p_memsz == 0)
  kassert (seg.p_permission == 0)
  kassert (seg.vnode == 0)

unfoldable pub seg_define :
    Segment → (p_type p_offset p_vaddr p_filesz p_memsz p_permission v : ℕ) → Outcome (ℕ × Segment)
unfolding check_unused
seg_define seg p_type p_offset p_vaddr p_filesz p_memsz p_permission v = do
  check_unused seg
  ok (
    0,
    record {
      p_type = p_type;
      p_offset = p_offset;
      p_vaddr = p_vaddr;
      p_filesz = p_filesz;
      p_memsz = p_memsz;
      p_permission = p_permission;
      vnode = v;
    },
  )

unfoldable pub seg_define_stack : Segment → Outcome (ℕ × Segment)
unfolding check_unused
seg_define_stack seg = do
  check_unused seg
  ok (
    0,
    record {
      p_type = pt_load;
      p_offset = 0;
      p_vaddr = userstack - vmc1_stackpages * page_size;
      p_filesz = 0;
      p_memsz = vmc1_stackpages * page_size;
      p_permission = pf_s;
      vnode = 0;
    },
  )

unfoldable pub seg_copy : (room : Bool) → Segment → Outcome (ℕ × Segment)
unfolding seg_create seg_define
seg_copy room old = do
  newps ← seg_create room
  (result, made) ←
      seg_define newps old.p_type old.p_offset old.p_vaddr old.p_filesz old.p_memsz old.p_permission
        old.vnode
  kassert (result == 0)
  ok (0, made)

-- Where a page's bytes come from and go to; `filesz` is the segment's file size after the check
-- against its memory size.
pub record Plan : Type 0 where
  pub dest_paddr : ℕ
  pub read_len : ℕ
  pub file_offset : ℕ
  pub filesz : ℕ

abbrev pub page_count : Segment → ℕ → ℕ
page_count seg va = page_frame (u32 (u32 (seg.p_memsz + bits 0 12 va) + page_size - 1)) / page_size

abbrev pub page_number : Segment → ℕ → ℕ
page_number seg va = sub32 va (page_frame seg.p_vaddr) / page_size

unfoldable pub first_page : (seg : Segment) → (filesz pa : ℕ) → Plan
first_page seg filesz pa =
    let vbaseoffset = bits 0 12 seg.p_vaddr in
    record {
      dest_paddr = pa + vbaseoffset;
      read_len = if ltb filesz (page_size - vbaseoffset) then filesz else page_size - vbaseoffset;
      file_offset = seg.p_offset;
      filesz = filesz;
    }

unfoldable pub last_page : (seg : Segment) → (npages filesz pa : ℕ) → Plan
last_page seg npages filesz pa =
    let voffset = sub32 ((npages - 1) * page_size) (bits 0 12 seg.p_vaddr) in
    record {
      dest_paddr = pa;
      read_len = if ltb voffset filesz then filesz - voffset else 0;
      file_offset = if ltb voffset filesz then u32 (seg.p_offset + voffset) else filesz;
      filesz = filesz;
    }

unfoldable pub middle_page : (seg : Segment) → (page_index filesz pa : ℕ) → Plan
middle_page seg page_index filesz pa =
    let vbaseoffset = bits 0 12 seg.p_vaddr in
    let start = sub32 (page_index * page_size) vbaseoffset in
    let past = sub32 ((page_index + 1) * page_size) vbaseoffset in
    let from_file = sub32 (u32 (seg.p_offset + page_index * page_size)) vbaseoffset in
    record {
      dest_paddr = pa;
      read_len =
          if ltb past filesz then page_size else if ltb filesz start then 0 else filesz - start;
      file_offset =
          if ltb past filesz then from_file else if ltb filesz start then filesz else from_file;
      filesz = filesz;
    }

-- The part of `seg_load_page` before the page is touched.
unfoldable pub load_plan : Segment → (va pa : ℕ) → Outcome Plan
load_plan seg va pa = do
  let npages = page_count seg va
  let whole = u32 (npages * page_size)
  let filesz = if ltb whole seg.p_filesz then whole else seg.p_filesz
  let page_index = page_number seg va
  kassert (ltb page_index npages)
  ok (
      if page_index == 0
      then first_page seg filesz pa
      else if page_index == npages - 1
      then last_page seg npages filesz pa
      else middle_page seg page_index filesz pa)

-- The counters of a page that is loaded.
unfoldable pub count_load : (read_len : ℕ) → Statistics → Outcome Statistics
count_load read_len stats =
    if read_len == 0 then increment_statistics page_fault_zero stats else (do
      stats' ← increment_statistics elf_file_read stats
      increment_statistics page_fault_disk stats')

-- The result, the segment, the memory and the counters.
unfoldable pub seg_load_page :
    (vfs : Vfs)
    → vfs.Disk
    → Segment
    → (va pa : ℕ) → Bytes
    → Statistics
    → Outcome (ℕ × Segment × Bytes × Statistics)
unfolding load_plan count_load
seg_load_page vfs disk seg va pa mem stats = do
  kassert (not (seg.vnode == 0))
  plan ← load_plan seg va pa
  kassert (ltb 0 pa)
  let zeroed = copy_in mem pa page_size (λ i. 0)
  stats' ← count_load plan.read_len stats
  let got = vfs.vop_read disk seg.vnode plan.file_offset plan.read_len
  let loaded = copy_in zeroed plan.dest_paddr (plan.read_len - got.resid) got.bytes
  let seg' = record seg { p_filesz = plan.filesz }
  ok (
    if not (got.result == 0) then got.result else if got.resid == 0 then 0 else enoexec,
    seg',
    loaded,
    stats',
  )
