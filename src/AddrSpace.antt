-- ===== src/AddrSpace.antt =====
-- The address space of a process: kern/vm/addrspace.c and kern/include/addrspace.h, the functions
-- that work on one address space alone (Vm/Spaces.antt has those that make, copy and destroy one).
-- `pt` is the address of a page table; the three segments belong to the address space.
pub mod Regions
mod Tests
use os161_project_c.Base.{
  ℕ, ◌+◌, Bool, true, false, Option, none, some, ◌&&◌, ltb, leb, ◌==◌, if◌then◌else◌, Outcome, ok,
  ◌>>=◌, ◌>>◌, kassert,
}
use os161_project_c.Segment.{
  Segment, seg_define, seg_define_stack, pf_r, pf_w, pf_x, userstack, u32,
}

pub record AddrSpace : Type 0 where
  pub code : Segment
  pub data_seg : Segment
  pub stack : Segment
  pub pt : ℕ

-- Which of the three segments a pointer to a segment is.
pub data Region : Type 0 where
  code_region data_region stack_region : Region

abbrev pub segment : AddrSpace → Region → Segment
segment sp code_region = sp.code
segment sp data_region = sp.data_seg
segment sp stack_region = sp.stack

abbrev pub set_segment : AddrSpace → Region → Segment → AddrSpace
set_segment sp code_region s = record sp { code = s }
set_segment sp data_region s = record sp { data_seg = s }
set_segment sp stack_region s = record sp { stack = s }

-- `perm | PF_R` and so on: the three bits are distinct.
abbrev pub permission : (readable writeable executable : Bool) → ℕ
permission readable writeable executable =
    (if readable then pf_r else 0)
    + (if writeable then pf_w else 0)
    + (if executable then pf_x else 0)

unfoldable pub as_define_region :
    AddrSpace
    → (type_ offset vaddr memsize filesize : ℕ) → (readable writeable executable : Bool)
    → (seg_n v : ℕ) → Outcome (ℕ × AddrSpace)
unfolding seg_define
as_define_region sp type_ offset vaddr memsize filesize readable writeable executable seg_n v = do
  let perm = permission readable writeable executable
  kassert (ltb seg_n 2)
  let region = if seg_n == 0 then code_region else data_region
  (res, seg) ← seg_define (segment sp region) type_ offset vaddr filesize memsize perm v
  kassert (res == 0)
  ok (res, set_segment sp region seg)

abbrev pub as_prepare_load : AddrSpace → ℕ
as_prepare_load sp = 0

abbrev pub as_complete_load : AddrSpace → ℕ
as_complete_load sp = 0

-- The result, the stack pointer, and the address space.
unfoldable pub as_define_stack : AddrSpace → Outcome (ℕ × ℕ × AddrSpace)
unfolding seg_define_stack
as_define_stack sp = do
  (res, seg) ← seg_define_stack sp.stack
  kassert (res == 0)
  ok (0, userstack, record sp { stack = seg })

-- `va >= base && va <= top`
abbrev pub between : (base top va : ℕ) → Bool
between base top va = leb base va && leb va top

unfoldable pub as_get_segment : AddrSpace → ℕ → Option Region
as_get_segment sp va =
    if between sp.code.p_vaddr (u32 (sp.code.p_vaddr + sp.code.p_memsz)) va
    then some code_region
    else if between sp.data_seg.p_vaddr (u32 (sp.data_seg.p_vaddr + sp.data_seg.p_memsz)) va
    then some data_region
    else if between sp.stack.p_vaddr userstack va
    then some stack_region
    else none
