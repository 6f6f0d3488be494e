-- ===== src/AddrSpace/Regions.antt =====
-- Which segment of an address space an address belongs to.
use os161_project_c.Base.{ℕ, ◌+◌, ◌≤◌, ◌<◌, ◌≡◌, some, ◌↔◌, arith}
use os161_project_c.Segment.{userstack}
use os161_project_c.AddrSpace.{
  AddrSpace, Region, code_region, data_region, stack_region, segment, as_get_segment,
}

-- Code, data and stack lie in this order in user space, with a gap between each two.
pub record IsLaid (sp : AddrSpace) : Type 0 where
  pub code_data : sp.code.p_vaddr + sp.code.p_memsz < sp.data_seg.p_vaddr
  pub data_stack : sp.data_seg.p_vaddr + sp.data_seg.p_memsz < sp.stack.p_vaddr
  pub stack_top : sp.stack.p_vaddr ≤ userstack

-- One past the last address of a region.
abbrev pub top : AddrSpace → Region → ℕ
top sp code_region = sp.code.p_vaddr + sp.code.p_memsz
top sp data_region = sp.data_seg.p_vaddr + sp.data_seg.p_memsz
top sp stack_region = userstack

-- An address belongs to a region exactly if it is not below the region's first address and not above
-- the one past its last, where code, data and stack lie in this order with a gap between each two.
pub as_get_segment_iff :
    (sp : AddrSpace) (va : ℕ) (r : Region)
    → IsLaid sp
    → (as_get_segment sp va ≡ some r) ↔ (((segment sp r).p_vaddr ≤ va) × (va ≤ top sp r))
unfolding as_get_segment
as_get_segment_iff sp va code_region laid =
    let a = laid.code_data in let b = laid.data_stack in let c = laid.stack_top in ground arith
as_get_segment_iff sp va data_region laid =
    let a = laid.code_data in let b = laid.data_stack in let c = laid.stack_top in ground arith
as_get_segment_iff sp va stack_region laid =
    let a = laid.code_data in let b = laid.data_stack in let c = laid.stack_top in ground arith
