-- ===== src/AddrSpace/Tests.antt =====
-- Address spaces on small inputs.
use os161_project_c.Base.{ℕ, arith}
use os161_project_c.Segment.{Segment}
use os161_project_c.AddrSpace.{AddrSpace}
use os161_project_c.AddrSpace.Regions.{IsLaid}

abbrev part : (vaddr size permission : ℕ) → Segment
part vaddr size permission = record {
  p_type = 1;
  p_offset = 0;
  p_vaddr = vaddr;
  p_filesz = size;
  p_memsz = size;
  p_permission = permission;
  vnode = 3;
}

abbrev program : AddrSpace
program = record {
  code = part 0x40_0000 10000 5;
  data_seg = part 0x1000_0000 500 6;
  stack = part 0x7FFF_4000 49152 8;
  pt = 64;
}

program-IsLaid : IsLaid program
program-IsLaid = record {
  code_data = omega arith;
  data_stack = omega arith;
  stack_top = omega arith;
}
