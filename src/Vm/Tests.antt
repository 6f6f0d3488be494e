-- ===== src/Vm/Tests.antt =====
-- Address spaces that are copied and destroyed, on a small machine.
use os161_project_c.Base.{
  ◌||◌, ◌⊎◌, ◌≢◌, ◌/◌, page_size, pos, ℕ, ltb, minus_one, ◌≡◌, refl, true, false, none, some, ok,
  arith, ◌==◌, if◌then◌else◌,
}
use os161_project_c.Vfs.Sample.{page_disk, blank_disk, sample_mem}
use os161_project_c.Segment.{Segment, empty_segment}
use os161_project_c.AddrSpace.{AddrSpace}
use os161_project_c.Coremap.{Frame, clean_frame, free}
use os161_project_c.Swap.{free_page}
use os161_project_c.Tlb.{invalid_entry, tlb_probe}
use os161_project_c.Tlb.Replace.{IsUnique}
use os161_project_c.Vm.Removal.{tlb_remove_by_va-removes}
use os161_project_c.PageTable.{InnerEntry, OuterEntry, Directory, blank_inner}
use os161_project_c.Vm.Machine.{KernelHeap, Machine, vm_can_sleep, tlb_remove_by_va}
use os161_project_c.Vm.Frames.Pages.{MayAllocate, Gives, page_alloc-Gives}
use os161_project_c.Vm.Spaces.{Memory, as_copy}
use os161_project_c.Vm.Spaces.Sharing.{HasMemory, Copies, as_copy-Copies}

abbrev no_table : OuterEntry
no_table = record { valid = false; size = 0; pages = none }

-- A directory of one outer entry.
abbrev small_table : Directory
small_table = record { size = 1; pages = λ n. no_table }

abbrev space : AddrSpace
space = record { code = empty_segment; data_seg = empty_segment; stack = empty_segment; pt = 96 }

-- The spaces at 640 and 768 share the page table at 96.
abbrev shared : Machine page_disk
shared = record {
  coremap = record {
    entries = λ i. clean_frame;
    n_ram_frames = 8;
    active = true;
    current_victim = 0;
  };
  ram = record { firstpaddr = 0; lastpaddr = 0 };
  stats = record { counters = λ i. 0; is_active = true };
  swap = record {
    swap_list = λ i. free_page;
    v = 1;
    times_out = 0;
    times_in = 0;
    disk = blank_disk;
  };
  tlb = record { entries = invalid_entry; current_victim = 0 };
  mem = sample_mem;
  tables = λ a. if a == 96 then some small_table else none;
  spaces = λ a. if a == 640 then some space else if a == 768 then some space else none;
  has_curproc = true;
  cur_as = 640;
  cpu_exists = true;
  spinlocks_held = 0;
  in_interrupt = false;
}

abbrev fresh : Memory
fresh = record { room = true; rest_room = true; as_at = 896; pt_at = 160; junk = λ n. no_table }

fresh-HasMemory : HasMemory page_disk fresh 640 shared space
fresh-HasMemory = record {
  room = refl;
  rest_room = refl;
  placed = ground arith;
  apart = ground arith;
  opens = refl;
}

as_copy-Copies_example :
    (m' : Machine page_disk) × (as_copy page_disk fresh 640 shared ≡ ok (0, 896, m'))
    × Copies page_disk fresh 640 shared space m'
as_copy-Copies_example = as_copy-Copies page_disk fresh 640 shared space fresh-HasMemory refl

abbrev part : (vaddr size permission : ℕ) → Segment
part vaddr size permission = record {
  p_type = 1;
  p_offset = 0;
  p_vaddr = vaddr;
  p_filesz = size;
  p_memsz = size;
  p_permission = permission;
  vnode = 3;
}

abbrev program : AddrSpace
program = record {
  code = part 0x40_0000 10000 5;
  data_seg = part 0x1000_0000 500 6;
  stack = part 0x7FFF_4000 49152 8;
  pt = 96;
}

-- The table maps the page of 0x401000 to the frame at 8192.
abbrev mapped_page : InnerEntry
mapped_page = record { valid = true; pfn = 8192; swap_offset = minus_one }

abbrev program_table : Directory
program_table = record {
  size = 1024;
  pages = λ n.
      if n == 1
      then record {
        valid = true;
        size = 1024;
        pages = some (λ i. if i == 1 then mapped_page else blank_inner);
      }
      else if (n == 64) || (n == 511)
      then record { valid = true; size = 1024; pages = some (λ i. blank_inner) }
      else no_table;
}

abbrev idle_frame : Frame
idle_frame = record { as_ptr = 0; status = free; vaddr = 0; alloc_size = 0 }

-- Frames 3 to 7 are free.
abbrev running : Machine page_disk
running = record shared {
  coremap = record {
    entries = λ i. if ltb i 3 then clean_frame else idle_frame;
    n_ram_frames = 8;
    active = true;
    current_victim = 0;
  };
  tables = λ a. if a == 96 then some program_table else none;
  spaces = λ a. if a == 640 then some program else none;
}

abbrev heap : KernelHeap
heap = record { room = true; junk = λ i. blank_inner }

running-can_sleep : vm_can_sleep page_disk running ≡ ok tt
unfolding vm_can_sleep
running-can_sleep = refl

running-MayAllocate : MayAllocate page_disk running
running-MayAllocate = record {
  active = refl;
  can_sleep = running-can_sleep;
  has_space = ground arith;
}

page_alloc-Gives_example : Gives page_disk heap 0x40_2000 running
page_alloc-Gives_example =
    page_alloc-Gives page_disk heap 0x40_2000 5 running running-MayAllocate (omega arith)
      (omega arith) refl

invalid-IsUnique : IsUnique shared.tlb
invalid-IsUnique i j a b e = ground arith

tlb_remove_by_va-removes_example :
    ((shared.cur_as ≡ 0) × (tlb_remove_by_va page_disk 0x40_1000 shared ≡ (minus_one, shared)))
    ⊎ ((shared.cur_as ≢ 0)
        × ((tlb_remove_by_va page_disk 0x40_1000 shared).0 ≡ pos 0)
        × (tlb_probe 0x40_1000 (tlb_remove_by_va page_disk 0x40_1000 shared).1.tlb ≡ none)
        × ((i : ℕ)
            → (invalid_entry i).hi / page_size ≢ 0x40_1000 / page_size
            → (tlb_remove_by_va page_disk 0x40_1000 shared).1.tlb.entries i ≡ invalid_entry i)
        × ((tlb_remove_by_va page_disk 0x40_1000 shared).1
            ≡ record shared { tlb = (tlb_remove_by_va page_disk 0x40_1000 shared).1.tlb }))
tlb_remove_by_va-removes_example =
    tlb_remove_by_va-removes page_disk 0x40_1000 shared (omega arith) invalid-IsUnique
