-- ===== src/PageTable/Tests.antt =====
-- Page tables on small inputs.
use os161_project_c.Coremap.{Coremap, clean_frame, dirty, fixed}
use os161_project_c.Ram.{mips_kseg0}
use os161_project_c.PageTable.Destroy.{pt_destroy_inner}
use os161_project_c.PageTable.Frees.{NoneFixed, GivesAll, pt_destroy_inner-GivesAll}
use os161_project_c.Base.{
  page_size, ◌*◌, ◌+◌, some, if◌then◌else◌, ◌==◌, ℕ, ◌≡◌, refl, ok, pos, minus_one, true, false,
  none, arith,
}
use os161_project_c.PageTable.{InnerEntry, OuterEntry, Directory, blank_inner, pt_set_pa}
use os161_project_c.PageTable.View.{IsWf}
use os161_project_c.PageTable.Maps.{SetsPa, pt_set_pa-maps}

abbrev no_table : OuterEntry
no_table = record { valid = false; size = 0; pages = none }

abbrev empty_table : Directory
empty_table = record { size = 1024; pages = λ n. no_table }

empty_table-IsWf : IsWf empty_table
empty_table-IsWf = record {
  sound = λ n l. record { has_table = λ live. cc; unused = λ i lt free. refl };
}

pt_set_pa-maps_example :
    (pt' : Directory) × (pt_set_pa true (λ i. blank_inner) empty_table 4198400 12288 ≡ ok pt')
    × SetsPa empty_table 4198400 12288 pt'
pt_set_pa-maps_example =
    pt_set_pa-maps (λ i. blank_inner) 4198400 12288 empty_table-IsWf (omega arith)

-- Entry 1 is in memory in frame 2, entry 2 in the swap file at offset 8192.
abbrev two_pages : ℕ → InnerEntry
two_pages i =
    if i == 1
    then record { valid = true; pfn = 8192; swap_offset = minus_one }
    else if i == 2
    then record { valid = true; pfn = 0; swap_offset = pos 8192 }
    else blank_inner

abbrev four_entries : OuterEntry
four_entries = record { valid = true; size = 4; pages = some two_pages }

-- Frame 0 is clean, and a block of four frames from frame 4 on is the kernel's.
abbrev user_frames : Coremap
user_frames = record {
  entries = λ i.
      if i == 0
      then clean_frame
      else if i == 4
      then record { as_ptr = 0; status = fixed; vaddr = 0; alloc_size = 4 }
      else record { as_ptr = 64; status = dirty; vaddr = 4198400; alloc_size = 1 };
  n_ram_frames = 8;
  active = true;
  current_victim = 0;
}

two_pages-NoneFixed : NoneFixed 4 two_pages user_frames
two_pages-NoneFixed j l back = ground arith

pt_destroy_inner-GivesAll_example :
    (c' : Coremap) × (pt_destroy_inner (4 * page_size + mips_kseg0) four_entries user_frames
      ≡ ok c')
    × GivesAll 4 two_pages 4 4 user_frames c'
pt_destroy_inner-GivesAll_example =
    pt_destroy_inner-GivesAll 4 four_entries two_pages user_frames refl (ground arith) refl
      two_pages-NoneFixed refl (omega arith) refl
