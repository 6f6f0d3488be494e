-- ===== src/Segment/Tests.antt =====
-- Segments on small inputs.
use os161_project_c.Base.{◌≡◌, refl, ok, arith, true}
use os161_project_c.Vfs.Sample.{page_disk, blank_disk, sample_mem}
use os161_project_c.Stats.{Statistics}
use os161_project_c.Segment.{
  Segment, Plan, load_plan, middle_page, seg_define, seg_copy, empty_segment,
}
use os161_project_c.Segment.Pages.{IsLoadable, IsInside, Loads, load_plan-Loads}
use os161_project_c.Segment.Load.{FullLoad, seg_load_page-FullLoad}
use os161_project_c.Segment.Define.{seg_copy-same}

-- Three pages from the middle of a page on, with a file part of 9000 bytes.
abbrev text : Segment
text = record {
  p_type = 1;
  p_offset = 256;
  p_vaddr = 0x40_0100;
  p_filesz = 9000;
  p_memsz = 10000;
  p_permission = 5;
  vnode = 3;
}

-- 1024 bytes that begin 512 bytes before the end of a page.
abbrev crossing : Segment
crossing = record {
  p_type = 1;
  p_offset = 0;
  p_vaddr = 0x40_0E00;
  p_filesz = 1024;
  p_memsz = 1024;
  p_permission = 6;
  vnode = 3;
}

abbrev stats0 : Statistics
stats0 = record { counters = λ i. 0; is_active = true }

text-IsLoadable : IsLoadable text
text-IsLoadable = record { user = omega arith; file_fits = omega arith; offset_fits = omega arith }

text-IsInside : IsInside text 0x40_1200
text-IsInside = record { above = omega arith; below = omega arith; place = omega arith }

load_plan-Loads_example :
    (plan : Plan) × (load_plan text 0x40_1200 12288 ≡ ok plan) × Loads text 0x40_1200 12288 plan
load_plan-Loads_example = load_plan-Loads 12288 text-IsLoadable text-IsInside

-- The plan of the second page of `text`: a whole page from offset 256 + 3840 of the file.
abbrev second_page : Plan
second_page = record { dest_paddr = 12288; read_len = 4096; file_offset = 4096; filesz = 9000 }

second_page-load_plan : load_plan text 0x40_1200 12288 ≡ ok second_page
unfolding load_plan middle_page
second_page-load_plan = refl

seg_load_page-FullLoad_example :
    FullLoad page_disk blank_disk text 0x40_1200 12288 sample_mem stats0 second_page
seg_load_page-FullLoad_example =
    seg_load_page-FullLoad page_disk blank_disk text 0x40_1200 12288 sample_mem stats0 second_page
      second_page-load_plan text-IsLoadable text-IsInside (ground arith) (omega arith) refl refl

text-seg_define : seg_define empty_segment 1 256 0x40_0100 9000 10000 5 3 ≡ ok (0, text)
unfolding seg_define
text-seg_define = refl

seg_copy-same_example : seg_copy true text ≡ ok (0, text)
seg_copy-same_example = seg_copy-same text
