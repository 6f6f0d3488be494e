-- ===== src/Tlb/Tests.antt =====
-- The translation buffer on small inputs.
use os161_project_c.Base.{◌≡◌, none, arith, if◌then◌else◌, ◌==◌}
use os161_project_c.Tlb.{Tlb, invalid_entry, tlb_probe, remove_va}
use os161_project_c.Tlb.Replace.{IsUnique, tlb_probe-remove_va}

-- Slot 5 translates the page of 0x401000.
abbrev one_page : Tlb
one_page = record {
  entries = λ i. if i == 5 then record { hi = 0x40_1000; lo = 13824 } else invalid_entry i;
  current_victim = 60;
}

one_page-IsUnique : IsUnique one_page
one_page-IsUnique i j a b e = ground arith

-- The removal of its page.
one_page-remove_va : tlb_probe 0x40_1004 (remove_va 0x40_1004 one_page) ≡ none
one_page-remove_va = tlb_probe-remove_va one_page 0x40_1004 (omega arith) one_page-IsUnique
