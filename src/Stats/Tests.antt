-- ===== src/Stats/Tests.antt =====
-- The counters on a small input.
use os161_project_c.Base.{refl, true, if◌then◌else◌, ◌==◌, arith}
use os161_project_c.Stats.{Statistics}
use os161_project_c.Stats.Growth.{IsBalanced, GrowsEvenly}

-- Three faults: two filled free slots, one replaced an entry; a reload, a zeroed page and a page
-- from the program's file.
abbrev three_faults : Statistics
three_faults = record {
  counters = λ i.
      if i == 0
      then 3
      else if i == 1
      then 2
      else if i == 2
      then 1
      else if i == 4
      then 1
      else if i == 5
      then 1
      else if i == 6
      then 1
      else if i == 7
      then 1
      else 0;
  is_active = true;
}

three_faults-IsBalanced : IsBalanced three_faults
three_faults-IsBalanced = record {
  in32 = λ i. ground arith;
  faults = refl;
  kinds = refl;
  reads = refl;
}

-- One more reload, into a free slot.
abbrev four_faults : Statistics
four_faults = record three_faults {
  counters = λ i.
      if i == 0 then 4 else if i == 1 then 3 else if i == 4 then 2 else three_faults.counters i;
}

one_reload : GrowsEvenly three_faults four_faults
one_reload = record {
  growth = λ i. if i == 0 then 1 else if i == 1 then 1 else if i == 4 then 1 else 0;
  grown = record { same_active = refl; counts = λ i ne. ground arith; range = λ r i. ground arith };
  even = record { faults = refl; kinds = refl; reads = refl };
}
