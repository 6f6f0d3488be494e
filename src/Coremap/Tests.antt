-- ===== src/Coremap/Tests.antt =====
-- The frames on small inputs.
use os161_project_c.Base.{
  ℕ, ◌+◌, ◌*◌, ◌≡◌, refl, true, ltb, ◌==◌, if◌then◌else◌, ok, page_size, arith,
}
use os161_project_c.Ram.{mips_kseg0}
use os161_project_c.Coremap.{
  Frame, Coremap, fixed, free, dirty, clean_frame, getfreeppages, free_kpages, get_victim_coremap,
}
use os161_project_c.Coremap.Alloc.{IsWf, Got, Taken, getfreeppages-Got, free_kpages-getfreeppages}
use os161_project_c.Coremap.Victim.{Chosen, get_victim_coremap-Chosen}

abbrev idle_frame : Frame
idle_frame = record { as_ptr = 0; status = free; vaddr = 0; alloc_size = 0 }

abbrev user_frame : Frame
user_frame = record { as_ptr = 64; status = dirty; vaddr = 4194304; alloc_size = 0 }

abbrev block_frame : ℕ → Frame
block_frame size = record { as_ptr = 0; status = fixed; vaddr = 0; alloc_size = size }

-- Eight frames: frame 0 is clean, 1 and 2 a user's, the rest free.
abbrev eight : Coremap
eight = record {
  entries = λ i. if i == 0 then clean_frame else if ltb i 3 then user_frame else idle_frame;
  n_ram_frames = 8;
  active = true;
  current_victim = 0;
}

-- The same with frames 3 and 4 taken by the kernel.
abbrev taken_two : Coremap
taken_two = record eight {
  entries =
      λ i. if i == 3 then block_frame 2 else if i == 4 then block_frame 0 else eight.entries i;
}

eight-IsWf : IsWf eight
eight-IsWf = record {
  frames = omega arith;
  zero_frame = refl;
  unsized = λ i h. ground (arith, h);
  unowned = λ i h. ground (arith, h);
}

eight-Taken : Taken eight 3 2 taken_two
eight-Taken = record {
  n_ram_frames = refl;
  active = refl;
  current_victim = refl;
  entries = λ i. ground arith;
}

getfreeppages-Got_example : Got eight 2 (getfreeppages 2 eight)
getfreeppages-Got_example = getfreeppages-Got 2 eight-IsWf (omega arith) refl

free_kpages-getfreeppages_example :
    (c'' : Coremap) × (free_kpages (3 * page_size + mips_kseg0) taken_two ≡ ok c'')
    × ((i : ℕ) → c''.entries i ≡ eight.entries i)
    × IsWf c''
free_kpages-getfreeppages_example =
    free_kpages-getfreeppages 3 2 eight-IsWf refl (omega arith) (omega arith) (omega arith)
      (λ j a b. ground arith) eight-Taken

get_victim_coremap-Chosen_example : Chosen eight 2 (get_victim_coremap eight 2)
get_victim_coremap-Chosen_example =
    get_victim_coremap-Chosen eight 2 1 (omega arith) refl (omega arith) (omega arith) (omega arith)
      (λ j a b. ground arith)
