-- ===== src/Swap/Tests.antt =====
-- The swap file on small inputs.
use os161_project_c.Base.{
  ℕ, ◌+◌, ◌<◌, ◌≡◌, refl, true, false, page_size, arith, ◌==◌, if◌then◌else◌,
}
use os161_project_c.Vfs.{slice, copy_in}
use os161_project_c.Vfs.Sample.{page_disk, blank_disk, sample_mem, page_disk-IsPageStore}
use os161_project_c.Stats.{Statistics}
use os161_project_c.Swap.{Swap, SwapPage, free_page}
use os161_project_c.Swap.Slots.{Reliable, Holds, SwapsOut, swap_out-Stored}
use os161_project_c.Swap.Transfers.{SwapsIn, swap_in-swap_out}

abbrev stats0 : Statistics
stats0 = record { counters = λ i. 0; is_active = true }

abbrev used_page : SwapPage
used_page = record { ppadd = 8192; pvadd = 4194304; swap_offset = 0; free = false }

-- Slot 0 holds a page.
abbrev one_out : Swap page_disk
one_out = record {
  swap_list = λ i. if i == 0 then used_page else free_page;
  v = 1;
  times_out = 1;
  times_in = 0;
  disk = blank_disk;
}

abbrev full_file : Swap page_disk
full_file = record {
  swap_list = λ i. used_page;
  v = 1;
  times_out = 2304;
  times_in = 0;
  disk = blank_disk;
}

reliable : Reliable page_disk 1
reliable d i b = refl

holds0 : Holds one_out 0 (λ i. 0)
holds0 = record { in_range = omega arith; used = refl; on_disk = refl }

swap_out-Stored_example : SwapsOut one_out sample_mem 12288 4198400 stats0
swap_out-Stored_example =
    swap_out-Stored sample_mem 12288 4198400 page_disk-IsPageStore reliable (ground arith) stats0 1
      (omega arith) refl

swap_in-swap_out_example :
    (out : SwapsOut one_out sample_mem 12288 4198400 stats0) × (back : SwapsIn out.after sample_mem
      20480 out.slot
      (slice sample_mem 12288)
      out.counted)
    × ((j : ℕ)
        → j < page_size
        → copy_in sample_mem 20480 page_size (slice sample_mem 12288) (20480 + j)
          ≡ sample_mem (12288 + j))
swap_in-swap_out_example =
    swap_in-swap_out sample_mem 12288 4198400 20480 stats0 1 page_disk-IsPageStore reliable
      (ground arith) (omega arith) refl
