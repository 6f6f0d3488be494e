-- ===== src/Vm/Removal.antt =====
-- What `tlb_remove_by_va` of kern/vm/vm_tlb.c leaves of the translation buffer.
use os161_project_c.Base.{
  ℕ, ◌/◌, ◌<◌, ◌^◌, ◌≡◌, ◌≢◌, ◌⊎◌, inl, inr, refl, ◌==◌, Bool-cases, none, pos, minus_one,
  page_size, arith,
}
use os161_project_c.Vfs.{Vfs}
use os161_project_c.Tlb.{tlb_probe}
use os161_project_c.Tlb.Replace.{IsUnique, tlb_probe-remove_va, remove_va-others}
use os161_project_c.Vm.Machine.{Machine, tlb_remove_by_va}

-- For a user address, where no two slots translate one page: without an address space,
-- `tlb_remove_by_va` answers -1 and changes nothing; with one it answers 0, no slot translates the
-- page of the address any more, every slot that translates another page is as before, and only the
-- translation buffer changes.
pub tlb_remove_by_va-removes :
    (vfs : Vfs) (va : ℕ) (m : Machine vfs)
    → va < 2 ^ 31
    → IsUnique m.tlb
    → ((m.cur_as ≡ 0) × (tlb_remove_by_va vfs va m ≡ (minus_one, m)))
      ⊎ ((m.cur_as ≢ 0)
          × ((tlb_remove_by_va vfs va m).0 ≡ pos 0)
          × (tlb_probe va (tlb_remove_by_va vfs va m).1.tlb ≡ none)
          × ((i : ℕ)
              → (m.tlb.entries i).hi / page_size ≢ va / page_size
              → (tlb_remove_by_va vfs va m).1.tlb.entries i ≡ m.tlb.entries i)
          × ((tlb_remove_by_va vfs va m).1 ≡ record m { tlb = (tlb_remove_by_va vfs va m).1.tlb }))
unfolding tlb_remove_by_va
tlb_remove_by_va-removes vfs va m user unique = elim (Bool-cases (m.cur_as == 0)) [
  | inl nowhere ↦ inl (ground arith, rw nowhere refl)
  | inr somewhere ↦ inr (
    ground arith,
    rw somewhere refl,
    rw somewhere (tlb_probe-remove_va m.tlb va user unique),
    λ i other. rw somewhere (remove_va-others m.tlb va i other),
    rw somewhere refl,
  )
]
