-- ===== src/Vm/Fault/Resident.antt =====
-- A fault on a page that is in memory: `vm_fault` of kern/vm/vmc1.c refills the translation buffer.
use os161_project_c.Base.{
  ℕ, ◌+◌, ◌%◌, ◌<◌, ◌≡◌, ◌≢◌, refl, Bool, true, some, if◌then◌else◌, update, ok, minus_one,
  Ensures-ok, arith, page_frame, ◌/◌, ◌^◌, ◌↔◌, Bool-cases, inl, inr,
}
use os161_project_c.Vfs.{Vfs}
use os161_project_c.Stats.{Statistics, n_stats, tlb_fault, tlb_fault_free, tlb_fault_replace}
use os161_project_c.Stats.Growth.{Grows, Grows-add, unit, increment-Grows, GrowsEvenly}
use os161_project_c.Swap.Slots.{increment_statistics-ok}
use os161_project_c.Segment.{Segment}
use os161_project_c.AddrSpace.{AddrSpace, Region, as_get_segment}
use os161_project_c.PageTable.{Directory, pt_get_pa, pt_get_offset}
use os161_project_c.Tlb.{TlbEntry, Tlb, has_bit, valid_bit, tlb_get_rr_victim, num_tlb}
use os161_project_c.Vm.Machine.{KernelHeap, Machine, count}
use os161_project_c.Vm.Fault.{read, write, code, is_writable, entry_for, install, vm_fault}

module _ (vfs : Vfs) where
  -- A counter goes up, and nothing else changes.
  pub count-ok :
      (stat : ℕ) (m : Machine vfs)
      → stat < n_stats
      → (s : Statistics) × (count vfs stat m ≡ ok (record m { stats = s }))
        × Grows (unit stat) m.stats s
  unfolding count
  count-ok stat m l =
      let (s, done) = increment_statistics-ok stat m.stats l in
      (s, rw done, Ensures-ok (increment-Grows stat m.stats) done)

  -- What counts an installed entry.
  abbrev pub slot_counts : Bool → ℕ → ℕ
  slot_counts replaced i =
      unit tlb_fault i + unit (if replaced then tlb_fault_replace else tlb_fault_free) i

  -- The entry is in the slot next in line, and the hand is one further.
  abbrev pub put_entry : TlbEntry → Tlb → Tlb
  put_entry e t = record {
    entries = update t.entries t.current_victim e;
    current_victim = (t.current_victim + 1) % num_tlb;
  }

  -- The entry translates the page of `va` to the frame at `pa`, is valid, and lets writes through
  -- exactly where the segment does.
  pub record Translates (seg : Segment) (va pa : ℕ) (e : TlbEntry) : Type 0 where
    pub page : e.hi ≡ page_frame va
    pub frame : page_frame e.lo ≡ pa
    pub valid : e.lo / 2 ^ 9 % 2 ≡ 1
    pub writes : (e.lo / 2 ^ 10 % 2 ≡ 1) ↔ (is_writable seg.p_permission ≡ true)

  pub entry_for-Translates :
      (seg : Segment) (va pa : ℕ)
      → page_frame pa ≡ pa
      → Translates seg va pa (entry_for vfs seg va pa)
  entry_for-Translates seg va pa at = elim (Bool-cases (is_writable seg.p_permission)) [
    | inl writable ↦ record {
      page = refl;
      frame = ground (arith, writable, at);
      valid = ground (arith, writable, at);
      writes = ((λ e. writable), (λ e. ground (arith, writable, at)));
    }
    | inr only_reads ↦ record {
      page = refl;
      frame = ground (arith, only_reads, at);
      valid = ground (arith, only_reads, at);
      writes = (
        (λ e. absurd (ground (arith, only_reads, at, e))),
        (λ e. absurd (ground (arith, only_reads, e))),
      );
    }
  ]

  pub install-ok :
      (e : TlbEntry) (m : Machine vfs)
      → (s : Statistics) × (install vfs e m ≡ ok (record m { stats = s; tlb = put_entry e m.tlb }))
        × Grows (slot_counts (has_bit valid_bit (m.tlb.entries m.tlb.current_victim).lo)) m.stats s
  unfolding install tlb_get_rr_victim
  install-ok e m =
      let replaced = has_bit valid_bit (m.tlb.entries m.tlb.current_victim).lo in
      let (s1, first, g1) = count-ok tlb_fault m (omega arith) in
      let (s2, second, g2) =
        count-ok (if replaced then tlb_fault_replace else tlb_fault_free) (record m { stats = s1 })
          (ground arith) in
      (s2, rw (first, second), Grows-add g1 g2)

  -- The page of `va` is in memory in the frame at `pa`, and the current process may touch it.
  pub record IsResident (m : Machine vfs) (va : ℕ) (space : AddrSpace) (region : Region)
      (pt : Directory) (pa : ℕ) : Type 0 where
    pub has_process : m.has_curproc ≡ true
    pub has_space : m.cur_as ≢ 0
    pub space_at : m.spaces m.cur_as ≡ some space
    pub located : as_get_segment space va ≡ some region
    pub table_at : m.tables space.pt ≡ some pt
    pub frame : pt_get_pa pt va ≡ ok pa
    pub in_memory : pa ≢ 0
    pub aligned : page_frame pa ≡ pa
    pub not_on_disk : pt_get_offset pt va ≡ ok minus_one

  -- How the fault is served: only the counters and the translation buffer change.
  pub record Refills (heap : KernelHeap) (m : Machine vfs) (va : ℕ) (seg : Segment) (pa : ℕ)
      : Type 0 where
    pub e : TlbEntry
    pub translates : Translates seg va pa e
    pub after : Machine vfs
    pub on_read : vm_fault vfs heap read va m ≡ ok (code 0, after)
    pub on_write : vm_fault vfs heap write va m ≡ ok (code 0, after)
    pub installed : after.tlb ≡ put_entry e m.tlb
    pub others : after ≡ record m { stats = after.stats; tlb = after.tlb }
    pub grown : GrowsEvenly m.stats after.stats
