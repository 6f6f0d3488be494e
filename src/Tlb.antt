-- ===== src/Tlb.antt =====
-- The translation buffer of the processor (kern/arch/mips/include/tlb.h) and its replacement: parts
-- of kern/vm/vm_tlb.c, kern/vm/vmc1.c and kern/vm/addrspace.c. The instructions that read, write and
-- probe it are modelled by what tlb.h says of them.
pub mod Replace
mod Tests
use os161_project_c.Base.{
  ℕ, ◌+◌, ◌*◌, ◌/◌, ◌%◌, ◌^◌, Bool, Option, none, some, ◌==◌, if◌then◌else◌, update, for_below,
  find_first, page_size,
}

pub record TlbEntry : Type 0 where
  pub hi : ℕ
  pub lo : ℕ

abbrev pub num_tlb : ℕ
num_tlb = 64

-- `x | (1 << k)`
abbrev pub set_bit : ℕ → ℕ → ℕ
set_bit k x = if x / 2 ^ k % 2 == 1 then x else x + 2 ^ k

-- `x & (1 << k)`, as a test
abbrev pub has_bit : ℕ → ℕ → Bool
has_bit k x = x / 2 ^ k % 2 == 1

abbrev pub valid_bit : ℕ
valid_bit = 9

abbrev pub dirty_bit : ℕ
dirty_bit = 10

-- `TLBHI_INVALID(i)` and `TLBLO_INVALID()`
abbrev pub invalid_entry : ℕ → TlbEntry
invalid_entry i = record { hi = (0x80000 + i) * page_size; lo = 0 }

pub record Tlb : Type 0 where
  pub entries : ℕ → TlbEntry
  pub current_victim : ℕ

abbrev pub tlb_write : ℕ → TlbEntry → Tlb → Tlb
tlb_write i e t = record t { entries = update t.entries i e }

-- The entry whose virtual page is that of `va`.
unfoldable pub tlb_probe : ℕ → Tlb → Option ℕ
tlb_probe va t = find_first num_tlb 0 (λ i. (t.entries i).hi / page_size == va / page_size)

-- The part of `tlb_remove_by_va` behind its check for an address space.
unfoldable pub remove_va : ℕ → Tlb → Tlb
unfolding tlb_probe
remove_va va t = elim (tlb_probe va t) [
  | some index ↦ tlb_write index (invalid_entry index) t
  | none ↦ t
]

-- The slot to overwrite, and the buffer with the next one in line.
unfoldable pub tlb_get_rr_victim : Tlb → ℕ × Tlb
tlb_get_rr_victim t =
    (t.current_victim, record t { current_victim = (t.current_victim + 1) % num_tlb })

-- The loop of `as_activate` and `as_deactivate`.
unfoldable pub flush : Tlb → Tlb
flush t = record t { entries = for_below num_tlb (λ i es. update es i (invalid_entry i)) t.entries }
