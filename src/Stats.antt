-- ===== src/Stats.antt =====
-- The counters of the memory system: kern/vm/statistics.c and kern/include/statistics.h. The
-- spinlock is held over straight-line code, so each operation is one step; counters are 32-bit.
pub mod Growth
mod Tests
use os161_project_c.Base.{
  ℕ, ◌+◌, ◌%◌, ◌^◌, Bool, true, false, not, Option, none, some, List, [], ◌∷◌, ◌++◌, ltb, ◌==◌,
  if◌then◌else◌, update, for_below, Outcome, ok, ◌>>=◌, ◌>>◌, kassert,
}

abbrev pub tlb_fault : ℕ
tlb_fault = 0

abbrev pub tlb_fault_free : ℕ
tlb_fault_free = 1

abbrev pub tlb_fault_replace : ℕ
tlb_fault_replace = 2

abbrev pub tlb_invalidate : ℕ
tlb_invalidate = 3

abbrev pub tlb_reload : ℕ
tlb_reload = 4

abbrev pub page_fault_zero : ℕ
page_fault_zero = 5

abbrev pub page_fault_disk : ℕ
page_fault_disk = 6

abbrev pub elf_file_read : ℕ
elf_file_read = 7

abbrev pub swap_file_read : ℕ
swap_file_read = 8

abbrev pub swap_file_write : ℕ
swap_file_write = 9

abbrev pub n_stats : ℕ
n_stats = 10

pub record Statistics : Type 0 where
  pub counters : ℕ → ℕ
  pub is_active : Bool

unfoldable pub init_statistics : Statistics → Statistics
init_statistics s = record {
  counters = for_below n_stats (λ i c. update c i 0) s.counters;
  is_active = true;
}

unfoldable pub increment_statistics : ℕ → Statistics → Outcome Statistics
increment_statistics stat s = if not s.is_active then ok s else do
  kassert (ltb stat n_stats)
  ok (record s { counters = update s.counters stat ((s.counters stat + 1) % 2 ^ 32) })

-- The three warnings that `print_all_statistics` may print below the counters.
pub data Warning : Type 0 where
  faults_free_replace faults_reload_zero_disk disk_elf_swap : Warning

abbrev sum32 : ℕ → ℕ → ℕ
sum32 a b = (a + b) % 2 ^ 32

abbrev pub free_or_replace : Statistics → ℕ
free_or_replace s = sum32 (s.counters tlb_fault_free) (s.counters tlb_fault_replace)

abbrev pub reload_disk_zero : Statistics → ℕ
reload_disk_zero s =
    sum32 (sum32 (s.counters tlb_reload) (s.counters page_fault_disk)) (s.counters page_fault_zero)

abbrev pub elf_or_swap : Statistics → ℕ
elf_or_swap s = sum32 (s.counters elf_file_read) (s.counters swap_file_read)

abbrev warn_unless : Bool → Warning → List Warning
warn_unless true w = []
warn_unless false w = w ∷ []

-- What is printed: nothing if the counters are off, else the ten counters and some warnings.
unfoldable pub print_all_statistics : Statistics → Option ((ℕ → ℕ) × List Warning)
print_all_statistics s =
    if not s.is_active
    then none
    else some (
      s.counters,
      warn_unless (s.counters tlb_fault == free_or_replace s) faults_free_replace
          ++ (warn_unless (s.counters tlb_fault == reload_disk_zero s) faults_reload_zero_disk
              ++ warn_unless (s.counters page_fault_disk == elf_or_swap s) disk_elf_swap),
    )
