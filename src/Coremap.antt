-- ===== src/Coremap.antt =====
-- The table of physical frames: kern/vm/coremap.c and kern/include/coremap.h, less the two
-- functions that evict pages through the other components (Vm.antt). The array is a function of
-- the frame's number, of which the first `n_ram_frames` are the program's. The two spinlocks are
-- held over straight-line code only, so each operation is one step.
pub mod FreeRun
pub mod Alloc
pub mod Victim
mod Tests
use os161_project_c.Base.{
  ◌^◌, ℕ, zero, suc, ◌+◌, ◌-◌, ◌*◌, ◌/◌, ◌%◌, Bool, true, false, not, ◌&&◌, ◌||◌, ltb, leb, ◌==◌,
  if◌then◌else◌, update, for_below, Outcome, ok, out_of_fuel, ◌>>=◌, ◌>>◌, kassert, for_each, ℤ,
  pos, negsuc, minus_one, page_size,
}
use os161_project_c.Ram.{Ram, ram_getsize, mips_kseg0}

pub data Status : Type 0 where
  fixed free dirty clean : Status

abbrev pub is_free : Status → Bool
is_free free = true
is_free _ = false

abbrev pub is_fixed : Status → Bool
is_fixed fixed = true
is_fixed _ = false

-- `status != fixed && status != clean`
abbrev pub is_victim : Status → Bool
is_victim fixed = false
is_victim clean = false
is_victim _ = true

-- `as` is the address of an address space, 0 for NULL.
pub record Frame : Type 0 where
  pub as_ptr : ℕ
  pub status : Status
  pub vaddr : ℕ
  pub alloc_size : ℕ

pub record Coremap : Type 0 where
  pub entries : ℕ → Frame
  pub n_ram_frames : ℕ
  pub active : Bool
  pub current_victim : ℕ

abbrev pub clean_frame : Frame
clean_frame = record { as_ptr = 0; status = clean; vaddr = 0; alloc_size = 0 }

-- `room` says whether `kmalloc` finds memory, `junk` is what that memory holds.
unfoldable pub coremap_init : (room : Bool) → (junk : ℕ → Frame) → Ram → Coremap → Outcome Coremap
coremap_init room junk ram c = do
  let n = ram_getsize ram / page_size
  kassert (ltb 0 n)
  kassert room
  ok (record c {
    n_ram_frames = n;
    entries = for_below n (λ i es. update es i clean_frame) junk;
    active = true;
  })

unfoldable pub coremap_shutdown : Coremap → Coremap
coremap_shutdown c = record c { active = false }

-- The `while` of `get_victim_coremap`; `victim` and `len` are its local variables.
unfoldable pub victim_loop : ℕ → Coremap → (size victim len : ℕ) → Outcome (ℕ × Coremap)
victim_loop zero c size victim len = if ltb len size then out_of_fuel else ok (victim + 1 - len, c)
victim_loop (suc k) c size victim len =
    let start =
      if leb c.n_ram_frames (c.current_victim + (size - len)) then 1 else c.current_victim in
    let len' = if is_victim (c.entries start).status then len + 1 else 0 in
    let rest =
      victim_loop k (record c { current_victim = (start + 1) % c.n_ram_frames }) size start len' in
    if ltb len size then rest else ok (victim + 1 - len, c)

-- The loop asks for at most two rounds over the frames (Coremap/Victim.antt).
unfoldable pub get_victim_coremap : Coremap → ℕ → Outcome (ℕ × Coremap)
get_victim_coremap c size = do
  kassert (not (size == 0))
  victim_loop (2 * c.n_ram_frames + 1) c size 0 0

-- `i - first + 1`, for a `first` that is not above `i`
abbrev pub run_length : ℕ → ℤ → ℕ
run_length i (pos first) = i - first + 1
run_length i (negsuc m) = i + m + 2

-- The search of `getfreeppages` from frame `i` on, for as many rounds as there are frames left;
-- the answer is `found`.
unfoldable pub find_run : ℕ → (ℕ → Frame) → (npages i : ℕ) → (first : ℤ) → ℤ
find_run zero es npages i first = minus_one
find_run (suc k) es npages i first =
    let here = is_free (es i).status in
    let first' = if (i == 0) || not (is_free (es (i - 1)).status) then pos i else first in
    let rest = find_run k es npages (i + 1) (if here then first' else first) in
    if here && leb npages (run_length i first') then first' else rest

-- The second loop of `getfreeppages`.
unfoldable pub take_run : (npages found : ℕ) → (ℕ → Frame) → Outcome (ℕ → Frame)
unfolding for_each
take_run npages found es =
    for_each npages
      (λ j es. (do
        kassert ((es (found + j)).alloc_size == 0)
        ok (update es (found + j) (record (es (found + j)) { status = fixed }))))
      es

-- What `getfreeppages` does with the frame that it found, or with -1.
unfoldable pub take_found : ℕ → ℤ → Coremap → Outcome (ℕ × Coremap)
take_found npages (pos found) c = do
  es ← take_run npages found c.entries
  ok (
    found * page_size,
    record c { entries = update es found (record (es found) { alloc_size = npages }) },
  )
take_found npages (negsuc _) c = ok (0, c)

unfoldable pub getfreeppages : ℕ → Coremap → Outcome (ℕ × Coremap)
getfreeppages npages c =
    if not c.active
    then ok (0, c)
    else take_found npages (find_run (c.n_ram_frames - 1) c.entries npages 1 minus_one) c

unfoldable pub page_free : ℕ → Coremap → Outcome Coremap
page_free addr c = do
  let i = addr / page_size
  kassert (not (is_fixed (c.entries i).status))
  ok (record c {
    entries = update c.entries i (record { as_ptr = 0; status = free; vaddr = 0; alloc_size = 0 });
  })

-- The loop keeps each frame's `vaddr`.
unfoldable pub freeppages : (addr npages : ℕ) → Coremap → Outcome (ℕ × Coremap)
freeppages addr npages c = if not c.active then ok (0, c) else do
  let first = addr / page_size
  kassert (ltb first c.n_ram_frames)
  ok (
    1,
    record c {
      entries =
          for_below npages
            (λ j es.
              update es (first + j)
                (record (es (first + j)) { status = free; as_ptr = 0; alloc_size = 0 }))
            c.entries;
    },
  )

unfoldable pub free_kpages : ℕ → Coremap → Outcome Coremap
free_kpages addr c = if not c.active then ok c else do
  let paddr = if ltb addr mips_kseg0 then addr + 2 ^ 32 - mips_kseg0 else addr - mips_kseg0
  let first = paddr / page_size
  kassert (ltb first c.n_ram_frames)
  (done, c') ← freeppages paddr (c.entries first).alloc_size c
  ok c'
