-- ===== src/Ram.antt =====
-- The physical memory that is not yet managed: kern/arch/mips/vm/ram.c. `firstpaddr` is the first
-- byte that nobody has taken, `lastpaddr` the end of memory. A refused request answers 0.
use os161_project_c.Base.{ℕ, ◌+◌, ◌-◌, ◌*◌, ◌^◌, ◌%◌, if◌then◌else◌, ltb, page_size}

pub record Ram : Type 0 where
  pub firstpaddr : ℕ
  pub lastpaddr : ℕ

abbrev pub mips_kseg0 : ℕ
mips_kseg0 = 0x8000_0000

-- `ramsize` is what the main bus reports, `firstfree` what the boot code saved.
unfoldable pub ram_bootstrap : (ramsize firstfree : ℕ) → Ram
ram_bootstrap ramsize firstfree =
    let limit = 512 * 1024 * 1024 in
    record {
      firstpaddr =
          if ltb firstfree mips_kseg0
          then firstfree + 2 ^ 32 - mips_kseg0
          else firstfree - mips_kseg0;
      lastpaddr = if ltb limit ramsize then limit else ramsize;
    }

unfoldable pub ram_stealmem : ℕ → Ram → ℕ × Ram
ram_stealmem npages r =
    let size = npages * page_size % 2 ^ 32 in
    let next = (r.firstpaddr + size) % 2 ^ 32 in
    if ltb r.lastpaddr next then (0, r) else (r.firstpaddr, record r { firstpaddr = next })

abbrev pub ram_getsize : Ram → ℕ
ram_getsize r = r.lastpaddr

unfoldable pub ram_getfirstfree : Ram → ℕ × Ram
ram_getfirstfree r = (r.firstpaddr, record { firstpaddr = 0; lastpaddr = 0 })
