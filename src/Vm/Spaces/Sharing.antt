-- ===== src/Vm/Spaces/Sharing.antt =====
-- A copied address space and its original share one page table.
use os161_project_c.Base.{ℕ, ◌≡◌, ◌≢◌, refl, true, some, ◌==◌, ok, false, update, arith}
use os161_project_c.Vfs.{Vfs}
use os161_project_c.AddrSpace.{AddrSpace}
use os161_project_c.Segment.{empty_segment, seg_create, seg_copy}
use os161_project_c.Swap.{Swap, swapfile_init, clear_list}
use os161_project_c.PageTable.Maps.{pt_create-empty}
use os161_project_c.Vm.Machine.{Machine}
use os161_project_c.Vm.Spaces.{Memory, as_create, as_copy}

module _ (vfs : Vfs) (fresh : Memory) (old : ℕ) (m : Machine vfs) (space : AddrSpace) where
  -- There is memory for the copy, at addresses that are not in use.
  pub record HasMemory : Type 0 where
    pub room : fresh.room ≡ true
    pub rest_room : fresh.rest_room ≡ true
    pub placed : fresh.as_at ≢ 0
    pub apart : fresh.as_at ≢ old
    pub opens : (vfs.open_swapfile m.swap.disk).0 ≡ 0

  -- The copy holds what the original holds, the address of the page table included.
  pub record Copies (m' : Machine vfs) : Type 0 where
    pub copied : m'.spaces fresh.as_at ≡ some space
    pub kept : m'.spaces old ≡ some space

  abbrev fresh_space : AddrSpace
  fresh_space = record {
    code = empty_segment;
    data_seg = empty_segment;
    stack = empty_segment;
    pt = fresh.pt_at;
  }

  swapfile_init-ok :
      (vfs.open_swapfile m.swap.disk).0 ≡ 0 → (s : Swap vfs) × (swapfile_init vfs m.swap ≡ ok s)
  unfolding swapfile_init
  swapfile_init-ok opens = (
    record (m.swap) {
      swap_list = clear_list vfs m.swap.swap_list;
      v = (vfs.open_swapfile m.swap.disk).1;
      disk = (vfs.open_swapfile m.swap.disk).2;
    },
    rw opens,
  )

  -- The address space is put at its address, and the others stay.
  as_create-ok :
      HasMemory
      → (m1 : Machine vfs) × (as_create vfs fresh m ≡ ok (fresh.as_at, m1))
        × (m1.spaces ≡ update m.spaces fresh.as_at (some fresh_space))
  unfolding as_create seg_create swapfile_init-ok
  as_create-ok mem =
      let (pt, made, _, _) = pt_create-empty fresh.junk in
      let (s, opened) = swapfile_init-ok mem.opens in
      (
        record m {
          swap = s;
          tables = update m.tables fresh.pt_at (some pt);
          spaces = update m.spaces fresh.as_at (some fresh_space);
        },
        rw (mem.room, mem.rest_room, made, opened),
        refl,
      )

  -- With memory at unused addresses for it, and a swap file that opens, `as_copy` of an address
  -- space returns 0 and a new address space that equals the old one in all, the page table's
  -- address included, and the old one is still there.
  pub as_copy-Copies :
      HasMemory
      → m.spaces old ≡ some space
      → (m' : Machine vfs) × (as_copy vfs fresh old m ≡ ok (0, fresh.as_at, m')) × Copies m'
  unfolding as_copy seg_copy
  as_copy-Copies mem here =
      let (m1, made, at) = as_create-ok mem in
      let placed : (fresh.as_at == 0) ≡ false = ground (arith, mem.placed) in
      let found : m1.spaces old ≡ some space = rw at (ground (arith, mem.apart)) in
      (
        record m1 { spaces = update m1.spaces fresh.as_at (some space) },
        rw (made, placed, found, mem.rest_room),
        record { copied = ground arith; kept = ground (arith, mem.apart) },
      )
