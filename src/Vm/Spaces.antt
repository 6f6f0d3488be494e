-- ===== src/Vm/Spaces.antt =====
-- Address spaces made, copied, destroyed and switched: the functions of kern/vm/addrspace.c that
-- reach into the other parts.
pub mod Sharing
use os161_project_c.Base.{
  ℕ, Bool, not, Option, none, some, ◌==◌, if◌then◌else◌, Outcome, ok, ◌>>=◌, ◌>>◌, kassert, deref,
  update,
}
use os161_project_c.Vfs.{Vfs}
use os161_project_c.Stats.{tlb_invalidate}
use os161_project_c.Swap.{swapfile_init}
use os161_project_c.Segment.{seg_create, seg_copy}
use os161_project_c.PageTable.{OuterEntry, pt_create}
use os161_project_c.PageTable.Destroy.{Blocks, pt_destroy}
use os161_project_c.AddrSpace.{AddrSpace}
use os161_project_c.Tlb.{flush}
use os161_project_c.Vm.Machine.{Machine, count}

abbrev pub enomem : ℕ
enomem = 3

-- What the calls of `kmalloc` give: whether there is memory, where the address space and the page
-- table come to lie, and what the outer table's memory holds.
pub record Memory : Type 0 where
  pub room : Bool  -- for the address space
  pub rest_room : Bool  -- for the segments and the page table
  pub as_at : ℕ
  pub pt_at : ℕ
  pub junk : ℕ → OuterEntry

module _ (vfs : Vfs) where
  -- The address of the new address space, 0 if there is no memory for it.
  unfoldable pub as_create : Memory → Machine vfs → Outcome (ℕ × Machine vfs)
  as_create fresh m = if not fresh.room then ok (0, m) else do
    code ← seg_create fresh.rest_room
    data_seg ← seg_create fresh.rest_room
    stack ← seg_create fresh.rest_room
    pt ← pt_create fresh.rest_room fresh.rest_room fresh.junk
    swap' ← swapfile_init vfs m.swap
    let space : AddrSpace = record {
      code = code;
      data_seg = data_seg;
      stack = stack;
      pt = fresh.pt_at;
    }
    ok (
      fresh.as_at,
      record m {
        swap = swap';
        tables = update m.tables fresh.pt_at (some pt);
        spaces = update m.spaces fresh.as_at (some space);
      },
    )

  -- The result, the address of the copy, and the state. The page table of the copy is that of the
  -- old address space; the one that `as_create` made is no longer referred to.
  unfoldable pub as_copy : Memory → (old : ℕ) → Machine vfs → Outcome (ℕ × ℕ × Machine vfs)
  as_copy fresh old m = do
    (new, m1) ← as_create fresh m
    if new == 0 then ok (enomem, 0, m1) else do
      from ← deref (m1.spaces old)
      (r1, code) ← seg_copy fresh.rest_room from.code
      kassert (r1 == 0)
      (r2, data_seg) ← seg_copy fresh.rest_room from.data_seg
      kassert (r2 == 0)
      (r3, stack) ← seg_copy fresh.rest_room from.stack
      kassert (r3 == 0)
      let space : AddrSpace = record {
        code = code;
        data_seg = data_seg;
        stack = stack;
        pt = from.pt;
      }
      ok (0, new, record m1 { spaces = update m1.spaces new (some space) })

  -- `vfs_close` gives the program's file back, which is not part of this state, but stops the kernel
  -- where there is none. `at` says where the
  -- memory of the page table lies.
  unfoldable pub as_destroy : Blocks → (sp : ℕ) → Machine vfs → Outcome (Machine vfs)
  as_destroy at sp m = do
    space ← deref (m.spaces sp)
    pt ← deref (m.tables space.pt)
    coremap' ← pt_destroy at pt m.coremap
    kassert (not (space.code.vnode == 0))
    ok (record m {
      coremap = coremap';
      tables = update m.tables space.pt none;
      spaces = update m.spaces sp none;
    })

  -- `as_activate` and `as_deactivate` have the same body.
  unfoldable pub as_activate : Machine vfs → Outcome (Machine vfs)
  as_activate m =
      if m.cur_as == 0 then ok m else count vfs tlb_invalidate (record m { tlb = flush m.tlb })

  unfoldable pub as_deactivate : Machine vfs → Outcome (Machine vfs)
  as_deactivate m =
      if m.cur_as == 0 then ok m else count vfs tlb_invalidate (record m { tlb = flush m.tlb })
