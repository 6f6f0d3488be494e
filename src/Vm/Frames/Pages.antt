-- ===== src/Vm/Frames/Pages.antt =====
-- The frame that a user page gets while frames are free: `page_alloc` of kern/vm/coremap.c.
use os161_project_c.Base.{
  ℕ, ◌-◌, ◌*◌, ◌≤◌, ◌<◌, ◌≡◌, ◌≢◌, refl, true, false, Option, some, ◌==◌, find_first, IsFirst,
  Search, hit, miss, find_first-Search, ok, page_size, arith,
}
use os161_project_c.Vfs.{Vfs}
use os161_project_c.Coremap.{dirty, is_free}
use os161_project_c.Vm.Machine.{KernelHeap, Machine, vm_can_sleep}
use os161_project_c.Vm.Frames.{getppage_user, page_alloc, give_frame}

module _ (vfs : Vfs) where
  -- The caller may sleep, and has an address space; the coremap is in use.
  pub record MayAllocate (m : Machine vfs) : Type 0 where
    pub active : m.coremap.active ≡ true
    pub can_sleep : vm_can_sleep vfs m ≡ ok tt
    pub has_space : m.cur_as ≢ 0

  -- The page gets frame `i`, the first free one behind frame 0, and no other frame changes hands.
  pub record Gives (heap : KernelHeap) (va : ℕ) (m : Machine vfs) : Type 0 where
    pub i : ℕ
    pub first : IsFirst (λ j. is_free (m.coremap.entries j).status) 1 m.coremap.n_ram_frames i
    pub returns : page_alloc vfs heap va m ≡ ok (i * page_size, give_frame vfs m.cur_as va i m)
    pub taken :
        (give_frame vfs m.cur_as va i m).coremap.entries i
        ≡ record { as_ptr = m.cur_as; status = dirty; vaddr = va; alloc_size = 1 }
    pub others :
        (j : ℕ) → j ≢ i → (give_frame vfs m.cur_as va i m).coremap.entries j ≡ m.coremap.entries j
    pub rest : give_frame vfs m.cur_as va i m ≡ record m {
      coremap = record (m.coremap) { entries = (give_frame vfs m.cur_as va i m).coremap.entries };
    }

  give_frame-taken :
      (va i : ℕ) (m : Machine vfs)
      → (give_frame vfs m.cur_as va i m).coremap.entries i
        ≡ record { as_ptr = m.cur_as; status = dirty; vaddr = va; alloc_size = 1 }
  unfolding give_frame
  give_frame-taken va i m = ground arith

  give_frame-others :
      (va i j : ℕ) (m : Machine vfs)
      → j ≢ i
      → (give_frame vfs m.cur_as va i m).coremap.entries j ≡ m.coremap.entries j
  unfolding give_frame
  give_frame-others va i j m away = ground arith

  give_frame-rest :
      (va i : ℕ) (m : Machine vfs)
      → give_frame vfs m.cur_as va i m ≡ record m {
        coremap = record (m.coremap) { entries = (give_frame vfs m.cur_as va i m).coremap.entries };
      }
  unfolding give_frame
  give_frame-rest va i m = refl

  getppage_user-ok :
      (heap : KernelHeap) (va : ℕ) (m : Machine vfs) {i : ℕ}
      → find_first (m.coremap.n_ram_frames - 1) 1 (λ j. is_free (m.coremap.entries j).status)
        ≡ some i
      → getppage_user vfs heap va m.cur_as m ≡ ok (i * page_size, give_frame vfs m.cur_as va i m)
  unfolding getppage_user
  getppage_user-ok heap va m e = rw (e, getppage_user)

  search-ok :
      (heap : KernelHeap) (va k : ℕ) (m : Machine vfs)
      → MayAllocate m
      → {o : Option ℕ}
      → find_first (m.coremap.n_ram_frames - 1) 1 (λ j. is_free (m.coremap.entries j).status) ≡ o
      → Search (λ j. is_free (m.coremap.entries j).status) 1 m.coremap.n_ram_frames o
      → 1 ≤ k
      → k < m.coremap.n_ram_frames
      → is_free (m.coremap.entries k).status ≡ true
      → Gives heap va m
  unfolding page_alloc
  search-ok heap va k m may e (miss none_free) a b free =
      absurd (let used = none_free k a b in ground arith)
  search-ok heap va k m may e (hit i f) a b free =
      let space : (m.cur_as == 0) ≡ false = ground (arith, may.has_space) in
      record {
        i = i;
        first = f;
        returns = simp (may.active, may.can_sleep, space) (getppage_user-ok heap va m e);
        taken = give_frame-taken va i m;
        others = λ j away. give_frame-others va i j m away;
        rest = give_frame-rest va i m;
      }

  -- Where the caller may allocate and a frame behind frame 0 is free, `page_alloc` gives the page the
  -- first free frame, and answers its address: the frame is then dirty, one page long, and owned by
  -- the current address space at the page's address; no other frame and nothing else changes.
  pub page_alloc-Gives :
      (heap : KernelHeap) (va k : ℕ) (m : Machine vfs)
      → MayAllocate m
      → 1 ≤ k
      → k < m.coremap.n_ram_frames
      → is_free (m.coremap.entries k).status ≡ true
      → Gives heap va m
  page_alloc-Gives heap va k m may a b free =
      search-ok heap va k m may refl
        (find_first-Search (m.coremap.n_ram_frames - 1) 1 m.coremap.n_ram_frames _ (omega arith)) a
        b free
