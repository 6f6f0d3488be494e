-- ===== src/FileCalls/Opening.antt =====
-- What sys_open leaves on each of its branches.
use os161_project_c.Base.{
  ℕ, ◌+◌, ◌-◌, ◌≤◌, ◌<◌, ◌≡◌, refl, ◌≢◌, inl, inr, Option, none, some, arith, ◌==◌, update, Bool,
  false, IsFirst, find_first, Search, hit, miss, find_first-Search, Bool-cases,
}
use os161_project_c.Proc.{open_max}
use os161_project_c.FileCalls.{
  FileLayer, Files, Opened, opened, refused, enoent, emfile, enfile, system_open_max,
  enter_descriptor, enter_file, sys_open,
}
use os161_project_c.FileCalls.Counts.{references, references-update, IsCounted}

-- What vfs_open documents: a result of 0 comes with a vnode.
pub record OpensVnodes (fl : FileLayer) : Type 0 where
  pub vnode :
      (w : fl.World) (path openflags mode : ℕ)
      → (fl.vfs_open w path openflags mode).0 ≡ 0
      → (fl.vfs_open w path openflags mode).1 ≢ 0

-- The slots of systemFileTable, and the descriptors of a process, that are free.
abbrev pub free_slot : {fl : FileLayer} → Files fl → ℕ → Bool
free_slot s i = s.vn (i + 1) == 0

abbrev pub free_descriptor : {fl : FileLayer} → (p : ℕ) → Files fl → ℕ → Bool
free_descriptor p s fd = s.open_files.file_table p fd == 0

-- The branches of sys_open, for process `p` of the `n`, where vfs_open gives `result`, `v` and `w`.
pub data Opens (fl : FileLayer) (n p : ℕ) (s : Files fl) (result v : ℕ) (w : fl.World)
    : Opened × Files fl → Type 0 where
  gives :
      (fd i : ℕ) (s' : Files fl)
      → result ≡ 0
      → IsFirst (free_descriptor p s) 3 open_max fd
      → IsFirst (free_slot s) 0 system_open_max i
      → s'.vn ≡ update s.vn (i + 1) v
      → v ≢ 0
      → s'.offset ≡ update s.offset (i + 1) 0
      → s'.open_files.file_table
        ≡ update s.open_files.file_table p (update (s.open_files.file_table p) fd (i + 1))
      → s'.world ≡ w
      → IsCounted fl n s'
      → Opens fl n p s result v w (opened fd, s')
  fails : result ≢ 0 → Opens fl n p s result v w (refused enoent, record s { world = w })
  full :
      result ≡ 0
      → ((i : ℕ) → i < system_open_max → free_slot s i ≡ false)
      → Opens fl n p s result v w (refused enfile, record s { world = fl.vfs_close w v })
  leaks :
      (i : ℕ) (s' : Files fl)
      → result ≡ 0
      → ((fd : ℕ) → 3 ≤ fd → fd < open_max → free_descriptor p s fd ≡ false)
      → IsFirst (free_slot s) 0 system_open_max i
      → s'.vn ≡ update s.vn (i + 1) v
      → v ≢ 0
      → s'.open_files.file_table ≡ s.open_files.file_table
      → s'.open_files.count_ref (i + 1) ≡ 1
      → references (i + 1) n s'.open_files.file_table ≡ 0
      → s'.world ≡ fl.vfs_close w v
      → Opens fl n p s result v w (refused emfile, s')

module _ (fl : FileLayer) (n p : ℕ) (s : Files fl) (h : IsCounted fl n s) (low : p < n) where
  open h use {counted, live, few}

  -- A free slot of the system's table is named by no descriptor.
  free_unnamed : (i : ℕ) → s.vn (i + 1) ≡ 0 → references (i + 1) n s.open_files.file_table ≡ 0
  free_unnamed i free = ground (arith, live (i + 1))

  module _ (i result v : ℕ) (found : result ≡ 0) (place : IsFirst (free_slot s) 0 system_open_max i)
      (real : v ≢ 0) (w : fl.World) where
    free : s.vn (i + 1) ≡ 0
    free = let e = place.passes in ground arith

    -- The state once the slot is filled.
    abbrev filled : Files fl
    filled = record s {
      world = w;
      vn = update s.vn (i + 1) v;
      offset = update s.offset (i + 1) 0;
      open_files = record (s.open_files) { count_ref = update s.open_files.count_ref (i + 1) 1 };
    }

    enter_descriptor-Opens : Opens fl n p s result v w (enter_descriptor fl p (i + 1) v filled)
    unfolding enter_descriptor
    enter_descriptor-Opens =
        search (find_first (open_max - 3) 3 (λ fd. s.open_files.file_table p fd == 0)) (
          find_first-Search (open_max - 3) 3 open_max (λ fd. s.open_files.file_table p fd == 0)
            refl)
      where
        entered :
            (fd : ℕ)
            → fd < open_max
            → s.open_files.file_table p fd ≡ 0
            → IsCounted fl n (record filled {
              open_files = record (filled.open_files) {
                file_table =
                    update s.open_files.file_table p
                      (update (s.open_files.file_table p) fd (i + 1));
              };
            })
        entered fd low_fd empty = record {
          counted = λ of there. ground (
            arith,
            counted of,
            free_unnamed i free,
            references-update of n s.open_files.file_table p fd (i + 1) low low_fd,
          );
          live = λ of there named. ground (
            arith,
            live of,
            references-update of n s.open_files.file_table p fd (i + 1) low low_fd,
          );
          few = few;
        }

        search :
            (o : Option ℕ)
            → Search (λ fd. s.open_files.file_table p fd == 0) 3 open_max o
            → Opens fl n p s result v w (elim o [
              | none ↦ (refused emfile, record filled { world = fl.vfs_close w v })
              | some fd ↦ (
                opened fd,
                record filled {
                  open_files = record (filled.open_files) {
                    file_table =
                        update s.open_files.file_table p
                          (update (s.open_files.file_table p) fd (i + 1));
                  };
                },
              )
            ])
        search none (miss none_free) =
            leaks i (record filled { world = fl.vfs_close w v }) found (λ fd a b. none_free fd a b)
              place refl real refl (ground arith) (free_unnamed i free) refl
        search (some _) (hit fd f) =
            let empty : s.open_files.file_table p fd ≡ 0 = let e = f.passes in ground arith in
            gives fd i _ found f place refl real refl refl refl (entered fd f.below empty)

-- sys_open, in books that are right. Where vfs_open fails, it refuses with ENOENT and changes no
-- table. Where it gives a vnode: if the system's table is full, sys_open closes the vnode, refuses
-- with ENFILE and changes no table; else, if a descriptor from 3 on is free, the first such
-- descriptor names the first free slot, with the vnode and offset 0, and the books stay right; else
-- it closes the vnode and refuses with EMFILE, but the slot stays taken, counted once and named by
-- no descriptor.
pub sys_open-Opens :
    (fl : FileLayer) (n p path openflags mode : ℕ) (s : Files fl)
    → OpensVnodes fl
    → IsCounted fl n s
    → p < n
    → let (result, v, w) = fl.vfs_open s.world path openflags mode in
      Opens fl n p s result v w (sys_open fl p path openflags mode s)
unfolding sys_open enter_file
sys_open-Opens fl n p path openflags mode s layer h low =
    elim (Bool-cases ((fl.vfs_open s.world path openflags mode).0 == 0)) [
      | inr bad ↦ rw bad (fails (ground arith))
      | inl found ↦ rw found (
          search (ground arith) (layer.vnode s.world path openflags mode (ground arith))
            (find_first system_open_max 0 (λ i. s.vn (i + 1) == 0))
            (find_first-Search system_open_max 0 system_open_max (λ i. s.vn (i + 1) == 0) refl))
    ]
  where
    v : ℕ
    v = (fl.vfs_open s.world path openflags mode).1

    w : fl.World
    w = (fl.vfs_open s.world path openflags mode).2

    result : ℕ
    result = (fl.vfs_open s.world path openflags mode).0

    search :
        result ≡ 0
        → v ≢ 0
        → (o : Option ℕ) → Search (λ i. s.vn (i + 1) == 0) 0 system_open_max o
        → Opens fl n p s result v w (elim o [
          | none ↦ (refused enfile, record s { world = fl.vfs_close w v })
          | some i ↦ enter_descriptor fl p (i + 1) v (record s {
            world = w;
            vn = update s.vn (i + 1) v;
            offset = update s.offset (i + 1) 0;
            open_files = record (s.open_files) {
              count_ref = update s.open_files.count_ref (i + 1) 1;
            };
          })
        ])
    search good real none (miss none_free) = full good (λ i b. none_free i (omega arith) b)
    search good real (some _) (hit i f) =
        enter_descriptor-Opens fl n p s h low i result v good f real w
