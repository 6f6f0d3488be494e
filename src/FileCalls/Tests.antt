-- ===== src/FileCalls/Tests.antt =====
-- The calls on files over a layer that opens every path as vnode 9.
use os161_project_c.Base.{ℕ, zero, suc, ◌+◌, ◌-◌, ◌≡◌, refl, ◌≢◌, arith, update, weigh, pos}
use os161_project_c.Proc.{open_max}
use os161_project_c.Proc.Files.{descriptors_of}
use os161_project_c.FileCalls.{FileLayer, Files, sys_open, sys_close, file_read}
use os161_project_c.FileCalls.Counts.{
  references, references-update, IsCounted, Closed, sys_close-Closed,
}
use os161_project_c.FileCalls.Opening.{OpensVnodes, Opens, sys_open-Opens}

-- The world is the number of open vnodes.
abbrev counting_layer : FileLayer
counting_layer = record {
  World = ℕ;
  vfs_open = λ w path openflags mode. (0, 9, w + 1);
  vfs_close = λ w v. w - 1;
  vop_read = λ w vn offset buf_ptr size. record {
    result = 0;
    resid = 0;
    next_offset = offset + size;
    world = w;
  };
  vop_write = λ w vn offset buf_ptr size. record {
    result = 0;
    resid = 0;
    next_offset = offset + size;
    world = w;
  };
  getch = λ w. (pos 10, w);
  putch = λ w c. w;
  load = λ w a. pos 0;
  store = λ w a c. w;
}

counting_layer-OpensVnodes : OpensVnodes counting_layer
counting_layer-OpensVnodes = record { vnode = λ w path openflags mode e. omega arith }

abbrev nothing_open : Files counting_layer
nothing_open = record {
  vn = λ of. 0;
  offset = λ of. 0;
  open_files = record { file_table = λ p fd. 0; count_ref = λ of. 0 };
  world = 0;
}

none_named : (of n : ℕ) → of ≢ 0 → descriptors_of of n (λ fd. 0) ≡ 0
unfolding descriptors_of
none_named of zero real = refl
none_named of (suc n) real = ground (arith, none_named of n real)

nothing_referenced : (of : ℕ) → of ≢ 0 → references of 1 (λ p fd. 0) ≡ 0
unfolding references weigh
nothing_referenced of real = omega (arith, none_named of open_max real)

nothing_open-IsCounted : IsCounted counting_layer 1 nothing_open
nothing_open-IsCounted = record {
  counted = λ of real. omega (arith, nothing_referenced of real);
  live = λ of real named. absurd (omega (arith, nothing_referenced of real));
  few = omega arith;
}

sys_open-Opens_example :
    Opens counting_layer 1 0 nothing_open 0 9 1 (sys_open counting_layer 0 5 0 0 nothing_open)
sys_open-Opens_example =
    sys_open-Opens counting_layer 1 0 5 0 0 nothing_open counting_layer-OpensVnodes
      nothing_open-IsCounted (omega arith)

-- Descriptor 3 of process 0 is the only open one.
abbrev one_open : Files counting_layer
one_open = record {
  vn = update (λ of. 0) 1 9;
  offset = λ of. 0;
  open_files = record {
    file_table = update (λ p fd. 0) 0 (update (λ fd. 0) 3 1);
    count_ref = update (λ of. 0) 1 1;
  };
  world = 1;
}

one_open-IsCounted : IsCounted counting_layer 1 one_open
one_open-IsCounted = record {
  counted = λ of real. ground (
    arith,
    nothing_referenced of real,
    references-update of 1 (λ p fd. 0) 0 3 1 (omega arith) (omega arith),
  );
  live = λ of real named. ground (
    arith,
    nothing_referenced of real,
    references-update of 1 (λ p fd. 0) 0 3 1 (omega arith) (omega arith),
  );
  few = omega arith;
}

sys_close-Closed_example :
    ((sys_close counting_layer 0 (pos 3) one_open).0 ≡ pos 0)
    × Closed counting_layer 1 0 3 one_open (sys_close counting_layer 0 (pos 3) one_open).1
sys_close-Closed_example =
    sys_close-Closed counting_layer 1 one_open 0 3 one_open-IsCounted (omega arith) (omega arith)
      (omega arith)

-- Reading moves the offset.
file_read-offset : (file_read counting_layer 0 (pos 3) 4096 16 one_open).1.offset 1 ≡ 16
unfolding file_read
file_read-offset = refl
