-- ===== src/Uio/Tests.antt =====
-- A write from two buffers of the kernel, the first of them empty.
use os161_project_c.Base.{ℕ, ◌≡◌, ok, refl, arith, ◌==◌, [], ◌∷◌}
use os161_project_c.Uio.{uio_write, uio_sysspace, Uio, Memory, Moved, space_for, uiomove}
use os161_project_c.Uio.Moves.{total, IsUio, Moves}
use os161_project_c.Uio.Contents.{AllWords, Delivers, uiomove-Delivers}

abbrev two_buffers : Uio
two_buffers = record {
  uio_iov = record { iov_base = 100; iov_len = 0 } ∷ record { iov_base = 200; iov_len = 5 } ∷ [];
  uio_offset = 7;
  uio_resid = 5;
  uio_segflg = uio_sysspace;
  uio_rw = uio_write;
  uio_space = 0;
}

-- The byte at an address is the address; user memory has one page that faults.
abbrev small : Memory
small = record {
  kernel = λ a. a;
  user = record { bytes = λ a. a; faulty = λ a. a == 4096; torn = λ dest len b. b };
}

two_buffers-IsUio : IsUio two_buffers
unfolding total
two_buffers-IsUio = record { sum = refl; resid = omega arith; offset = omega arith }

uiomove-Delivers_example :
    (r : Moved) × (done : ℕ) × (uiomove 9 300 3 two_buffers small ≡ ok r)
    × Moves 3 two_buffers r done
    × Delivers 300 3 two_buffers small r
unfolding space_for AllWords
uiomove-Delivers_example =
    uiomove-Delivers 9 300 3 two_buffers small two_buffers-IsUio (omega arith, (omega arith, tt))
      refl
