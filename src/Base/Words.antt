-- ===== src/Base/Words.antt =====
-- Masks and pages of 32-bit addresses, in the form that the arithmetic tactics read.
use Prim.Native.Nat.{ℕ, ◌*◌, ◌/◌, ◌%◌, ◌^◌}
use mathlib.Core.Bool.{Bool}
use os161_project_c.Base.Tests.{◌==◌}

-- `x & m` for the mask `m` of the bits from `lo` up to, not including, `hi`.
abbrev pub bits : ℕ → ℕ → ℕ → ℕ
bits lo hi x = x % 2 ^ hi / 2 ^ lo * 2 ^ lo

abbrev pub page_size : ℕ
page_size = 4096

-- `x & PAGE_FRAME`
abbrev pub page_frame : ℕ → ℕ
page_frame x = bits 12 32 x

-- Two addresses lie in one page.
abbrev pub same_page : ℕ → ℕ → Bool
same_page v w = v / page_size == w / page_size
