-- ===== src/Bitmap/Tests.antt =====
-- Bit maps on small inputs.
use os161_project_c.Base.{◌≡◌, refl, false, leb, arith, ◌==◌, ◌||◌}
use os161_project_c.Bitmap.{Bitmap, bitmap_isset, bitmap_alloc}
use os161_project_c.Bitmap.Bits.{IsWf}
use os161_project_c.Bitmap.Alloc.{Allocates, bitmap_alloc-Allocates}

-- Eleven bits, of which the first nine are set.
abbrev nine_set : Bitmap
nine_set = record { nbits = 11; v = λ ix o. (ix == 0) || ((o == 0) || leb 3 o) }

nine_set-IsWf : IsWf nine_set
unfolding bitmap_isset
nine_set-IsWf i a b = ground arith

bit_ten_clear : bitmap_isset nine_set 10 ≡ false
unfolding bitmap_isset
bit_ten_clear = refl

bitmap_alloc-Allocates_example : Allocates nine_set (bitmap_alloc nine_set)
bitmap_alloc-Allocates_example = bitmap_alloc-Allocates nine_set nine_set-IsWf
