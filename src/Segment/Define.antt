-- ===== src/Segment/Define.antt =====
-- A segment is described once, and a copy is described alike.
use os161_project_c.Base.{ℕ, ◌≡◌, ◌≢◌, refl, true, ok, panic, arith}
use os161_project_c.Segment.{Segment, empty_segment, check_unused, seg_define, seg_copy}

-- Nothing but a segment as `seg_create` leaves it passes the assertions.
check_unused-panic : (seg : Segment) → seg ≢ empty_segment → check_unused seg ≡ panic
unfolding check_unused
check_unused-panic seg used = ground (arith, used)

-- A segment that was described with a type other than 0 is not described again: the kernel stops.
pub seg_define-once :
    (seg seg' : Segment) (r t o a f m p v t' o' a' f' m' p' v' : ℕ)
    → t ≢ 0
    → seg_define seg t o a f m p v ≡ ok (r, seg')
    → seg_define seg' t' o' a' f' m' p' v' ≡ panic
unfolding seg_define
seg_define-once seg seg' r t o a f m p v t' o' a' f' m' p' v' ne done = ground arith

-- `seg_copy` makes an equal segment, whatever the old one holds.
pub seg_copy-same : (seg : Segment) → seg_copy true seg ≡ ok (0, seg)
unfolding seg_copy
seg_copy-same seg = refl
