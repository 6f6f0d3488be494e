-- ===== src/Base/Maps.antt =====
-- Arrays as functions of their index, and loops that run `for (i = 0; i < n; i++)`.
use Prim.Native.Nat.{ℕ, zero, suc, ◌+◌}
use mathlib.Core.Path.{◌≡◌}
use native.Mathlib.Omega.{arith}
use os161_project_c.Base.Tests.{ltb, in_run, ◌==◌, if◌then◌else◌}

-- `f[i] = v`
abbrev pub update {ℓ} : {A : Type ℓ} → (ℕ → A) → ℕ → A → ℕ → A
update f i v j = if i == j then v else f j

-- The body runs for 0, 1, ..., n - 1 in this order.
unfoldable pub for_below {ℓ} : {S : Type ℓ} → ℕ → (ℕ → S → S) → S → S
for_below zero body s = s
for_below (suc n) body s = body n (for_below n body s)

-- A loop that only assigns `f[i] = v i` fills the first `n` places and leaves the others.
pub for_below-fill {ℓ} :
    {A : Type ℓ} (n : ℕ) (v : ℕ → A) (f : ℕ → A) (j : ℕ)
    → for_below n (λ i g. update g i (v i)) f j ≡ (if ltb j n then v j else f j)
unfolding for_below
for_below-fill zero v f j = ground arith
for_below-fill (suc n) v f j = ground (arith, for_below-fill n v f j)

-- A loop that changes the `n` places from `s` on, each once.
pub for_below-range {ℓ} :
    {A : Type ℓ} (n s : ℕ) (g : A → A) (f : ℕ → A) (i : ℕ)
    → for_below n (λ j h. update h (s + j) (g (h (s + j)))) f i
      ≡ (if in_run s n i then g (f i) else f i)
unfolding for_below
for_below-range zero s g f i = ground arith
for_below-range (suc n) s g f i =
    ground (arith, for_below-range n s g f i, for_below-range n s g f (s + n))
