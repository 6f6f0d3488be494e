-- ===== src/Base/Totals.antt =====
-- The weight of the first `n` members of a family, such as the threads by where they stand.
use Prim.Native.Nat.{ℕ, zero, suc, ◌+◌, ◌≤◌, ◌<◌}
use mathlib.Core.Path.{◌≡◌, refl}
use mathlib.Core.Logic.{inl, inr}
use native.Mathlib.Omega.{arith}
use os161_project_c.Base.Tests.{ltb, ltb→lt, Bool-cases}
use os161_project_c.Base.Maps.{update}

-- `w (f 0) + ... + w (f (n - 1))`
unfoldable pub weigh {ℓ} : {A : Type ℓ} → (w : A → ℕ) (f : ℕ → A) → ℕ → ℕ
weigh w f zero = 0
weigh w f (suc n) = w (f n) + weigh w f n

-- A member that is not weighed may be anything.
weigh-beyond {ℓ} :
    {A : Type ℓ} (w : A → ℕ) (f : ℕ → A) (a : A) {i : ℕ} (n : ℕ)
    → n ≤ i
    → weigh w (update f i a) n ≡ weigh w f n
unfolding weigh
weigh-beyond w f a zero far = refl
weigh-beyond w f a {i} (suc n) far = ground (arith, weigh-beyond w f a {i = i} n (omega arith))

-- A new member puts its weight for the old one's.
pub weigh-update {ℓ} :
    {A : Type ℓ} (w : A → ℕ) (f : ℕ → A) (a : A) {i : ℕ} (n : ℕ)
    → i < n
    → w (f i) + weigh w (update f i a) n ≡ w a + weigh w f n
unfolding weigh
weigh-update w f a zero far = absurd (omega arith)
weigh-update w f a {i} (suc n) near = elim (Bool-cases (ltb i n)) [
  | inr at_end ↦
      let e : i ≡ n = ground arith in ground (arith, weigh-beyond w f a {i = i} n (ground arith))
  | inl within ↦ ground (arith, weigh-update w f a {i = i} n (ground arith))
]

-- No member weighs more than all.
pub weigh-has {ℓ} :
    {A : Type ℓ} (w : A → ℕ) (f : ℕ → A) {i : ℕ} (n : ℕ) → i < n → w (f i) ≤ weigh w f n
unfolding weigh
weigh-has w f zero far = absurd (omega arith)
weigh-has w f {i} (suc n) near = elim (Bool-cases (ltb i n)) [
  | inr at_end ↦ let e : i ≡ n = ground arith in rw e (omega arith)
  | inl within ↦ omega (arith, weigh-has w f {i = i} n (ground arith))
]

-- Where all weigh something, a member does.
pub weigh-some {ℓ} :
    {A : Type ℓ} (w : A → ℕ) (f : ℕ → A) (n : ℕ)
    → 0 < weigh w f n
    → (i : ℕ) × (i < n) × (0 < w (f i))
unfolding weigh
weigh-some w f zero heavy = absurd (omega arith)
weigh-some w f (suc n) heavy = elim (Bool-cases (ltb 0 (w (f n)))) [
  | inl at_end ↦ (n, omega arith, ltb→lt 0 (w (f n)) at_end)
  | inr light ↦ let (i, low, weighs) = weigh-some w f n (ground arith) in (i, omega arith, weighs)
]
