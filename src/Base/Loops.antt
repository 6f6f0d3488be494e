-- ===== src/Base/Loops.antt =====
-- `for (i = start; ...; i++) if (p(i)) break;`
use Prim.Native.Nat.{ℕ, zero, suc, ◌+◌, ◌≤◌, ◌<◌}
use mathlib.Core.Path.{◌≡◌, refl}
use mathlib.Core.Logic.{inl, inr}
use mathlib.Core.Bool.{Bool, true, false}
use mathlib.Core.Option.{Option, none, some}
use native.Mathlib.Omega.{arith}
use os161_project_c.Base.Tests.{◌==◌, if◌then◌else◌, Bool-cases}

-- The first index from `i` on, over `k` indices, that passes the test.
unfoldable pub find_first : (k i : ℕ) → (ℕ → Bool) → Option ℕ
find_first zero i p = none
find_first (suc k) i p = let rest = find_first k (i + 1) p in if p i then some i else rest

pub record IsFirst (p : ℕ → Bool) (i end j : ℕ) : Type 0 where
  pub from : i ≤ j
  pub below : j < end
  pub passes : p j ≡ true
  pub before : (m : ℕ) → i ≤ m → m < j → p m ≡ false

abbrev NoneFrom : (ℕ → Bool) → ℕ → ℕ → Type 0
NoneFrom p i end = (m : ℕ) → i ≤ m → m < end → p m ≡ false

pub data Search (p : ℕ → Bool) (i end : ℕ) : Option ℕ → Type 0 where
  hit : (j : ℕ) → IsFirst p i end j → Search p i end (some j)
  miss : ((m : ℕ) → i ≤ m → m < end → p m ≡ false) → Search p i end none

-- A test that fails at `i` is left behind.
Search-suc :
    {p : ℕ → Bool} {i end : ℕ} {o : Option ℕ}
    → p i ≡ false
    → Search p (i + 1) end o
    → Search p i end o
Search-suc {p} {i} h (hit j f) = hit j (record {
  from = omega (arith, f.from);
  below = f.below;
  passes = f.passes;
  before = λ m a b. elim (Bool-cases (i == m)) [
    | inl same ↦ let e : m ≡ i = ground arith in ground arith
    | inr other ↦ f.before m (ground arith) b
  ];
})
Search-suc {p} {i} h (miss none_passes) = miss λ m a b. elim (Bool-cases (i == m)) [
  | inl same ↦ let e : m ≡ i = ground arith in ground arith
  | inr other ↦ none_passes m (ground arith) b
]

-- The search answers the first index that passes, or that there is none.
pub find_first-Search :
    (k i end : ℕ) (p : ℕ → Bool) → i + k ≡ end → Search p i end (find_first k i p)
unfolding find_first
find_first-Search zero i end p e = miss λ m a b. absurd (omega arith)
find_first-Search (suc k) i end p e = elim (Bool-cases (p i)) [
  | inl here ↦ rw here (
      hit i (record {
        from = omega arith;
        below = omega arith;
        passes = here;
        before = λ m a b. absurd (omega arith);
      }))
  | inr away ↦ rw away (Search-suc away (find_first-Search k (i + 1) end p (omega arith)))
]

-- Where no index passes, the search finds none.
pub find_first-none :
    (k i : ℕ) (p : ℕ → Bool) → ((m : ℕ) → i ≤ m → m < i + k → p m ≡ false) → find_first k i p ≡ none
unfolding find_first
find_first-none zero i p fails = refl
find_first-none (suc k) i p fails =
    rw (fails i (omega arith) (omega arith))
      (find_first-none k (i + 1) p λ m a b. fails m (omega arith) (omega arith))
