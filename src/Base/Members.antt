-- ===== src/Base/Members.antt =====
-- Members of lists of numbers, such as the threads on a wait channel.
use Prim.Native.Nat.{ℕ, ◌+◌}
use mathlib.Core.Path.{◌≡◌, refl}
use mathlib.Core.Bool.{Bool, true, false, ◌||◌}
use mathlib.Core.List.{List, [], ◌∷◌, ◌++◌}
use native.Mathlib.Omega.{arith}
use os161_project_c.Base.Tests.{◌==◌}

abbrev pub is_member : ℕ → List ℕ → Bool
is_member i [] = false
is_member i (j ∷ l) = (i == j) || is_member i l

-- Nothing is on the list twice.
abbrev pub Distinct : List ℕ → Type 0
Distinct [] = Unit
Distinct (j ∷ l) = (is_member j l ≡ false) × Distinct l

pub is_member-append :
    (i j : ℕ) (l : List ℕ) → is_member i (l ++ (j ∷ [])) ≡ (is_member i l || (i == j))
is_member-append i j [] = ground arith
is_member-append i j (k ∷ l) = ground (arith, is_member-append i j l)

pub Distinct-append :
    (j : ℕ) (l : List ℕ) → is_member j l ≡ false → Distinct l → Distinct (l ++ (j ∷ []))
Distinct-append j [] away d = (refl, tt)
Distinct-append j (k ∷ l) away d =
    (ground (arith, is_member-append k j l), Distinct-append j l (ground arith) d.1)

pub is_member-++ : (i : ℕ) (l r : List ℕ) → is_member i (l ++ r) ≡ (is_member i l || is_member i r)
is_member-++ i [] r = refl
is_member-++ i (k ∷ l) r = ground (arith, is_member-++ i l r)

-- The halves of a list without repetitions have none, and share nothing.
pub Distinct-split :
    (l r : List ℕ)
    → Distinct (l ++ r)
    → Distinct l × Distinct r × ((i : ℕ) → is_member i l ≡ true → is_member i r ≡ false)
Distinct-split [] r d = (tt, d, λ i m. cc)
Distinct-split (k ∷ l) r d =
    let (left, right, apart) = Distinct-split l r d.1 in
    (
      (ground (arith, is_member-++ k l r), left),
      right,
      λ i m. ground (arith, is_member-++ k l r, apart i),
    )

-- Something new may be put anywhere.
pub Distinct-insert :
    (l r : List ℕ) (t : ℕ)
    → Distinct (l ++ r)
    → is_member t (l ++ r) ≡ false
    → Distinct (l ++ (t ∷ r))
Distinct-insert [] r t d away = (away, d)
Distinct-insert (k ∷ l) r t d away = (
  ground (arith, is_member-++ k l r, is_member-++ k l (t ∷ r)),
  Distinct-insert l r t d.1 (ground arith),
)

-- Anything may be taken out, and is then away.
pub Distinct-remove :
    (l r : List ℕ) (t : ℕ)
    → Distinct (l ++ (t ∷ r))
    → Distinct (l ++ r) × (is_member t (l ++ r) ≡ false)
Distinct-remove [] r t d = (d.1, d.0)
Distinct-remove (k ∷ l) r t d =
    let (rest, away) = Distinct-remove l r t d.1 in
    (
      (ground (arith, is_member-++ k l r, is_member-++ k l (t ∷ r)), rest),
      ground (arith, is_member-++ k l (t ∷ r)),
    )

abbrev pub length {ℓ} : {A : Type ℓ} → List A → ℕ
length [] = 0
length (x ∷ l) = length l + 1

pub length-++ {ℓ} : {A : Type ℓ} (l r : List A) → length (l ++ r) ≡ length l + length r
length-++ [] r = omega arith
length-++ (x ∷ l) r = omega (arith, length-++ l r)
