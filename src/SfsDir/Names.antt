-- ===== src/SfsDir/Names.antt =====
-- Names as strcmp compares them.
use os161_project_c.Base.{
  ℕ, zero, suc, ◌≤◌, ◌≡◌, refl, ap, ◌∙◌, true, arith, ◌==◌, [], ◌∷◌, Bool-cases, inl, inr,
}
use os161_project_c.Base.Members.{length}
use os161_project_c.SfsDir.{Name, same_name, cut_off}

pub same_name_refl : (a : Name) → same_name a a ≡ true
unfolding same_name
same_name_refl [] = refl
same_name_refl (c ∷ a) =
    let same : (c == c) ≡ true = ground arith in rw (same, same_name_refl a) refl

pub same_name-≡ : (a b : Name) → same_name a b ≡ true → a ≡ b
unfolding same_name
same_name-≡ [] [] e = refl
same_name-≡ [] (d ∷ b) e = absurd (ground (arith, e))
same_name-≡ (c ∷ a) [] e = absurd (ground (arith, e))
same_name-≡ (c ∷ a) (d ∷ b) e = elim (Bool-cases (c == d)) [
  | inl same ↦
      let heads : c ≡ d = ground arith in
      ap (λ x. x ∷ a) heads ∙ ap (λ x. d ∷ x) (same_name-≡ a b (ground (arith, e)))
  | inr other ↦ absurd (ground (arith, e))
]

-- A name that fits in an entry is read as it was written.
pub cut_off-short : (n : ℕ) (a : Name) → length a ≤ n → cut_off n a ≡ a
unfolding cut_off
cut_off-short zero [] l = refl
cut_off-short zero (c ∷ a) l = absurd (omega arith)
cut_off-short (suc n) [] l = refl
cut_off-short (suc n) (c ∷ a) l = ap (λ x. c ∷ x) (cut_off-short n a (omega arith))
