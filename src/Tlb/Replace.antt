-- ===== src/Tlb/Replace.antt =====
-- Which entries the translation buffer has after a removal and after a switch of address spaces, and
-- which slots a run of replacements goes through.
use os161_project_c.Base.{
  ℕ, zero, suc, ◌+◌, ◌/◌, ◌%◌, ◌^◌, ◌<◌, ◌≤◌, ◌≡◌, ◌≢◌, refl, ◌∙◌, Bool, false, Bool-cases, inl,
  inr, Option, none, ◌==◌, for_below-fill, find_first-none, find_first-Search, Search, hit, miss,
  IsFirst, lt→ltb, page_size, arith,
}
use os161_project_c.Tlb.{
  Tlb, num_tlb, invalid_entry, tlb_write, tlb_probe, remove_va, tlb_get_rr_victim, flush,
}

abbrev matches : ℕ → Tlb → ℕ → Bool
matches va t i = (t.entries i).hi / page_size == va / page_size

-- When the buffer was emptied, no user address has a translation.
pub tlb_probe-flush : (t : Tlb) (va : ℕ) → va < 2 ^ 31 → tlb_probe va (flush t) ≡ none
unfolding tlb_probe flush
tlb_probe-flush t va user =
    find_first-none num_tlb 0 _
      λ m a b. rw (for_below-fill num_tlb invalid_entry t.entries m, lt→ltb _ _ b) (ground arith)

-- No two slots translate one page.
abbrev pub IsUnique : Tlb → Type 0
IsUnique t =
    (i j : ℕ)
    → i < num_tlb
    → j < num_tlb
    → (t.entries i).hi / page_size ≡ (t.entries j).hi / page_size
    → i ≡ j

-- The removed entry is gone, and the others are of other pages.
others :
    (t : Tlb) (va index : ℕ)
    → va < 2 ^ 31
    → IsUnique t
    → IsFirst (matches va t) 0 num_tlb index
    → (m : ℕ) → 0 ≤ m
    → m < 0 + num_tlb
    → matches va (tlb_write index (invalid_entry index) t) m ≡ false
others t va index user unique f m a b = elim (Bool-cases (index == m)) [
  | inl same ↦ rw same (ground arith)
  | inr other ↦ rw other (elim (Bool-cases (matches va t m)) [
    | inl here ↦
        absurd
          (let hit_ = f.passes in let at = unique index m f.below b (ground arith) in ground arith)
    | inr away ↦ away
  ])
]

removed :
    (t : Tlb) (va : ℕ)
    → va < 2 ^ 31
    → IsUnique t
    → {o : Option ℕ} → tlb_probe va t ≡ o
    → Search (matches va t) 0 num_tlb o
    → tlb_probe va (remove_va va t) ≡ none
unfolding remove_va tlb_probe
removed t va user unique e (miss none_matches) = rw (e, remove_va) e
removed t va user unique e (hit index f) =
    rw (e, remove_va) (find_first-none num_tlb 0 _ (others t va index user unique f))

slot_stays :
    (t : Tlb) (va i : ℕ)
    → (t.entries i).hi / page_size ≢ va / page_size
    → {o : Option ℕ} → tlb_probe va t ≡ o
    → Search (matches va t) 0 num_tlb o
    → (remove_va va t).entries i ≡ t.entries i
unfolding remove_va
slot_stays t va i other e (miss nowhere) = rw (e, remove_va) refl
slot_stays t va i other e (hit index f) =
    rw (e, remove_va)
      (elim (Bool-cases (i == index)) [
        | inl same ↦
            let at : i ≡ index = ground arith in
            let passes = f.passes in absurd (ground (arith, at))
        | inr away ↦ ground arith
      ])

-- A slot that translates another page stays.
pub remove_va-others :
    (t : Tlb) (va i : ℕ)
    → (t.entries i).hi / page_size ≢ va / page_size
    → (remove_va va t).entries i ≡ t.entries i
unfolding remove_va tlb_probe
remove_va-others t va i other =
    slot_stays t va i other refl (find_first-Search num_tlb 0 num_tlb (matches va t) (omega arith))

-- Where no two slots translate one page, the removal of a user address leaves no translation of it.
pub tlb_probe-remove_va :
    (t : Tlb) (va : ℕ) → va < 2 ^ 31 → IsUnique t → tlb_probe va (remove_va va t) ≡ none
unfolding tlb_probe
tlb_probe-remove_va t va user unique =
    removed t va user unique refl (find_first-Search num_tlb 0 num_tlb _ (omega arith))

-- The slot that the call number `n` of `tlb_get_rr_victim` gives, from call 0 on.
unfoldable pub nth_victim : ℕ → Tlb → ℕ
nth_victim zero t = (tlb_get_rr_victim t).0
nth_victim (suc n) t = nth_victim n (tlb_get_rr_victim t).1

nth_victim-eq :
    (n : ℕ) (t : Tlb)
    → t.current_victim < num_tlb
    → nth_victim n t ≡ (t.current_victim + n) % num_tlb
unfolding nth_victim tlb_get_rr_victim
nth_victim-eq zero t l = omega arith
nth_victim-eq (suc n) t l = nth_victim-eq n _ (omega arith) ∙ omega arith

-- From a hand inside the buffer, 64 replacements in a row take 64 different slots, and then the first comes again.
pub nth_victim-distinct :
    (t : Tlb) (i j : ℕ)
    → t.current_victim < num_tlb
    → i < j
    → j < i + num_tlb
    → (nth_victim i t ≢ nth_victim j t) × (nth_victim (i + num_tlb) t ≡ nth_victim i t)
nth_victim-distinct t i j l a b =
    rw (nth_victim-eq i t l, nth_victim-eq j t l, nth_victim-eq (i + num_tlb) t l) (ground arith)
