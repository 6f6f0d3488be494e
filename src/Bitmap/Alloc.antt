-- ===== src/Bitmap/Alloc.antt =====
-- The allocation of a bit: `bitmap_alloc` of kern/lib/bitmap.c.
use os161_project_c.Base.{
  ℕ, zero, suc, ◌+◌, ◌*◌, ◌/◌, ◌%◌, ◌≤◌, ◌<◌, ◌≡◌, refl, inl, inr, Bool, true, false, not, ltb,
  Bool-cases, Option, none, some, Outcome, ok, ◌>>=◌, arith, find_first, IsFirst, Search, hit, miss,
  find_first-Search,
}
use os161_project_c.Bitmap.{
  Bitmap, Word, bits_per_word, words_of, is_all_bits, alloc_in_word, bitmap_alloc, bitmap_isset,
}
use os161_project_c.Bitmap.Bits.{IsWf, Changed, put_bit-Changed, Changed-IsWf}

-- The first clear bit is set, or there is none and the answer is ENOSPC.
pub data Allocates (b : Bitmap) : Outcome (Option (ℕ × Bitmap)) → Type 0 where
  allocated :
      (index : ℕ) (b' : Bitmap)
      → index < b.nbits
      → bitmap_isset b index ≡ false
      → ((i : ℕ) → i < index → bitmap_isset b i ≡ true)
      → Changed b index true b'
      → IsWf b'
      → Allocates b (ok (some (index, b')))
  no_space : ((i : ℕ) → i < b.nbits → bitmap_isset b i ≡ true) → Allocates b (ok none)

abbrev clear_in : Word → ℕ → Bool
clear_in w offset = not (w offset)

-- The bits of a full word.
full_word :
    (w : Word) (offset : ℕ) → is_all_bits w ≡ true → offset < bits_per_word → w offset ≡ true
full_word w zero a l = ground arith
full_word w (suc zero) a l = ground arith
full_word w (suc (suc zero)) a l = ground arith
full_word w (suc (suc (suc zero))) a l = ground arith
full_word w (suc (suc (suc (suc zero)))) a l = ground arith
full_word w (suc (suc (suc (suc (suc zero))))) a l = ground arith
full_word w (suc (suc (suc (suc (suc (suc zero)))))) a l = ground arith
full_word w (suc (suc (suc (suc (suc (suc (suc zero))))))) a l = ground arith
full_word w (suc (suc (suc (suc (suc (suc (suc (suc o)))))))) a l = absurd (omega arith)

-- A word without a clear bit is full.
no_clear :
    (w : Word) → ((o : ℕ) → 0 ≤ o → o < bits_per_word → clear_in w o ≡ false) → is_all_bits w ≡ true
no_clear w all_set = ground (
  arith,
  all_set 0 (omega arith) (omega arith),
  all_set 1 (omega arith) (omega arith),
  all_set 2 (omega arith) (omega arith),
  all_set 3 (omega arith) (omega arith),
  all_set 4 (omega arith) (omega arith),
  all_set 5 (omega arith) (omega arith),
  all_set 6 (omega arith) (omega arith),
  all_set 7 (omega arith) (omega arith),
)

-- All bits in front of a word that is the first not to be full are set.
full_before :
    (b : Bitmap) (ix i : ℕ)
    → ((m : ℕ) → 0 ≤ m → m < ix → not (is_all_bits (b.v m)) ≡ false)
    → i < ix * bits_per_word
    → bitmap_isset b i ≡ true
unfolding bitmap_isset
full_before b ix i full l =
    full_word (b.v (i / bits_per_word)) (i % bits_per_word)
      (let f = full (i / bits_per_word) (omega arith) (omega arith) in ground arith) (omega arith)

before_in_word :
    (b : Bitmap) (ix offset i : ℕ)
    → IsFirst (λ m. not (is_all_bits (b.v m))) 0 (words_of b.nbits) ix
    → IsFirst (clear_in (b.v ix)) 0 bits_per_word offset
    → i < ix * bits_per_word + offset
    → bitmap_isset b i ≡ true
unfolding bitmap_isset
before_in_word b ix offset i word first l = elim (Bool-cases (ltb i (ix * bits_per_word))) [
  | inl earlier ↦ full_before b ix i word.before (ground arith)
  | inr later ↦
      let at : i / bits_per_word ≡ ix = (let f = first.below in ground arith) in
      rw (bitmap_isset, at)
        (let set = first.before (i % bits_per_word) (omega arith) (ground arith) in ground arith)
]

-- The first clear bit of the word, which is no leftover bit.
in_word :
    (b : Bitmap) (ix : ℕ)
    → IsWf b
    → IsFirst (λ m. not (is_all_bits (b.v m))) 0 (words_of b.nbits) ix
    → {o : Option ℕ} → find_first bits_per_word 0 (clear_in (b.v ix)) ≡ o
    → Search (clear_in (b.v ix)) 0 bits_per_word o
    → Allocates b (alloc_in_word ix b >>= λ r. ok (some r))
unfolding alloc_in_word bitmap_isset
in_word b ix wf word e (miss all_set) =
    absurd (let all = no_clear (b.v ix) all_set in let w = word.passes in ground arith)
in_word b ix wf word e (hit offset first) =
    let index = ix * bits_per_word + offset in
    let clear = first.passes in
    let below = first.below in
    let room = word.below in
    let here : bitmap_isset b index ≡ false = ground arith in
    let inside : index < b.nbits = elim (Bool-cases (ltb index b.nbits)) [
      | inl inside ↦ ground arith
      | inr beyond ↦ absurd (let set = wf index (ground arith) (omega arith) in cc)
    ] in
    let real : ltb index b.nbits ≡ true = ground arith in
    let change = put_bit-Changed b ix offset true below in
    rw (e, alloc_in_word, real)
      (allocated index _ inside here (λ i l. before_in_word b ix offset i word first l) change
        (Changed-IsWf wf inside change))

in_map :
    (b : Bitmap)
    → IsWf b
    → {o : Option ℕ} → find_first (words_of b.nbits) 0 (λ m. not (is_all_bits (b.v m))) ≡ o
    → Search (λ m. not (is_all_bits (b.v m))) 0 (words_of b.nbits) o
    → Allocates b (bitmap_alloc b)
unfolding bitmap_alloc
in_map b wf e (miss all_full) =
    rw (e, bitmap_alloc) (no_space λ i l. full_before b (words_of b.nbits) i all_full (omega arith))
in_map b wf e (hit ix word) =
    rw (e, bitmap_alloc)
      (in_word b ix wf word refl
        (find_first-Search bits_per_word 0 bits_per_word (clear_in (b.v ix)) refl))

-- A well formed map gives out its first clear bit, sets it and stays well formed; the answer is ENOSPC
-- when every bit is set, and the kernel never stops.
pub bitmap_alloc-Allocates : (b : Bitmap) → IsWf b → Allocates b (bitmap_alloc b)
bitmap_alloc-Allocates b wf =
    in_map b wf refl (find_first-Search (words_of b.nbits) 0 (words_of b.nbits) _ (omega arith))
