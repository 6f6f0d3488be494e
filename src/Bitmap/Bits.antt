-- ===== src/Bitmap/Bits.antt =====
-- Single bits: creation, mark and unmark.
use os161_project_c.Base.{
  ℕ, zero, suc, ◌+◌, ◌-◌, ◌*◌, ◌/◌, ◌%◌, ◌≤◌, ◌<◌, ◌≡◌, ◌≢◌, refl, ◌∙◌, inl, inr, Bool, true, false,
  not, ◌&&◌, ltb, leb, ◌==◌, if◌then◌else◌, Bool-cases, for_below, in_run, some, Outcome, ok, panic,
  ◌>>=◌, arith,
}
use os161_project_c.Bitmap.{
  Bitmap, Word, bits_per_word, words_of, put_bit, mark_leftover, bitmap_create, bitmap_isset,
  bitmap_mark, bitmap_unmark,
}

-- The bits of the last word that are behind the end of the map are set.
abbrev pub IsWf : Bitmap → Type 0
IsWf b = (i : ℕ) → b.nbits ≤ i → i < words_of b.nbits * bits_per_word → bitmap_isset b i ≡ true

-- One bit was changed.
pub record Changed (b : Bitmap) (index : ℕ) (value : Bool) (b' : Bitmap) : Type 0 where
  pub size : b'.nbits ≡ b.nbits
  pub now : bitmap_isset b' index ≡ value
  pub others : (i : ℕ) → i ≢ index → bitmap_isset b' i ≡ bitmap_isset b i

pub put_bit-Changed :
    (b : Bitmap) (ix offset : ℕ) (value : Bool)
    → offset < bits_per_word
    → Changed b (ix * bits_per_word + offset) value (record b { v = put_bit ix offset value b.v })
unfolding bitmap_isset
put_bit-Changed b ix offset value l = record {
  size = refl;
  now = ground arith;
  others = λ i ne. ground (arith, ne);
}

pub Changed-IsWf :
    {b b' : Bitmap} {index : ℕ} {value : Bool}
    → IsWf b
    → index < b.nbits
    → Changed b index value b'
    → IsWf b'
Changed-IsWf {b} {b'} {index} wf l h i beyond inside =
    let same = h.size in h.others i (ground arith) ∙ wf i (omega arith) (rw (← same) inside)

put_bit-at :
    (b : Bitmap) (index : ℕ) (value : Bool)
    → Changed b index value
        (record b { v = put_bit (index / bits_per_word) (index % bits_per_word) value b.v })
unfolding bitmap_isset
put_bit-at b index value = record {
  size = refl;
  now = ground arith;
  others = λ i ne. ground (arith, ne);
}

-- A routine asserts that the bit has the other value, and changes this bit alone.
pub data Flips (b : Bitmap) (index : ℕ) (value : Bool) : Outcome Bitmap → Type 0 where
  flipped :
      {b' : Bitmap}
      → bitmap_isset b index ≡ not value
      → Changed b index value b'
      → Flips b index value (ok b')
  refused : bitmap_isset b index ≡ value → Flips b index value panic

-- For a bit of the map, mark sets a clear one and stops the kernel on a set one, unmark clears a set one
-- and stops the kernel on a clear one, and neither touches another bit.
pub bitmap_mark-Flips :
    (b : Bitmap) (index : ℕ)
    → index < b.nbits
    → Flips b index true (bitmap_mark b index) × Flips b index false (bitmap_unmark b index)
unfolding bitmap_mark bitmap_unmark bitmap_isset
bitmap_mark-Flips b index l =
    let inside : ltb index b.nbits ≡ true = ground arith in
    elim (Bool-cases (b.v (index / bits_per_word) (index % bits_per_word))) [
      | inl set ↦ (
        rw (inside, set) (refused set),
        rw (inside, set) (flipped set (put_bit-at b index false)),
      )
      | inr clear ↦ (
        rw (inside, clear) (flipped clear (put_bit-at b index true)),
        rw (inside, clear) (refused clear),
      )
    ]

-- A bit that is marked and then unmarked leaves the map as it was, bit for bit.
pub bitmap_unmark-bitmap_mark :
    (b : Bitmap) (index : ℕ)
    → index < b.nbits
    → bitmap_isset b index ≡ false
    → (b' : Bitmap) × ((bitmap_mark b index >>= λ marked. bitmap_unmark marked index) ≡ ok b')
      × ((i : ℕ) → bitmap_isset b' i ≡ bitmap_isset b i)
unfolding bitmap_mark bitmap_unmark bitmap_isset
bitmap_unmark-bitmap_mark b index l clear =
    let ix = index / bits_per_word in
    let offset = index % bits_per_word in
    let b' : Bitmap = record b { v = put_bit ix offset false (put_bit ix offset true b.v) } in
    (b', ground arith, λ i. ground arith)

-- Unmarking a set bit clears it alone.
pub bitmap_unmark-ok :
    (b : Bitmap) (index : ℕ)
    → index < b.nbits
    → bitmap_isset b index ≡ true
    → (b' : Bitmap) × (bitmap_unmark b index ≡ ok b') × Changed b index false b'
unfolding bitmap_unmark bitmap_isset
bitmap_unmark-ok b index l set =
    let inside : ltb index b.nbits ≡ true = ground arith in
    (
      record b { v = put_bit (index / bits_per_word) (index % bits_per_word) false b.v },
      rw (inside, set) refl,
      put_bit-at b index false,
    )

abbrev zeroed : ℕ → Word
zeroed ix offset = false

-- The loop over the leftover bits.
put_bits :
    (n ix s i offset : ℕ) (v : ℕ → Word)
    → for_below n (λ j v'. put_bit ix (s + j) true v') v i offset
      ≡ (if (ix == i) && in_run s n offset then true else v i offset)
unfolding for_below
put_bits zero ix s i offset v = ground arith
put_bits (suc n) ix s i offset v =
    ground (arith, put_bits n ix s i offset v, put_bits n ix s ix offset v)

-- The words of a new map.
Fresh : ℕ → (ℕ → Word) → Type 0
Fresh nbits v =
    (i : ℕ)
    → i < words_of nbits * bits_per_word
    → v (i / bits_per_word) (i % bits_per_word) ≡ leb nbits i

mark_leftover-Fresh :
    (nbits : ℕ)
    → nbits / bits_per_word < words_of nbits
    → (v : ℕ → Word) × (mark_leftover nbits (words_of nbits) zeroed ≡ ok v) × Fresh nbits v
unfolding mark_leftover Fresh
mark_leftover-Fresh nbits l =
    let ix = words_of nbits - 1 in
    let over = nbits - ix * bits_per_word in
    (
      for_below (bits_per_word - over) (λ j v'. put_bit ix (over + j) true v') zeroed,
      ground arith,
      λ i inside.
          put_bits (bits_per_word - over) ix over (i / bits_per_word) (i % bits_per_word) zeroed
          ∙ ground arith,
    )

of_words :
    (nbits : ℕ) (v : ℕ → Word)
    → Fresh nbits v
    → (b : Bitmap) × (ok (some (record { nbits = nbits; v = v })) ≡ ok (some b))
      × (b.nbits ≡ nbits)
      × IsWf b
      × ((i : ℕ) → i < nbits → bitmap_isset b i ≡ false)
unfolding Fresh bitmap_isset
of_words nbits v fresh = (
  record { nbits = nbits; v = v },
  refl,
  refl,
  λ i beyond inside. fresh i inside ∙ ground arith,
  λ i inside. fresh i (omega arith) ∙ ground arith,
)

-- With memory for it, a new map has the asked number of bits, all of them clear, and the leftover bits of
-- its last word are set.
pub bitmap_create-IsWf :
    (nbits : ℕ)
    → (b : Bitmap) × (bitmap_create true true nbits ≡ ok (some b))
      × (b.nbits ≡ nbits)
      × IsWf b
      × ((i : ℕ) → i < nbits → bitmap_isset b i ≡ false)
unfolding bitmap_create Fresh
bitmap_create-IsWf nbits = elim (Bool-cases (ltb (nbits / bits_per_word) (words_of nbits))) [
  | inl over ↦
      let (v, marked, fresh) = mark_leftover-Fresh nbits (ground arith) in
      rw (over, marked) (of_words nbits v fresh)
  | inr exact ↦ rw exact (of_words nbits zeroed λ i inside. ground arith)
]
