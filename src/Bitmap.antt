-- ===== src/Bitmap.antt =====
-- Fixed-size arrays of bits: kern/lib/bitmap.c. A word is an unsigned char, given by its eight bits,
-- and the array is a function of the word's number.
pub mod Bits
pub mod Alloc
mod Tests
use os161_project_c.Base.{
  ℕ, zero, suc, ◌+◌, ◌-◌, ◌*◌, ◌/◌, ◌%◌, Bool, true, false, not, ◌&&◌, ltb, ◌==◌, if◌then◌else◌,
  update, for_below, find_first, Option, none, some, Outcome, ok, panic, ◌>>=◌, ◌>>◌, kassert,
}

abbrev pub bits_per_word : ℕ
bits_per_word = 8

abbrev pub Word : Type 0
Word = ℕ → Bool

-- `w == WORD_ALLBITS`
abbrev pub is_all_bits : Word → Bool
is_all_bits w = w 0 && w 1 && w 2 && w 3 && w 4 && w 5 && w 6 && w 7

pub record Bitmap : Type 0 where
  pub nbits : ℕ
  pub v : ℕ → Word

-- `DIVROUNDUP(nbits, BITS_PER_WORD)`
abbrev pub words_of : ℕ → ℕ
words_of nbits = (nbits + (bits_per_word - 1)) / bits_per_word

-- The bit `offset` of the word `ix` becomes `value`.
abbrev pub put_bit : (ix offset : ℕ) → Bool → (ℕ → Word) → ℕ → Word
put_bit ix offset value v = update v ix (update (v ix) offset value)

-- The leftover bits at the end.
unfoldable pub mark_leftover : (nbits words : ℕ) → (ℕ → Word) → Outcome (ℕ → Word)
mark_leftover nbits words v = do
  let ix = words - 1
  let overbits = nbits - ix * bits_per_word
  kassert (nbits / bits_per_word == words - 1)
  kassert (ltb 0 overbits && ltb overbits bits_per_word)
  ok (for_below (bits_per_word - overbits) (λ j v'. put_bit ix (overbits + j) true v') v)

-- `room` and `room_v` say whether each `kmalloc` finds memory.
unfoldable pub bitmap_create : (room room_v : Bool) (nbits : ℕ) → Outcome (Option Bitmap)
bitmap_create room room_v nbits = if not room then ok none else if not room_v then ok none else do
  let words = words_of nbits
  let zeroed : (ℕ → Word) = λ ix offset. false
  v ← if ltb (nbits / bits_per_word) words then mark_leftover nbits words zeroed else ok zeroed
  let b : Bitmap = record { nbits = nbits; v = v }
  ok (some b)

-- The inner loop of `bitmap_alloc`, on a word with a clear bit.
unfoldable pub alloc_in_word : (ix : ℕ) → Bitmap → Outcome (ℕ × Bitmap)
alloc_in_word ix b = elim (find_first bits_per_word 0 (λ offset. not (b.v ix offset))) [
  | none ↦ panic
  | some offset ↦
      kassert (ltb (ix * bits_per_word + offset) b.nbits)
      >> ok (ix * bits_per_word + offset, record b { v = put_bit ix offset true b.v })
]

-- `none` is the answer ENOSPC.
unfoldable pub bitmap_alloc : Bitmap → Outcome (Option (ℕ × Bitmap))
bitmap_alloc b = elim (find_first (words_of b.nbits) 0 (λ ix. not (is_all_bits (b.v ix)))) [
  | none ↦ ok none
  | some ix ↦ alloc_in_word ix b >>= λ r. ok (some r)
]

-- The word and the bit in it that hold a bit of the map.
abbrev pub bitmap_translate : ℕ → ℕ × ℕ
bitmap_translate bitno = (bitno / bits_per_word, bitno % bits_per_word)

unfoldable pub bitmap_isset : Bitmap → ℕ → Bool
bitmap_isset b index = let at = bitmap_translate index in b.v at.0 at.1

unfoldable pub bitmap_mark : Bitmap → ℕ → Outcome Bitmap
bitmap_mark b index = do
  kassert (ltb index b.nbits)
  let at = bitmap_translate index
  kassert (not (b.v at.0 at.1))
  ok (record b { v = put_bit at.0 at.1 true b.v })

unfoldable pub bitmap_unmark : Bitmap → ℕ → Outcome Bitmap
bitmap_unmark b index = do
  kassert (ltb index b.nbits)
  let at = bitmap_translate index
  kassert (b.v at.0 at.1)
  ok (record b { v = put_bit at.0 at.1 false b.v })
