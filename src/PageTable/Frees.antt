-- ===== src/PageTable/Frees.antt =====
-- Which frames the destruction of an inner table gives back.
use os161_project_c.Base.{
  ℕ, zero, suc, ◌/◌, ◌<◌, ◌≡◌, ◌≢◌, refl, Bool, true, false, Bool-cases, inl, inr, not, ◌&&◌, ◌||◌,
  ◌+◌, ◌*◌, ◌∙◌, in_run, ◌==◌, some, if◌then◌else◌, update, for_each, ok, pos, ◌==ℤ◌, page_size,
  arith,
}
use os161_project_c.Coremap.{Frame, Coremap, free, is_free, is_fixed, page_free}
use os161_project_c.Ram.{mips_kseg0}
use os161_project_c.Coremap.Alloc.{free_kpages-Freed}
use os161_project_c.PageTable.{InnerEntry, OuterEntry}
use os161_project_c.PageTable.Destroy.{free_entry, pt_destroy_inner}

abbrev pub idle : Frame
idle = record { as_ptr = 0; status = free; vaddr = 0; alloc_size = 0 }

-- The destruction gives back the frame of this entry.
abbrev pub gives_back : InnerEntry → Bool
gives_back e = e.valid && not (e.swap_offset ==ℤ pos 1)

-- One of the first `n` entries gives back frame `i`.
unfoldable pub names : ℕ → (ℕ → InnerEntry) → ℕ → Bool
names zero table i = false
names (suc n) table i =
    (gives_back (table n) && ((table n).pfn / page_size == i)) || names n table i

-- The kernel holds none of the frames that the first `n` entries give back.
abbrev pub NoneFixed : ℕ → (ℕ → InnerEntry) → Coremap → Type 0
NoneFixed n table c =
    (j : ℕ)
    → j < n
    → gives_back (table j) ≡ true
    → is_fixed (c.entries ((table j).pfn / page_size)).status ≡ false

page_free-ok :
    (addr : ℕ) (c : Coremap)
    → is_fixed (c.entries (addr / page_size)).status ≡ false
    → page_free addr c ≡ ok (record c { entries = update c.entries (addr / page_size) idle })
unfolding page_free
page_free-ok addr c soft = simp soft

-- What is left after the first `n` entries.
pub record GivesBack (n : ℕ) (table : ℕ → InnerEntry) (c c' : Coremap) : Type 0 where
  pub frames : (i : ℕ) → c'.entries i ≡ (if names n table i then idle else c.entries i)
  pub n_ram_frames : c'.n_ram_frames ≡ c.n_ram_frames
  pub active : c'.active ≡ c.active

free_entry-GivesBack :
    (n : ℕ) (table : ℕ → InnerEntry) (c c1 : Coremap)
    → GivesBack n table c c1
    → (gives_back (table n) ≡ true
        → is_fixed (c.entries ((table n).pfn / page_size)).status ≡ false)
    → (c' : Coremap) × (free_entry (table n) c1 ≡ ok c') × GivesBack (suc n) table c c'
unfolding free_entry names
free_entry-GivesBack n table c c1 g soft = elim (Bool-cases (gives_back (table n))) [
  | inl back ↦
      let at = (table n).pfn / page_size in
      let here = g.frames at in
      let held = soft back in
      let soft1 : is_fixed (c1.entries at).status ≡ false = ground arith in
      (
        record c1 { entries = update c1.entries at idle },
        rw back (page_free-ok (table n).pfn c1 soft1),
        record {
          frames = λ i. ground (arith, g.frames i, back);
          n_ram_frames = g.n_ram_frames;
          active = g.active;
        },
      )
  | inr kept ↦ (
    c1,
    rw kept,
    record {
      frames = λ i. ground (arith, g.frames i, kept);
      n_ram_frames = g.n_ram_frames;
      active = g.active;
    },
  )
]

loop-GivesBack :
    (n : ℕ) (table : ℕ → InnerEntry) (c : Coremap)
    → NoneFixed n table c
    → (c' : Coremap) × (for_each n (λ i c1. free_entry (table i) c1) c ≡ ok c')
      × GivesBack n table c c'
unfolding for_each names
loop-GivesBack zero table c soft =
    (c, refl, record { frames = λ i. refl; n_ram_frames = refl; active = refl })
loop-GivesBack (suc n) table c soft =
    let (c1, done, g) = loop-GivesBack n table c (λ j l. soft j (omega arith)) in
    let (c2, last, g2) = free_entry-GivesBack n table c c1 g (soft n (omega arith)) in
    (c2, rw done last, g2)

-- The coremap after the entries have given their frames back, and the table its own block of `size`
-- frames from frame `first` on.
pub record GivesAll (n : ℕ) (table : ℕ → InnerEntry) (first size : ℕ) (c c' : Coremap)
    : Type 0 where
  pub frames :
      (i : ℕ)
      → in_run first size i ≡ false
      → c'.entries i ≡ (if names n table i then idle else c.entries i)
  pub block :
      (i : ℕ)
      → in_run first size i ≡ true
      → (is_free (c'.entries i).status ≡ true)
        × ((c'.entries i).as_ptr ≡ 0)
        × ((c'.entries i).alloc_size ≡ 0)
  pub n_ram_frames : c'.n_ram_frames ≡ c.n_ram_frames
  pub active : c'.active ≡ c.active

-- A fixed frame is given back by no entry.
unnamed :
    (n : ℕ) (table : ℕ → InnerEntry) (c : Coremap) (i : ℕ)
    → NoneFixed n table c
    → is_fixed (c.entries i).status ≡ true
    → names n table i ≡ false
unfolding names
unnamed zero table c i soft hard = refl
unnamed (suc n) table c i soft hard =
    let before = unnamed n table c i (λ j l. soft j (omega arith)) hard in
    elim (Bool-cases (gives_back (table n) && ((table n).pfn / page_size == i))) [
      | inr away ↦ rw (away, before) refl
      | inl here ↦
          let at : (table n).pfn / page_size ≡ i = ground arith in
          let not_fixed = soft n (omega arith) (ground arith) in
          absurd (ground (arith, at, not_fixed, hard))
    ]

-- Where an inner table is in use, its own block begins at frame `first` with that block's size, and
-- the kernel holds none of the frames of its pages, `pt_destroy_inner` returns: every entry that is
-- valid, but for those with offset 1, gives its frame back, the frames of the table's own block are
-- free, and no other frame changes.
pub pt_destroy_inner-GivesAll :
    (first : ℕ) (o : OuterEntry) (table : ℕ → InnerEntry) (c : Coremap)
    → o.valid ≡ true
    → o.size ≢ 0
    → o.pages ≡ some table
    → NoneFixed o.size table c
    → c.active ≡ true
    → first < c.n_ram_frames
    → is_fixed (c.entries first).status ≡ true
    → (c' : Coremap) × (pt_destroy_inner (first * page_size + mips_kseg0) o c ≡ ok c')
      × GivesAll o.size table first (c.entries first).alloc_size c c'
unfolding pt_destroy_inner
pt_destroy_inner-GivesAll first o table c used sized at soft on low hard =
    let (c1, done, g) = loop-GivesBack o.size table c soft in
    let some_pages : not (o.size == 0) ≡ true = ground (arith, sized) in
    let (c2, freed, f) =
      free_kpages-Freed c1 first (g.active ∙ on) (omega (arith, g.n_ram_frames)) in
    let same : c1.entries first ≡ c.entries first =
      ground (arith, g.frames first, unnamed o.size table c first soft hard) in
    let size : (c1.entries first).alloc_size ≡ (c.entries first).alloc_size =
      ground (arith, same) in
    (
      c2,
      rw (at, some_pages, used, done) freed,
      record {
        frames = λ i out. ground (arith, g.frames i, f.entries i, size);
        block = λ i in_block. (
          ground (arith, f.entries i, size),
          ground (arith, f.entries i, size),
          ground (arith, f.entries i, size),
        );
        n_ram_frames = f.n_ram_frames ∙ g.n_ram_frames;
        active = f.active ∙ g.active;
      },
    )
