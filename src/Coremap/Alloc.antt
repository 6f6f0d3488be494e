-- ===== src/Coremap/Alloc.antt =====
-- What the kernel's page allocation and the two ways to free do to the frames.
use os161_project_c.Base.{
  ltb, ℕ, zero, suc, ◌+◌, ◌-◌, ◌*◌, ◌/◌, ◌≤◌, ◌<◌, ◌≡◌, ◌≢◌, refl, ◌∙◌, true, false, in_run,
  for_below-range, if◌then◌else◌, ◌==◌, Outcome, ok, ℤ, update, for_below, page_size, lt→ltb, arith,
}
use os161_project_c.Ram.{mips_kseg0}
use os161_project_c.Coremap.{
  Frame, Coremap, is_free, is_fixed, fixed, free, take_run, take_found, getfreeppages, page_free,
  freeppages, free_kpages,
}
use os161_project_c.Coremap.FreeRun.{AllFree, NoRun, Answer, run, no_run, find_run-ok}

-- A free frame belongs to nobody and has no size, and frame 0 is never free.
pub record IsWf (c : Coremap) : Type 0 where
  pub frames : 1 ≤ c.n_ram_frames
  pub zero_frame : is_free (c.entries 0).status ≡ false
  pub unsized : (i : ℕ) → is_free (c.entries i).status ≡ true → (c.entries i).alloc_size ≡ 0
  pub unowned : (i : ℕ) → is_free (c.entries i).status ≡ true → (c.entries i).as_ptr ≡ 0

-- The frames of the run become fixed; nothing else changes.
take_run-ok :
    (n s : ℕ) (es : ℕ → Frame)
    → ((i : ℕ) → s ≤ i → i < s + n → (es i).alloc_size ≡ 0)
    → (es' : ℕ → Frame) × (take_run n s es ≡ ok es')
      × ((i : ℕ) → es' i ≡ (if in_run s n i then record (es i) { status = fixed } else es i))
unfolding take_run
take_run-ok zero s es sizes = (es, refl, λ i. ground arith)
take_run-ok (suc n) s es sizes =
    let (es', done, same) = take_run-ok n s es (λ i a b. sizes i a (omega arith)) in
    let size : (es' (s + n)).alloc_size ≡ 0 =
      ground (arith, same (s + n), sizes (s + n) (omega arith) (omega arith)) in
    (
      update es' (s + n) (record (es' (s + n)) { status = fixed }),
      rw done (ground arith),
      λ i. ground (arith, same i),
    )

-- The frames from `s` on now hold one kernel allocation of `n` pages.
pub record Taken (c : Coremap) (s n : ℕ) (c' : Coremap) : Type 0 where
  pub n_ram_frames : c'.n_ram_frames ≡ c.n_ram_frames
  pub active : c'.active ≡ c.active
  pub current_victim : c'.current_victim ≡ c.current_victim
  pub entries :
      (i : ℕ)
      → c'.entries i ≡ (
          if in_run s n i
          then record (c.entries i) { status = fixed; alloc_size = if i == s then n else 0 }
          else c.entries i)

pub data Got (c : Coremap) (n : ℕ) : Outcome (ℕ × Coremap) → Type 0 where
  taken :
      (s : ℕ) (c' : Coremap)
      → 1 ≤ s
      → s + n ≤ c.n_ram_frames
      → AllFree c.entries s n
      → Taken c s n c'
      → Got c n (ok (s * page_size, c'))
  refused : NoRun c.entries n c.n_ram_frames → Got c n (ok (0, c))

module _ {c : Coremap} (n : ℕ) (wf : IsWf c) (some_pages : 1 ≤ n) where
  take_found-Got :
      {found : ℤ} → Answer c.entries n c.n_ram_frames found → Got c n (take_found n found c)
  unfolding take_found
  take_found-Got (no_run none_fits) = refused none_fits
  take_found-Got (run s one fits all) =
      let (es, done, same) = take_run-ok n s c.entries (λ i a b. wf.unsized i (all i a b)) in
      rw done (
        taken s _ one fits all (record {
          n_ram_frames = refl;
          active = refl;
          current_victim = refl;
          entries = λ i. ground (arith, same i, wf.unsized i, all i);
        }))

  -- On an active, well-formed coremap `getfreeppages` for at least one page returns: either the
  -- address of a run of frames that were all free, inside the program's frames and off frame 0,
  -- which are now fixed with the size at their first frame, every other frame unchanged; or 0,
  -- with the coremap unchanged, and then there was no run of that many free frames.
  pub getfreeppages-Got : c.active ≡ true → Got c n (getfreeppages n c)
  unfolding getfreeppages
  getfreeppages-Got on =
      simp on (take_found-Got (find_run-ok c.entries n some_pages _ wf.frames wf.zero_frame))

  module _ {s : ℕ} {c' : Coremap} (one : 1 ≤ s) (all : AllFree c.entries s n)
      (t : Taken c s n c') where
    -- An allocation keeps the coremap well formed.
    pub Taken-IsWf : IsWf c'
    Taken-IsWf = record {
      frames = ground (arith, t.n_ram_frames, wf.frames);
      zero_frame = ground (arith, t.entries 0, wf.zero_frame);
      unsized = λ i h. ground (arith, t.entries i, wf.unsized i);
      unowned = λ i h. ground (arith, t.entries i, wf.unowned i);
    }

-- What `freeppages` leaves of the frames.
pub record Freed (c : Coremap) (s n : ℕ) (c' : Coremap) : Type 0 where
  pub n_ram_frames : c'.n_ram_frames ≡ c.n_ram_frames
  pub active : c'.active ≡ c.active
  pub current_victim : c'.current_victim ≡ c.current_victim
  pub entries :
      (i : ℕ)
      → c'.entries i ≡ (
          if in_run s n i
          then record (c.entries i) { status = free; as_ptr = 0; alloc_size = 0 }
          else c.entries i)

-- On an active coremap `free_kpages` of the kernel address of a frame inside the program's memory
-- frees as many frames from there on as the allocation size at that frame says, and changes no
-- other frame.
pub free_kpages-Freed :
    (c : Coremap) (s : ℕ)
    → c.active ≡ true
    → s < c.n_ram_frames
    → (c' : Coremap) × (free_kpages (s * page_size + mips_kseg0) c ≡ ok c')
      × Freed c s (c.entries s).alloc_size c'
unfolding free_kpages freeppages
free_kpages-Freed c s on lt =
    let at : (s * page_size + mips_kseg0 - mips_kseg0) / page_size ≡ s = omega arith in
    let above : ltb (s * page_size + mips_kseg0) mips_kseg0 ≡ false = ground arith in
    let clear : Frame → Frame = λ f. record f { status = free; as_ptr = 0; alloc_size = 0 } in
    let n = (c.entries s).alloc_size in
    (
      record c { entries = for_below n (λ j es. update es (s + j) (clear (es (s + j)))) c.entries },
      simp (on, above, at, lt→ltb _ _ lt),
      record {
        n_ram_frames = refl;
        active = refl;
        current_victim = refl;
        entries = λ i. for_below-range n s clear c.entries i;
      },
    )

Freed-IsWf : {c c' : Coremap} (s n : ℕ) → IsWf c → 1 ≤ s → Freed c s n c' → IsWf c'
Freed-IsWf s n wf one f = record {
  frames = ground (arith, f.n_ram_frames, wf.frames);
  zero_frame = ground (arith, f.entries 0, wf.zero_frame);
  unsized = λ i h. ground (arith, f.entries i, wf.unsized i);
  unowned = λ i h. ground (arith, f.entries i, wf.unowned i);
}

-- `free_kpages` undoes `getfreeppages`: on an active, well-formed coremap, when a block of at
-- least one free frame, off frame 0 and inside the program's frames, was taken, freeing it gives
-- every frame back as it was, and the coremap is well formed.
pub free_kpages-getfreeppages :
    {c c' : Coremap} (s n : ℕ)
    → IsWf c
    → c.active ≡ true
    → 1 ≤ n
    → 1 ≤ s
    → s + n ≤ c.n_ram_frames
    → AllFree c.entries s n
    → Taken c s n c'
    → (c'' : Coremap) × (free_kpages (s * page_size + mips_kseg0) c' ≡ ok c'')
      × ((i : ℕ) → c''.entries i ≡ c.entries i)
      × IsWf c''
free_kpages-getfreeppages {c} {c'} s n wf on pages one fits all t =
    let (c'', done, f) = free_kpages-Freed c' s (t.active ∙ on) (omega (arith, t.n_ram_frames)) in
    let size : (c'.entries s).alloc_size ≡ n = ground (arith, t.entries s) in
    let wf' : IsWf c' = Taken-IsWf n wf pages one all t in
    (
      c'',
      done,
      λ i. ground (arith, f.entries i, t.entries i, wf.unsized i, wf.unowned i, all i),
      Freed-IsWf s (c'.entries s).alloc_size wf' one f,
    )

-- On a well-formed coremap, `page_free` of an address outside frame 0, in a frame that is not
-- fixed, frees that frame alone and keeps the coremap well formed.
pub page_free-IsWf :
    (c : Coremap) (addr : ℕ)
    → IsWf c
    → page_size ≤ addr
    → is_fixed (c.entries (addr / page_size)).status ≡ false
    → (c' : Coremap) × (page_free addr c ≡ ok c')
      × IsWf c'
      × (is_free (c'.entries (addr / page_size)).status ≡ true)
      × ((i : ℕ) → i ≢ addr / page_size → c'.entries i ≡ c.entries i)
unfolding page_free
page_free-IsWf c addr wf above soft =
    let pos_ = addr / page_size in
    let gone : Frame = record { as_ptr = 0; status = free; vaddr = 0; alloc_size = 0 } in
    (
      record c { entries = update c.entries pos_ gone },
      simp soft,
      record {
        frames = wf.frames;
        zero_frame = ground (arith, wf.zero_frame);
        unsized = λ i h. ground (arith, wf.unsized i);
        unowned = λ i h. ground (arith, wf.unowned i);
      },
      ground arith,
      λ i ne. ground arith,
    )
