-- ===== src/PageTable/Maps.antt =====
-- The getters and setters of pt.c as two independent maps from pages.
use mathlib.Core.Path.{ap₂}
use os161_project_c.Base.{
  ℕ, ◌<◌, ◌^◌, ◌≡◌, refl, ◌∙◌, true, ◌&&◌, ◌==◌, if◌then◌else◌, Bool-cases, inl, inr, Outcome, ok,
  ◌>>=◌, ◌>>◌, ℤ, minus_one, same_page, arith, for_below, for_below-fill, lt→ltb, ltb, update,
}
use os161_project_c.PageTable.{
  InnerEntry, OuterEntry, Directory, get_outer_index, get_inner_index, pt_get_pa, pt_get_offset,
  check_indices, size_pt_inner, pfn_not_used, size_pt_outer, pt_set_pa, pt_set_offset, pt_create,
  read_entry, write_entry, ensure_inner, blank_outer,
}
use os161_project_c.PageTable.View.{
  entry, view_at, IsWf, IsSound, check_indices-ok, read_entry-ok, write_entry-ok, ensure_inner-ok,
  inner_lt, outer_lt,
}

-- The two indices of a 32-bit address name its page.
same_indices :
    (v w : ℕ)
    → v < 2 ^ 32
    → w < 2 ^ 32
    → ((get_outer_index v == get_outer_index w) && (get_inner_index v == get_inner_index w))
      ≡ same_page v w
unfolding get_outer_index get_inner_index
same_indices v w hv hw = ground arith

-- What the getters do with an entry that is not in use agrees with the fields that it has then.
module _ {o : OuterEntry} (s : IsSound o) (i : ℕ) (lt : i < size_pt_inner) where
  unused_pfn : (if (view_at o i).valid then (view_at o i).pfn else pfn_not_used) ≡ (view_at o i).pfn
  unused_pfn = elim (Bool-cases (view_at o i).valid) [
    | inl used ↦ rw used
    | inr free ↦ rw (s.unused i lt free)
  ]

  unused_offset :
      (if (view_at o i).valid then (view_at o i).swap_offset else minus_one)
      ≡ (view_at o i).swap_offset
  unused_offset = elim (Bool-cases (view_at o i).valid) [
    | inl used ↦ rw used
    | inr free ↦ rw (s.unused i lt free)
  ]

module _ {pt : Directory} (va : ℕ) (wf : IsWf pt) where
  -- The getters read the view.
  pub pt_get_pa-entry : pt_get_pa pt va ≡ ok (entry pt va).pfn
  unfolding pt_get_pa
  pt_get_pa-entry = elim (Bool-cases (pt.pages (get_outer_index va)).valid) [
    | inl live ↦
        rw
          (
            check_indices-ok va,
            ← unused_pfn (wf.sound (get_outer_index va) (outer_lt va)) _ (inner_lt va),
          )
          (ground (arith, read_entry-ok va wf live))
    | inr new ↦ rw (check_indices-ok va) (ground arith)
  ]

  pub pt_get_offset-entry : pt_get_offset pt va ≡ ok (entry pt va).swap_offset
  unfolding pt_get_offset
  pt_get_offset-entry = elim (Bool-cases (pt.pages (get_outer_index va)).valid) [
    | inl live ↦
        rw
          (
            check_indices-ok va,
            ← unused_offset (wf.sound (get_outer_index va) (outer_lt va)) _ (inner_lt va),
          )
          (ground (arith, read_entry-ok va wf live))
    | inr new ↦ rw (check_indices-ok va) (ground arith)
  ]

-- What a setter does: one entry of the view goes through `f`, and the others stay.
record Puts (f : InnerEntry → InnerEntry) (pt : Directory) (va : ℕ) (pt' : Directory) : Type 0 where
  wf : IsWf pt'
  views :
      (n i : ℕ)
      → i < size_pt_inner
      → view_at (pt'.pages n) i ≡ (
          if (get_outer_index va == n) && (get_inner_index va == i)
          then f (entry pt va)
          else view_at (pt.pages n) i)

abbrev put : (InnerEntry → InnerEntry) → (ℕ → InnerEntry) → Directory → ℕ → Outcome Directory
put f junk pt va = do
  check_indices va
  pt' ← ensure_inner true junk pt va
  e ← read_entry pt' va
  write_entry pt' va (f e)

put-Puts :
    (f : InnerEntry → InnerEntry) (junk : ℕ → InnerEntry) {pt : Directory} (va : ℕ)
    → ((e : InnerEntry) → (f e).valid ≡ true)
    → IsWf pt
    → (pt' : Directory) × (put f junk pt va ≡ ok pt') × Puts f pt va pt'
put-Puts f junk {pt} va used wf =
    let (mid, made, mid_wf, live, same) = ensure_inner-ok junk va wf in
    let (pt', wrote, wf', views) = write_entry-ok va mid_wf live (f (entry mid va)) (used _) in
    let kept : entry mid va ≡ entry pt va = same _ _ (inner_lt va) in
    (
      pt',
      rw (check_indices-ok va, made, read_entry-ok va mid_wf live) wrote,
      record { wf = wf'; views = λ n i lt. rw (views n i, kept, same n i lt) },
    )

module _ {f : InnerEntry → InnerEntry} {pt pt' : Directory} {va : ℕ} (p : Puts f pt va pt') where
  entry-put :
      (w : ℕ)
      → va < 2 ^ 32
      → w < 2 ^ 32
      → entry pt' w ≡ (if same_page va w then f (entry pt va) else entry pt w)
  entry-put w hv hw =
      rw (← same_indices va w hv hw) (p.views (get_outer_index w) (get_inner_index w) (inner_lt w))

-- What `pt_set_pa` promises of the table that it leaves.
pub record SetsPa (pt : Directory) (va pa : ℕ) (pt' : Directory) : Type 0 where
  pub wf : IsWf pt'
  pub pas :
      (w : ℕ) → w < 2 ^ 32 → pt_get_pa pt' w ≡ (if same_page va w then ok pa else pt_get_pa pt w)
  pub offsets : (w : ℕ) → w < 2 ^ 32 → pt_get_offset pt' w ≡ pt_get_offset pt w

pub record SetsOffset (pt : Directory) (va : ℕ) (offset : ℤ) (pt' : Directory) : Type 0 where
  pub wf : IsWf pt'
  pub offsets :
      (w : ℕ)
      → w < 2 ^ 32
      → pt_get_offset pt' w ≡ (if same_page va w then ok offset else pt_get_offset pt w)
  pub pas : (w : ℕ) → w < 2 ^ 32 → pt_get_pa pt' w ≡ pt_get_pa pt w

indices_of_page :
    (v w : ℕ)
    → v < 2 ^ 32
    → w < 2 ^ 32
    → same_page v w ≡ true
    → (get_outer_index v ≡ get_outer_index w) × (get_inner_index v ≡ get_inner_index w)
unfolding get_outer_index get_inner_index
indices_of_page v w hv hw e = ground arith

-- Addresses of one page have one entry.
entry-same_page :
    (pt : Directory) (v w : ℕ)
    → v < 2 ^ 32
    → w < 2 ^ 32
    → same_page v w ≡ true
    → entry pt v ≡ entry pt w
entry-same_page pt v w hv hw e =
    let (outer, inner) = indices_of_page v w hv hw e in
    ap₂ (λ n i. view_at (pt.pages n) i) outer inner

-- On a well-formed table and with memory for an inner table, `pt_set_pa` succeeds: afterwards
-- `pt_get_pa` gives the new address on exactly the page of `va` and its old answer elsewhere, and
-- `pt_get_offset` answers as before on every page.
pub pt_set_pa-maps :
    {pt : Directory} (junk : ℕ → InnerEntry) (va pa : ℕ)
    → IsWf pt
    → va < 2 ^ 32
    → (pt' : Directory) × (pt_set_pa true junk pt va pa ≡ ok pt') × SetsPa pt va pa pt'
unfolding pt_set_pa
pt_set_pa-maps {pt} junk va pa wf hv =
    let (pt', done, p) =
      put-Puts (λ e. record e { valid = true; pfn = pa }) junk va (λ e. refl) wf in
    (
      pt',
      done,
      record {
        wf = p.wf;
        pas = λ w hw.
            rw (pt_get_pa-entry w p.wf, pt_get_pa-entry w wf, entry-put p w hv hw) (ground arith);
        offsets = λ w hw.
            rw (pt_get_offset-entry w p.wf, pt_get_offset-entry w wf, entry-put p w hv hw)
              (ground (arith, entry-same_page pt va w hv hw));
      },
    )

-- On a well-formed table and with memory for an inner table, `pt_set_offset` succeeds: afterwards
-- `pt_get_offset` gives the new offset on exactly the page of `va` and its old answer elsewhere,
-- and `pt_get_pa` answers as before on every page.
pub pt_set_offset-maps :
    {pt : Directory} (junk : ℕ → InnerEntry) (va : ℕ) (offset : ℤ)
    → IsWf pt
    → va < 2 ^ 32
    → (pt' : Directory) × (pt_set_offset true junk pt va offset ≡ ok pt')
      × SetsOffset pt va offset pt'
unfolding pt_set_offset
pt_set_offset-maps {pt} junk va offset wf hv =
    let (pt', done, p) =
      put-Puts (λ e. record e { valid = true; swap_offset = offset }) junk va (λ e. refl) wf in
    (
      pt',
      done,
      record {
        wf = p.wf;
        offsets = λ w hw.
            rw (pt_get_offset-entry w p.wf, pt_get_offset-entry w wf, entry-put p w hv hw)
              (ground arith);
        pas = λ w hw.
            rw (pt_get_pa-entry w p.wf, pt_get_pa-entry w wf, entry-put p w hv hw)
              (ground (arith, entry-same_page pt va w hv hw));
      },
    )

blank_outer-IsSound : (o : OuterEntry) → IsSound (blank_outer o)
blank_outer-IsSound o = record { has_table = λ e. cc; unused = λ i lt e. refl }

-- With memory for it, whatever that memory held, a new page table is well formed, maps no page and
-- has no page on disk.
pub pt_create-empty :
    (junk : ℕ → OuterEntry)
    → (pt : Directory) × (pt_create true true junk ≡ ok pt)
      × IsWf pt
      × ((va : ℕ) → (pt_get_pa pt va ≡ ok pfn_not_used) × (pt_get_offset pt va ≡ ok minus_one))
unfolding pt_create
pt_create-empty junk = (
  pt,
  refl,
  wf,
  λ va. (
    pt_get_pa-entry va wf ∙ rw (filled (get_outer_index va), lt→ltb _ _ (outer_lt va)),
    pt_get_offset-entry va wf ∙ rw (filled (get_outer_index va), lt→ltb _ _ (outer_lt va)),
  ),
)
  where
    pt : Directory
    pt = record {
      size = size_pt_outer;
      pages = for_below size_pt_outer (λ i pages. update pages i (blank_outer (junk i))) junk;
    }

    filled : (n : ℕ) → pt.pages n ≡ (if ltb n size_pt_outer then blank_outer (junk n) else junk n)
    filled n = for_below-fill size_pt_outer (λ i. blank_outer (junk i)) junk n

    wf : IsWf pt
    wf = record { sound = λ n lt. rw (filled n, lt→ltb _ _ lt) (blank_outer-IsSound (junk n)) }
