-- ===== src/PageTable/View.antt =====
-- The page table as one map from addresses to entries, and what the shared steps of pt.c do to it.
use os161_project_c.Base.{
  ℕ, ◌<◌, ◌≡◌, refl, ◌∙◌, true, false, ◌&&◌, none, some, ◌==◌, if◌then◌else◌, Bool-cases, inl, inr,
  update, for_below, for_below-fill, ok, arith,
}
use os161_project_c.PageTable.{
  InnerEntry, OuterEntry, Directory, blank_inner, get_outer_index, get_inner_index, check_indices,
  ensure_inner, read_entry, write_entry, size_pt_inner, size_pt_outer,
}

-- The entry in an inner table, blank where the table is not there.
abbrev pub view_at : OuterEntry → ℕ → InnerEntry
view_at o i =
    if o.valid then (elim o.pages [ some table ↦ table i | none ↦ blank_inner ]) else blank_inner

abbrev pub entry : Directory → ℕ → InnerEntry
entry pt va = view_at (pt.pages (get_outer_index va)) (get_inner_index va)

-- A valid outer entry has a table, and an entry that is not in use is as the initialising loop
-- left it.
pub record IsSound (o : OuterEntry) : Type 0 where
  pub has_table : o.valid ≡ true → (table : ℕ → InnerEntry) × (o.pages ≡ some table)
  pub unused : (i : ℕ) → i < size_pt_inner → (view_at o i).valid ≡ false → view_at o i ≡ blank_inner

pub record IsWf (pt : Directory) : Type 0 where
  pub sound : (n : ℕ) → n < size_pt_outer → IsSound (pt.pages n)

pub check_indices-ok : (va : ℕ) → check_indices va ≡ ok tt
unfolding check_indices
check_indices-ok va = ground arith

pub inner_lt : (va : ℕ) → get_inner_index va < size_pt_inner
unfolding get_inner_index
inner_lt va = omega arith

pub outer_lt : (va : ℕ) → get_outer_index va < size_pt_outer
unfolding get_outer_index
outer_lt va = omega arith

-- One entry written into a sound table leaves it sound.
set_in_table-IsSound :
    (o : OuterEntry) (table : ℕ → InnerEntry) (i : ℕ) (e : InnerEntry)
    → IsSound o
    → o.valid ≡ true
    → o.pages ≡ some table
    → e.valid ≡ true
    → IsSound (record o { pages = some (update table i e) })
set_in_table-IsSound o table i e s live has used = record {
  has_table = λ _. (update table i e, refl);
  unused = λ j lt. ground (arith, s.unused j lt);
}

module _ {pt : Directory} (va : ℕ) (wf : IsWf pt)
    (live : (pt.pages (get_outer_index va)).valid ≡ true) where
  pub read_entry-ok : read_entry pt va ≡ ok (entry pt va)
  unfolding read_entry
  read_entry-ok =
      let (table, e) = (wf.sound (get_outer_index va) (outer_lt va)).has_table live in ground arith

  -- A write changes the view at its own place, and keeps the table well formed.
  pub write_entry-ok :
      (e : InnerEntry)
      → e.valid ≡ true
      → (pt' : Directory) × (write_entry pt va e ≡ ok pt')
        × IsWf pt'
        × ((n i : ℕ)
            → view_at (pt'.pages n) i ≡ (
                if (get_outer_index va == n) && (get_inner_index va == i)
                then e
                else view_at (pt.pages n) i))
  unfolding write_entry
  write_entry-ok e used =
      let outer = get_outer_index va in
      let (table, s) = (wf.sound outer (outer_lt va)).has_table live in
      let o : OuterEntry = record (pt.pages outer) {
        pages = some (update table (get_inner_index va) e);
      } in
      let o_sound : IsSound o =
        set_in_table-IsSound (pt.pages outer) table (get_inner_index va) e
          (wf.sound outer (outer_lt va)) live s used in
      (
        record pt { pages = update pt.pages outer o },
        ground arith,
        record {
          sound = λ n ln. elim (Bool-cases (outer == n)) [
            | inl here ↦ rw here o_sound
            | inr away ↦ rw away (wf.sound n ln)
          ];
        },
        λ n i. ground arith,
      )

abbrev pub Extends : Directory → Directory → Type 0
Extends pt pt' = (n i : ℕ) → i < size_pt_inner → view_at (pt'.pages n) i ≡ view_at (pt.pages n) i

abbrev fresh_table : (ℕ → InnerEntry) → ℕ → InnerEntry
fresh_table junk = for_below size_pt_inner (λ i pages. update pages i blank_inner) junk

abbrev fresh_outer : (ℕ → InnerEntry) → OuterEntry
fresh_outer junk = record { valid = true; size = size_pt_inner; pages = some (fresh_table junk) }

fresh_table-blank :
    (junk : ℕ → InnerEntry) (i : ℕ) → i < size_pt_inner → fresh_table junk i ≡ blank_inner
fresh_table-blank junk i lt = for_below-fill size_pt_inner (λ _. blank_inner) junk i ∙ ground arith

fresh_outer-IsSound : (junk : ℕ → InnerEntry) → IsSound (fresh_outer junk)
fresh_outer-IsSound junk = record {
  has_table = λ _. (fresh_table junk, refl);
  unused = λ i lt _. fresh_table-blank junk i lt;
}

-- Where the outer entry is not valid, all its entries are blank.
view_at_invalid : (o : OuterEntry) (i : ℕ) → o.valid ≡ false → view_at o i ≡ blank_inner
view_at_invalid o i h = rw h

pub ensure_inner-ok :
    {pt : Directory} (junk : ℕ → InnerEntry) (va : ℕ)
    → IsWf pt
    → (pt' : Directory) × (ensure_inner true junk pt va ≡ ok pt')
      × IsWf pt'
      × ((pt'.pages (get_outer_index va)).valid ≡ true)
      × Extends pt pt'
unfolding ensure_inner
ensure_inner-ok {pt} junk va wf =
    let outer = get_outer_index va in
    elim (Bool-cases (pt.pages outer).valid) [
      | inl live ↦ (pt, rw live (rw live), wf, live, λ n i lt. refl)
      | inr new ↦ (
        record pt { pages = update pt.pages outer (fresh_outer junk) },
        rw new (ground arith),
        record {
          sound = λ n ln. elim (Bool-cases (outer == n)) [
            | inl here ↦ rw here (fresh_outer-IsSound junk)
            | inr away ↦ rw away (wf.sound n ln)
          ];
        },
        ground arith,
        λ n i lt.
            ground (arith, fresh_table-blank junk i lt, view_at_invalid (pt.pages outer) i new),
      )
    ]
