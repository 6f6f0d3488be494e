-- ===== src/Proc/Files.antt =====
-- What a new process has of the open files.
use os161_project_c.Base.{
  ◌%◌, ◌^◌, ℕ, zero, suc, ◌+◌, ◌≤◌, ◌<◌, ◌≡◌, ◌≢◌, refl, ap, ◌∙◌, inl, inr, ◌==◌, if◌then◌else◌,
  Bool-cases, update, for_below, arith,
}
use os161_project_c.Proc.{
  OpenFiles, open_max, copy_file, proc_file_table_copy, fork_files, open_file_incr_ref_count,
}

-- How many of the first `n` descriptors are of this file.
unfoldable pub descriptors_of : (of : ℕ) → ℕ → (ℕ → ℕ) → ℕ
descriptors_of of zero table = 0
descriptors_of of (suc n) table = descriptors_of of n table + (if table n == of then 1 else 0)

-- The first `n` descriptors are copied from one process to the other, and counted.
pub record Copied (psrc pdest n : ℕ) (s s' : OpenFiles) : Type 0 where
  pub taken : (fd : ℕ) → fd < n → s'.file_table pdest fd ≡ s.file_table psrc fd
  pub beyond : (fd : ℕ) → n ≤ fd → s'.file_table pdest fd ≡ s.file_table pdest fd
  pub others : (p : ℕ) → p ≢ pdest → s'.file_table p ≡ s.file_table p
  pub counted :
      (of : ℕ)
      → of ≢ 0
      → s'.count_ref of % 2 ^ 32
        ≡ (s.count_ref of + descriptors_of of n (s.file_table psrc)) % 2 ^ 32

incr-tables : (of : ℕ) (s : OpenFiles) → (open_file_incr_ref_count of s).file_table ≡ s.file_table
unfolding open_file_incr_ref_count
incr-tables of s = elim (Bool-cases (of == 0)) [ inl null ↦ rw null refl | inr real ↦ rw real refl ]

incr-counts :
    (of f : ℕ) (s : OpenFiles)
    → f ≢ 0
    → (open_file_incr_ref_count of s).count_ref f % 2 ^ 32
      ≡ (s.count_ref f + (if of == f then 1 else 0)) % 2 ^ 32
unfolding open_file_incr_ref_count
incr-counts of f s real = elim (Bool-cases (of == 0)) [
  | inl null ↦ rw null (ground (arith, real))
  | inr there ↦ rw there (ground (arith, real))
]

copy_file-Copied :
    (psrc pdest n : ℕ) (s s' : OpenFiles)
    → psrc ≢ pdest
    → Copied psrc pdest n s s'
    → Copied psrc pdest (suc n) s (copy_file psrc pdest n s')
unfolding copy_file descriptors_of
copy_file-Copied psrc pdest n s s' apart h =
    let moved : OpenFiles = record s' {
      file_table =
          update s'.file_table pdest (update (s'.file_table pdest) n (s'.file_table psrc n));
    } in
    let same : s'.file_table psrc n ≡ s.file_table psrc n = ap (λ t. t n) (h.others psrc apart) in
    let tables = incr-tables (s'.file_table psrc n) moved in
    record {
      taken = λ fd l. ap (λ t. t pdest fd) tables ∙ elim (Bool-cases (n == fd)) [
        | inl here ↦ let e : n ≡ fd = ground arith in rw (← e) (ground arith)
        | inr away ↦ ground arith ∙ h.taken fd (ground arith)
      ];
      beyond = λ fd l. ap (λ t. t pdest fd) tables ∙ ground arith ∙ h.beyond fd (omega arith);
      others = λ p ne. ap (λ t. t p) tables ∙ elim (Bool-cases (pdest == p)) [
        | inl here ↦ absurd (ne (ground arith))
        | inr away ↦ rw away (h.others p ne)
      ];
      counted = λ of real.
          incr-counts (s'.file_table psrc n) of moved real
          ∙ (let c = h.counted of real in ground arith);
    }

for_below-Copied :
    (psrc pdest n : ℕ) (s : OpenFiles)
    → psrc ≢ pdest
    → Copied psrc pdest n s (for_below n (copy_file psrc pdest) s)
unfolding for_below descriptors_of
for_below-Copied psrc pdest zero s apart = record {
  taken = λ fd l. absurd (omega arith);
  beyond = λ fd l. refl;
  others = λ p ne. refl;
  counted = λ of real. omega arith;
}
for_below-Copied psrc pdest (suc n) s apart =
    copy_file-Copied psrc pdest n s _ apart (for_below-Copied psrc pdest n s apart)

-- Between two processes, the copy gives the second one the open files of the first, and adds to
-- the count of each file the descriptors that name it.
pub proc_file_table_copy-Copied :
    (psrc pdest : ℕ) (s : OpenFiles)
    → psrc ≢ pdest
    → Copied psrc pdest open_max s (proc_file_table_copy psrc pdest s)
unfolding proc_file_table_copy
proc_file_table_copy-Copied psrc pdest s apart = for_below-Copied psrc pdest open_max s apart

-- For two different processes, the fork copies the other way: the parent has no file open
-- afterwards, and neither has the child.
pub fork_files-loses :
    (curproc newp : ℕ) (s : OpenFiles)
    → newp ≢ curproc
    → (fd : ℕ) → fd < open_max
    → ((fork_files curproc newp s).file_table curproc fd ≡ 0)
      × ((fork_files curproc newp s).file_table newp fd ≡ 0)
unfolding fork_files
fork_files-loses curproc newp s apart fd l =
    let h =
      proc_file_table_copy-Copied newp curproc
        (record s { file_table = update s.file_table newp (λ _. 0) }) apart in
    (
      h.taken fd l ∙ ground arith,
      elim (Bool-cases (curproc == newp)) [
        | inl same ↦ absurd (apart (ground arith))
        | inr away ↦ ap (λ t. t fd) (h.others newp apart) ∙ ground arith
      ],
    )
