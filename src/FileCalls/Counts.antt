-- ===== src/FileCalls/Counts.antt =====
-- The count of each open file is the number of descriptors that name it, over all processes.
use os161_project_c.Base.{
  ℕ, zero, suc, ◌+◌, ◌-◌, ◌*◌, ◌^◌, ◌≤◌, ◌<◌, ◌≡◌, refl, ap, ◌∙◌, ◌≢◌, ◌⊎◌, inl, inr, true, false,
  arith, ◌==◌, if◌then◌else◌, update, weigh, weigh-update, weigh-has, Bool-cases, ltb, pos,
}
use os161_project_c.Proc.{open_max}
use os161_project_c.Proc.Files.{descriptors_of}
use os161_project_c.FileCalls.{
  FileLayer, Files, unsigned, drop_reference, clear_descriptor, sys_close,
}

abbrev names : (of : ℕ) → ℕ → ℕ
names of f = if f == of then 1 else 0

descriptors_of-weigh : (of n : ℕ) (t : ℕ → ℕ) → descriptors_of of n t ≡ weigh (names of) t n
unfolding descriptors_of weigh
descriptors_of-weigh of zero t = refl
descriptors_of-weigh of (suc n) t = omega (arith, descriptors_of-weigh of n t)

-- One descriptor changes the number by one at most.
descriptors_of-update :
    (of n : ℕ) (t : ℕ → ℕ) (fd v : ℕ)
    → fd < n
    → descriptors_of of n (update t fd v) + names of (t fd) ≡ descriptors_of of n t + names of v
descriptors_of-update of n t fd v low = omega (
  arith,
  descriptors_of-weigh of n t,
  descriptors_of-weigh of n (update t fd v),
  weigh-update (names of) t v {i = fd} n low,
)

pub descriptors_of-has :
    (of n : ℕ) (t : ℕ → ℕ) (fd : ℕ) → fd < n → names of (t fd) ≤ descriptors_of of n t
descriptors_of-has of n t fd low = rw descriptors_of-weigh (weigh-has (names of) t {i = fd} n low)

-- How many descriptors of the processes below `n` name the file.
unfoldable pub references : (of n : ℕ) → (ℕ → ℕ → ℕ) → ℕ
references of n tables = weigh (descriptors_of of open_max) tables n

pub references-update :
    (of n : ℕ) (tables : ℕ → ℕ → ℕ) (p fd v : ℕ)
    → p < n
    → fd < open_max
    → references of n (update tables p (update (tables p) fd v)) + names of (tables p fd)
      ≡ references of n tables + names of v
unfolding references
references-update of n tables p fd v low_p low_fd = omega (
  arith,
  weigh-update (descriptors_of of open_max) tables (update (tables p) fd v) {i = p} n low_p,
  descriptors_of-update of open_max (tables p) fd v low_fd,
)

pub references-has :
    (of n : ℕ) (tables : ℕ → ℕ → ℕ) (p fd : ℕ)
    → p < n
    → fd < open_max
    → names of (tables p fd) ≤ references of n tables
unfolding references
references-has of n tables p fd low_p low_fd = omega (
  arith,
  weigh-has (descriptors_of of open_max) tables {i = p} n low_p,
  descriptors_of-has of open_max (tables p) fd low_fd,
)

descriptors_of-le : (of n : ℕ) (t : ℕ → ℕ) → descriptors_of of n t ≤ n
unfolding descriptors_of
descriptors_of-le of zero t = omega arith
descriptors_of-le of (suc n) t = ground (arith, descriptors_of-le of n t)

pub references-le : (of n : ℕ) (tables : ℕ → ℕ → ℕ) → references of n tables ≤ n * 128
unfolding references weigh
references-le of zero tables = omega arith
references-le of (suc n) tables =
    omega (arith, references-le of n tables, descriptors_of-le of open_max (tables n))

-- The books of the open files of the processes below `n`.
pub record IsCounted (fl : FileLayer) (n : ℕ) (s : Files fl) : Type 0 where
  pub counted :
      (of : ℕ) → of ≢ 0 → s.open_files.count_ref of ≡ references of n s.open_files.file_table
  pub live : (of : ℕ) → of ≢ 0 → 0 < references of n s.open_files.file_table → s.vn of ≢ 0
  pub few : n * 128 < 2 ^ 32

clear_descriptor-tables :
    (fl : FileLayer) (p fd : ℕ) (s : Files fl)
    → (clear_descriptor fl p fd s).open_files.file_table
      ≡ update s.open_files.file_table p (update (s.open_files.file_table p) fd 0)
unfolding clear_descriptor
clear_descriptor-tables fl p fd s = refl

-- The loss of a reference changes no table.
drop_reference-tables :
    (fl : FileLayer) (of : ℕ) (s : Files fl)
    → (drop_reference fl of s).1.open_files.file_table ≡ s.open_files.file_table
unfolding drop_reference
drop_reference-tables fl of s =
    elim (Bool-cases (ltb 0 (unsigned (s.open_files.count_ref of + 2 ^ 32 - 1)))) [
      | inl more ↦ rw more refl
      | inr last ↦ elim (Bool-cases (s.vn of == 0)) [
        | inl closed ↦ rw (last, closed) refl
        | inr still ↦ rw (last, still) refl
      ]
    ]

module _ (fl : FileLayer) (n : ℕ) (s : Files fl) (p fd : ℕ) (low_p : p < n)
    (low_fd : fd < open_max) where
  abbrev file : ℕ
  file = s.open_files.file_table p fd

  -- The references once the descriptor is cleared.
  cleared-references :
      file ≢ 0
      → (of : ℕ) → of ≢ 0
      → references of n (clear_descriptor fl p fd s).open_files.file_table + names of file
        ≡ references of n s.open_files.file_table
  unfolding clear_descriptor
  cleared-references there of real =
      ground (arith, references-update of n s.open_files.file_table p fd 0 low_p low_fd)

  module _ (h : IsCounted fl n s) (there : file ≢ 0) where
    open h use {counted, live, few}

    refs : (of : ℕ) → ℕ
    refs of = references of n s.open_files.file_table

    one_named : 0 < refs file
    unfolding refs
    one_named = ground (arith, references-has file n s.open_files.file_table p fd low_p low_fd)

    count_after :
        unsigned (s.open_files.count_ref file + 2 ^ 32 - 1) ≡ s.open_files.count_ref file - 1
    unfolding refs
    count_after =
        omega
          (arith, one_named, counted file there, references-le file n s.open_files.file_table, few)

    open_still : (s.vn file == 0) ≡ false
    unfolding refs
    open_still = ground (arith, live file there one_named)

    pub dropped-IsCounted : IsCounted fl n (drop_reference fl file (clear_descriptor fl p fd s)).1
    unfolding drop_reference clear_descriptor refs
    dropped-IsCounted = elim (Bool-cases (ltb 0 (s.open_files.count_ref file - 1))) [
      | inl more ↦
          rw (count_after, more)
            (record {
              counted = λ of real.
                  ground (arith, counted of, cleared-references there of real, one_named);
              live = λ of real some_left. ground (arith, live of, cleared-references there of real);
              few = few;
            })
      | inr last ↦
          rw (count_after, last, open_still)
            (record {
              counted = λ of real.
                  ground (arith, counted of, cleared-references there of real, one_named);
              live = λ of real some_left.
                  ground (
                    arith,
                    live of,
                    cleared-references there of real,
                    counted file there,
                    one_named,
                  );
              few = few;
            })
    ]

    -- The references that are left are those once the descriptor is cleared.
    left :
        references file n
            (drop_reference fl file (clear_descriptor fl p fd s)).1.open_files.file_table
          + 1
        ≡ s.open_files.count_ref file
    left =
        ap (λ t. references file n t + 1)
          (drop_reference-tables fl file (clear_descriptor fl p fd s))
        ∙ ground (arith, cleared-references there file there, counted file there)

    pub dropped-closes :
        references file n
            (drop_reference fl file (clear_descriptor fl p fd s)).1.open_files.file_table
          ≡ 0
        → ((drop_reference fl file (clear_descriptor fl p fd s)).1.vn file ≡ 0)
          × ((drop_reference fl file (clear_descriptor fl p fd s)).1.world
              ≡ fl.vfs_close s.world (s.vn file))
    unfolding drop_reference clear_descriptor
    dropped-closes none_left =
        let last : ltb 0 (s.open_files.count_ref file - 1) ≡ false =
          ground (arith, left, none_left) in
        rw (count_after, last, open_still) (ground arith, refl)

    pub dropped-stays :
        0
          < references file n
              (drop_reference fl file (clear_descriptor fl p fd s)).1.open_files.file_table
        → ((drop_reference fl file (clear_descriptor fl p fd s)).1.vn file ≡ s.vn file)
          × ((drop_reference fl file (clear_descriptor fl p fd s)).1.world ≡ s.world)
    unfolding drop_reference clear_descriptor
    dropped-stays some_left =
        let more : ltb 0 (s.open_files.count_ref file - 1) ≡ true =
          ground (arith, left, some_left) in
        rw (count_after, more) (refl, refl)

    pub dropped-others :
        (of : ℕ)
        → of ≢ file
        → (drop_reference fl file (clear_descriptor fl p fd s)).1.vn of ≡ s.vn of
    unfolding drop_reference clear_descriptor
    dropped-others of other = elim (Bool-cases (ltb 0 (s.open_files.count_ref file - 1))) [
      | inl more ↦ rw (count_after, more) refl
      | inr last ↦ rw (count_after, last, open_still) (ground arith)
    ]

    pub dropped-offsets : (drop_reference fl file (clear_descriptor fl p fd s)).1.offset ≡ s.offset
    unfolding drop_reference clear_descriptor
    dropped-offsets = elim (Bool-cases (ltb 0 (s.open_files.count_ref file - 1))) [
      | inl more ↦ rw (count_after, more) refl
      | inr last ↦ rw (count_after, last, open_still) refl
    ]

    pub dropped-pos : (drop_reference fl file (clear_descriptor fl p fd s)).0 ≡ pos 0
    unfolding drop_reference clear_descriptor
    dropped-pos = elim (Bool-cases (ltb 0 (s.open_files.count_ref file - 1))) [
      | inl more ↦ rw (count_after, more) refl
      | inr last ↦ rw (count_after, last, open_still) refl
    ]

-- What sys_close does to the tables, the counts and the vnodes.
pub record Closed (fl : FileLayer) (n p fd : ℕ) (s s' : Files fl) : Type 0 where
  pub books : IsCounted fl n s'
  pub cleared : s'.open_files.file_table p fd ≡ 0
  pub others :
      (q d : ℕ) → (q ≢ p) ⊎ (d ≢ fd) → s'.open_files.file_table q d ≡ s.open_files.file_table q d
  pub closes :
      let of = s.open_files.file_table p fd in
      references of n s'.open_files.file_table ≡ 0
      → (s'.vn of ≡ 0) × (s'.world ≡ fl.vfs_close s.world (s.vn of))
  pub stays :
      let of = s.open_files.file_table p fd in
      0 < references of n s'.open_files.file_table → (s'.vn of ≡ s.vn of) × (s'.world ≡ s.world)
  pub other_files : (of : ℕ) → of ≢ s.open_files.file_table p fd → s'.vn of ≡ s.vn of
  pub offsets : s'.offset ≡ s.offset

-- Where the counts are right, sys_close of an open descriptor of a process succeeds, clears that
-- descriptor alone, and keeps the counts right. If no descriptor names the file any more, its vnode
-- is closed and its slot is free; if one does, neither the vnode nor the world below changes. The
-- other files and the offsets stay.
pub sys_close-Closed :
    (fl : FileLayer) (n : ℕ) (s : Files fl) (p fd : ℕ)
    → IsCounted fl n s
    → p < n
    → fd < open_max
    → s.open_files.file_table p fd ≢ 0
    → ((sys_close fl p (pos fd) s).0 ≡ pos 0) × Closed fl n p fd s (sys_close fl p (pos fd) s).1
unfolding sys_close
sys_close-Closed fl n s p fd h low_p low_fd there =
    rw (in_range, is_open)
      (
        dropped-pos fl n s p fd low_p low_fd h there,
        record {
          books = dropped-IsCounted fl n s p fd low_p low_fd h there;
          cleared = ap (λ t. t p fd) tables ∙ ground arith;
          others = λ q d other. ap (λ t. t q d) tables ∙ ground arith;
          closes = dropped-closes fl n s p fd low_p low_fd h there;
          stays = dropped-stays fl n s p fd low_p low_fd h there;
          other_files = dropped-others fl n s p fd low_p low_fd h there;
          offsets = dropped-offsets fl n s p fd low_p low_fd h there;
        },
      )
  where
    in_range : ltb open_max fd ≡ false
    in_range = ground arith

    is_open : (s.open_files.file_table p fd == 0) ≡ false
    is_open = ground arith

    tables :
        (drop_reference fl
          (s.open_files.file_table p fd)
          (clear_descriptor fl p fd s)).1.open_files.file_table
        ≡ update s.open_files.file_table p (update (s.open_files.file_table p) fd 0)
    tables =
        drop_reference-tables fl (s.open_files.file_table p fd) (clear_descriptor fl p fd s)
        ∙ clear_descriptor-tables fl p fd s
