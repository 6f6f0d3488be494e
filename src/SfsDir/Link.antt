-- ===== src/SfsDir/Link.antt =====
-- What writing one entry does to the names of a directory.
use mathlib.Core.Path.{subst}
use os161_project_c.Base.{
  ℕ, ◌+◌, ◌-◌, ◌*◌, ◌≤◌, ◌<◌, ◌≡◌, refl, ap, ◌∙◌, ◌≢◌, ◌⊎◌, inl, inr, true, false, arith, ltb, ◌==◌,
  if◌then◌else◌, Bool-cases,
}
use os161_project_c.Base.Members.{length}
use os161_project_c.SfsDir.{DirStore, Entry, Name, noino, namelen, entry_size, same_name, cut_off}
use os161_project_c.SfsDir.Names.{same_name_refl, same_name-≡, cut_off-short}
use os161_project_c.SfsDir.Find.{matches, entries, entry, IsDir}

-- What a successful transfer of an entry does: it can be read back, the other entries stay, and the
-- directory grows to hold it.
pub record IsDirStore (st : DirStore) : Type 0 where
  pub read_back :
      (d d' : st.Dir) (i : ℕ) (e : Entry)
      → length e.sfd_name < namelen
      → st.write d i e ≡ (0, d')
      → st.read d' i ≡ (0, e)
  pub read_other :
      (d d' : st.Dir) (i j : ℕ) (e : Entry)
      → st.write d i e ≡ (0, d')
      → j < entries st d
      → j ≢ i
      → st.read d' j ≡ st.read d j
  pub same_kind :
      (d d' : st.Dir) (i : ℕ) (e : Entry) → st.write d i e ≡ (0, d') → st.is_dir d' ≡ st.is_dir d
  pub grows :
      (d d' : st.Dir) (i : ℕ) (e : Entry)
      → st.write d i e ≡ (0, d')
      → st.size d'
        ≡ (if ltb (st.size d) ((i + 1) * entry_size) then (i + 1) * entry_size else st.size d)

-- The directory after entry `e` is in its slot.
pub record Written (st : DirStore) (d : st.Dir) (slot : ℕ) (e : Entry) (d' : st.Dir) : Type 0 where
  pub here : entry st d' slot ≡ e
  pub others : (j : ℕ) → j < entries st d → j ≢ slot → entry st d' j ≡ entry st d j
  pub inside : slot < entries st d'
  pub only : (j : ℕ) → j < entries st d' → (j < entries st d) ⊎ (j ≡ slot)
  pub dir : IsDir st d'

-- An entry that is not in use has no name.
pub unused-matches : (name : Name) (e : Entry) → e.sfd_ino ≡ noino → matches name e ≡ false
unfolding matches
unused-matches name e unused = rw unused refl

-- A new entry has its name, and no other.
pub new-matches :
    (name : Name) (ino : ℕ)
    → length name < namelen
    → ino ≢ noino
    → matches name (record { sfd_ino = ino; sfd_name = name }) ≡ true
unfolding matches
new-matches name ino fits real =
    let used : (ino == noino) ≡ false = ground arith in
    rw (used, cut_off-short (namelen - 1) name (omega arith), same_name_refl name) refl

pub new-matches_only :
    (name other : Name) (ino : ℕ)
    → length name < namelen
    → ino ≢ noino
    → matches other (record { sfd_ino = ino; sfd_name = name }) ≡ true
    → name ≡ other
unfolding matches
new-matches_only name other ino fits real m =
    let used : (ino == noino) ≡ false = ground arith in
    let short = cut_off-short (namelen - 1) name (omega arith) in
    same_name-≡ name other (
      subst (λ a. same_name a other ≡ true) short
        (elim (Bool-cases (same_name (cut_off (namelen - 1) name) other)) [
          | inl same ↦ same
          | inr differs ↦ absurd (ground (arith, m, used, differs))
        ]))

module _ (st : DirStore) (sound : IsDirStore st) (d : st.Dir) (dir : IsDir st d) (slot : ℕ)
    (e : Entry) (d' : st.Dir) (done : st.write d slot e ≡ (0, d'))
    (fits : length e.sfd_name < namelen) (place : slot ≤ entries st d)
    (fresh : (name : Name) (j : ℕ)
      → j < entries st d
      → j ≢ slot
      → matches name e ≡ true
      → matches name (entry st d j) ≡ false) where
  count : entries st d' ≡ (if slot == entries st d then slot + 1 else entries st d)
  count = ground (arith, sound.grows d d' slot e done, dir.whole, place)

  here : entry st d' slot ≡ e
  here = ap (λ r. r.1) (sound.read_back d d' slot e fits done)

  others : (j : ℕ) → j < entries st d → j ≢ slot → entry st d' j ≡ entry st d j
  others j low away = ap (λ r. r.1) (sound.read_other d d' slot j e done low away)

  only : (j : ℕ) → j < entries st d' → (j < entries st d) ⊎ (j ≡ slot)
  only j low = elim (Bool-cases (j == slot)) [
    | inl same ↦ inr (ground arith)
    | inr other ↦ inl (ground (arith, count, place))
  ]

  unique :
      (name : Name) (i j : ℕ)
      → i < entries st d'
      → j < entries st d'
      → matches name (entry st d' i) ≡ true
      → matches name (entry st d' j) ≡ true
      → i ≡ j
  unique name i j low_i low_j m_i m_j = elim (Bool-cases (i == slot)) [
    | inl at_i ↦ elim (Bool-cases (j == slot)) [
      | inl at_j ↦ ground arith
      | inr off_j ↦
          let e_i : i ≡ slot = ground arith in
          absurd (
            clash j low_j (ground arith) m_j
              (subst (λ k. matches name (entry st d' k) ≡ true) e_i m_i))
    ]
    | inr off_i ↦ elim (Bool-cases (j == slot)) [
      | inl at_j ↦
          let e_j : j ≡ slot = ground arith in
          absurd (
            clash i low_i (ground arith) m_i
              (subst (λ k. matches name (entry st d' k) ≡ true) e_j m_j))
      | inr off_j ↦
          dir.unique name i j (old i low_i (ground arith)) (old j low_j (ground arith))
            (was i low_i (ground arith) m_i) (was j low_j (ground arith) m_j)
    ]
  ]
    where
      old : (k : ℕ) → k < entries st d' → k ≢ slot → k < entries st d
      old k low off = elim (only k low) [ inl inside ↦ inside | inr at ↦ absurd (off at) ]

      was :
          (k : ℕ)
          → k < entries st d'
          → k ≢ slot
          → matches name (entry st d' k) ≡ true
          → matches name (entry st d k) ≡ true
      was k low off m = subst (λ x. matches name x ≡ true) (others k (old k low off) off) m

      clash :
          (k : ℕ)
          → k < entries st d'
          → k ≢ slot
          → matches name (entry st d' k) ≡ true
          → matches name (entry st d' slot) ≢ true
      clash k low off m m' =
          let a = was k low off m in
          let b = fresh name k (old k low off) off (subst (λ x. matches name x ≡ true) here m') in
          ground (arith, a, b)

  -- The directory stays one where no name stands twice.
  pub Written-ok : Written st d slot e d'
  Written-ok = record {
    here = here;
    others = others;
    inside = ground (arith, count, place);
    only = only;
    dir = record {
      kind = sound.same_kind d d' slot e done ∙ dir.kind;
      whole = ground (arith, sound.grows d d' slot e done, dir.whole);
      readable = λ i low. elim (only i low) [
        | inr at ↦
            ap (λ k. (st.read d' k).0) at ∙ ap (λ r. r.0) (sound.read_back d d' slot e fits done)
        | inl inside ↦ elim (Bool-cases (i == slot)) [
          | inl same ↦
              ap (λ k. (st.read d' k).0) (ground arith)
              ∙ ap (λ r. r.0) (sound.read_back d d' slot e fits done)
          | inr other ↦
              ap (λ r. r.0) (sound.read_other d d' slot i e done inside (ground arith))
              ∙ dir.readable i inside
        ]
      ];
      unique = unique;
    };
  }
