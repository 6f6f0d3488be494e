-- ===== src/SfsDir/Tests.antt =====
-- A directory of three entries in memory.
use mathlib.Core.Path.{subst}
use os161_project_c.Base.{
  ℕ, ◌+◌, ◌*◌, ◌<◌, ◌≡◌, refl, sym, ap, ◌∙◌, ◌≢◌, true, arith, ltb, ◌==◌, if◌then◌else◌, update, [],
  ◌∷◌, ok, Bool-cases, ◌⊎◌, inl, inr,
}
use os161_project_c.SfsDir.{
  DirStore, Entry, Name, Seen, enoent, noino, entry_size, same_name, cut_off, sfs_dir_findname,
  sfs_dir_link, sfs_dir_unlink,
}
use os161_project_c.SfsDir.Find.{matches, IsDir, Finds, sfs_dir_findname-Finds}
use os161_project_c.SfsDir.Link.{IsDirStore, Written, unused-matches, new-matches_only}
use os161_project_c.SfsDir.Update.{Links, sfs_dir_link-Links, sfs_dir_unlink-misses}

abbrev in_memory : DirStore
in_memory = record {
  Dir = (size : ℕ) × (ℕ → Entry);
  is_dir = λ d. true;
  size = λ d. d.0;
  read = λ d i. (0, d.1 i);
  write = λ d i e.
      (0, (if ltb d.0 ((i + 1) * entry_size) then (i + 1) * entry_size else d.0, update d.1 i e));
}

in_memory-IsDirStore : IsDirStore in_memory
in_memory-IsDirStore = record {
  read_back = λ d d' i e fits done. ap (λ x. (0, x)) (ap (λ r. r.1.1 i) (sym done) ∙ same i e d.1);
  read_other = λ d d' i j e done low away.
      ap (λ x. (0, x)) (ap (λ r. r.1.1 j) (sym done) ∙ apart i j e d.1 away);
  same_kind = λ d d' i e done. refl;
  grows = λ d d' i e done. ap (λ r. r.1.0) (sym done);
}
  where
    same : (i : ℕ) (e : Entry) (slots : ℕ → Entry) → update slots i e i ≡ e
    same i e slots = let here : (i == i) ≡ true = ground arith in rw here refl

    apart : (i j : ℕ) (e : Entry) (slots : ℕ → Entry) → j ≢ i → update slots i e j ≡ slots j
    apart i j e slots away = ground arith

-- Inode 5 by the name 1 2, an empty slot, and inode 7 by the name 3.
abbrev slot_of : ℕ → Entry
slot_of i =
    if i == 0
    then record { sfd_ino = 5; sfd_name = 1 ∷ 2 ∷ [] }
    else if i == 1
    then record { sfd_ino = 0; sfd_name = [] }
    else record { sfd_ino = 7; sfd_name = 3 ∷ [] }

abbrev three_entries : in_memory.Dir
three_entries = (192, slot_of)

-- The slot that has a name, and the name.
named :
    (name : Name) (i : ℕ)
    → i < 3
    → matches name (slot_of i) ≡ true
    → ((i ≡ 0) × (1 ∷ 2 ∷ [] ≡ name)) ⊎ ((i ≡ 2) × (3 ∷ [] ≡ name))
named name i low m = elim (Bool-cases (i == 0)) [
  | inl first ↦
      let e : i ≡ 0 = ground arith in
      inl (
        e,
        new-matches_only (1 ∷ 2 ∷ []) name 5 (omega arith) (omega arith)
            (subst (λ k. matches name (slot_of k) ≡ true) e m),
      )
  | inr later ↦ elim (Bool-cases (i == 1)) [
    | inl second ↦
        let e : i ≡ 1 = ground arith in
        absurd (ground (arith, unused-matches name (slot_of i) (rw e refl), m))
    | inr third ↦
        let e : i ≡ 2 = ground arith in
        inr (
          e,
          new-matches_only (3 ∷ []) name 7 (omega arith) (omega arith)
              (subst (λ k. matches name (slot_of k) ≡ true) e m),
        )
  ]
]

three_entries-IsDir : IsDir in_memory three_entries
three_entries-IsDir = record {
  kind = refl;
  whole = refl;
  readable = λ i low. refl;
  unique = λ name i j low_i low_j m_i m_j. elim (named name i low_i m_i) [
    | inl at_i ↦ elim (named name j low_j m_j) [
      | inl at_j ↦ at_i.0 ∙ sym at_j.0
      | inr at_j ↦ absurd (apart (at_i.1 ∙ sym at_j.1))
    ]
    | inr at_i ↦ elim (named name j low_j m_j) [
      | inl at_j ↦ absurd (apart (at_j.1 ∙ sym at_i.1))
      | inr at_j ↦ at_i.0 ∙ sym at_j.0
    ]
  ];
}
  where
    first_name : Name
    first_name = 1 ∷ 2 ∷ []

    apart : ¬ (first_name ≡ 3 ∷ [])
    apart e = absurd (ground (arith, e))

sfs_dir_findname-Finds_example :
    Finds in_memory (3 ∷ []) three_entries (sfs_dir_findname in_memory (3 ∷ []) three_entries)
sfs_dir_findname-Finds_example =
    sfs_dir_findname-Finds in_memory (3 ∷ []) three_entries three_entries-IsDir

sfs_dir_link-Links_example :
    Links in_memory (4 ∷ []) 9 three_entries (sfs_dir_link in_memory (4 ∷ []) 9 three_entries)
sfs_dir_link-Links_example =
    sfs_dir_link-Links in_memory (4 ∷ []) 9 three_entries in_memory-IsDirStore three_entries-IsDir
      (omega arith)

sfs_dir_unlink-misses_example :
    let d' = (sfs_dir_unlink in_memory 2 three_entries).dir in
    (seen : Seen) × (sfs_dir_findname in_memory (3 ∷ []) d' ≡ ok (enoent, seen))
    × Written in_memory three_entries 2 (record { sfd_ino = noino; sfd_name = [] }) d'
unfolding sfs_dir_unlink matches same_name cut_off
sfs_dir_unlink-misses_example =
    sfs_dir_unlink-misses in_memory (3 ∷ []) 2 three_entries in_memory-IsDirStore
      three_entries-IsDir (omega arith) refl refl
