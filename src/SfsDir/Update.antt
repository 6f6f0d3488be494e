-- ===== src/SfsDir/Update.antt =====
-- What sfs_dir_link and sfs_dir_unlink leave for sfs_dir_findname.
use mathlib.Core.Path.{subst}
use os161_project_c.Base.{
  ℕ, ◌+◌, ◌%◌, ◌≤◌, ◌<◌, ◌≡◌, refl, sym, ap, ◌∙◌, ◌≢◌, inl, inr, true, false, arith, ltb, ◌==◌,
  Option, none, some, Outcome, ok, ◌>>=◌, Bool-cases, [],
}
use os161_project_c.Base.Members.{length}
use os161_project_c.SfsDir.{
  DirStore, Entry, Name, Seen, Linked, enoent, eexist, enametoolong, noino, namelen, entry_size,
  slot_for, sfs_dir_nentries, sfs_dir_findname, write_entry, link_after, sfs_dir_link,
  sfs_dir_unlink,
}
use os161_project_c.SfsDir.Find.{
  matches, entries, entry, IsDir, Finds, finds, misses, sfs_dir_findname-Finds,
}
use os161_project_c.SfsDir.Link.{
  IsDirStore, Written, Written-ok, unused-matches, new-matches, new-matches_only,
}

-- How sfs_dir_link ends: the name is there already, or is too long, or the transfer fails, or the
-- name is found in the new directory and leads to the inode.
pub data Links (st : DirStore) (name : Name) (ino : ℕ) (d : st.Dir)
    : Outcome (Linked st) → Type 0 where
  there :
      (i : ℕ)
      → i < entries st d
      → matches name (entry st d i) ≡ true
      → Links st name ino d (ok (record { result = eexist; slot = 0; dir = d }))
  too_long :
      ((j : ℕ) → j < entries st d → matches name (entry st d j) ≡ false)
      → namelen ≤ length name
      → Links st name ino d (ok (record { result = enametoolong; slot = 0; dir = d }))
  failed :
      (slot : ℕ)
      → ((j : ℕ) → j < entries st d → matches name (entry st d j) ≡ false)
      → length name < namelen
      → (slot ≤ entries st d) × ((slot < entries st d) → (entry st d slot).sfd_ino ≡ noino)
      → (st.write d slot (record { sfd_ino = ino; sfd_name = name })).0 ≢ 0
      → Links st name ino d (
          ok (record {
            result = (st.write d slot (record { sfd_ino = ino; sfd_name = name })).0;
            slot = slot;
            dir = (st.write d slot (record { sfd_ino = ino; sfd_name = name })).1;
          }))
  linked :
      (slot : ℕ) (d' : st.Dir) (seen : Seen)
      → ((j : ℕ) → j < entries st d → matches name (entry st d j) ≡ false)
      → ((slot < entries st d) → (entry st d slot).sfd_ino ≡ noino)
      → Written st d slot (record { sfd_ino = ino; sfd_name = name }) d'
      → sfs_dir_findname st name d' ≡ ok (0, seen)
      → seen.ino ≡ ino
      → seen.slot ≡ slot
      → Links st name ino d (ok (record { result = 0; slot = slot; dir = d' }))

-- A search of which the slot that has the name is known.
found_there :
    (st : DirStore) (name : Name) (d : st.Dir) (slot : ℕ)
    → IsDir st d
    → slot < entries st d
    → matches name (entry st d slot) ≡ true
    → (o : Outcome (ℕ × Seen)) → Finds st name d o
    → (seen : Seen) × (o ≡ ok (0, seen))
      × (seen.ino ≡ (entry st d slot).sfd_ino)
      × (seen.slot ≡ slot)
found_there st name d slot dir low m _ (finds seen low' m' ino) =
    let same = dir.unique name seen.slot slot low' low m' m in
    (seen, refl, ino ∙ ap (λ k. (entry st d k).sfd_ino) same, same)
found_there st name d slot dir low m _ (misses seen away vacant) =
    absurd (ground (arith, away slot low, m))

-- A search of a name that no entry has.
not_found :
    (st : DirStore) (name : Name) (d : st.Dir)
    → ((j : ℕ) → j < entries st d → matches name (entry st d j) ≡ false)
    → (o : Outcome (ℕ × Seen)) → Finds st name d o
    → (seen : Seen) × (o ≡ ok (enoent, seen))
not_found st name d away _ (finds seen low m ino) = absurd (ground (arith, away seen.slot low, m))
not_found st name d away _ (misses seen away' vacant) = (seen, refl)

-- The slot that sfs_dir_link takes is empty or behind the last.
slot_for-free :
    (st : DirStore) (d : st.Dir) (o : Option ℕ)
    → ((e : ℕ) → o ≡ some e → (e < entries st d) × ((entry st d e).sfd_ino ≡ noino))
    → (slot_for o (entries st d) ≤ entries st d)
      × ((slot_for o (entries st d) < entries st d)
          → (entry st d (slot_for o (entries st d))).sfd_ino ≡ noino)
unfolding slot_for
slot_for-free st d none vacant = (omega arith, λ low. absurd (omega arith))
slot_for-free st d (some e) vacant =
    let (low, unused) = vacant e refl in (omega arith, λ low'. unused)

module _ (st : DirStore) (sound : IsDirStore st) (name : Name) (ino : ℕ) (d : st.Dir)
    (dir : IsDir st d) (real : ino ≢ noino) where
  write_entry-Links :
      (slot : ℕ)
      → length name < namelen
      → ((j : ℕ) → j < entries st d → matches name (entry st d j) ≡ false)
      → (slot ≤ entries st d) × ((slot < entries st d) → (entry st d slot).sfd_ino ≡ noino)
      → Links st name ino d (ok (write_entry st slot (record { sfd_ino = ino; sfd_name = name }) d))
  unfolding write_entry
  write_entry-Links slot fits away free = elim (Bool-cases ((st.write d slot new).0 == 0)) [
    | inr fails ↦ failed slot away fits free (ground arith)
    | inl fine ↦
        let zero_result : (st.write d slot new).0 ≡ 0 = ground arith in
        let done : st.write d slot new ≡ (0, (st.write d slot new).1) =
          ap (λ r. (r, (st.write d slot new).1)) zero_result in
        let w =
          Written-ok st sound d dir slot new (st.write d slot new).1 done fits free.0
            λ nm j low off m.
              subst (λ x. matches x (entry st d j) ≡ false)
                (new-matches_only name nm ino fits real m) (away j low) in
        let m : matches name (entry st (st.write d slot new).1 slot) ≡ true =
          subst (λ x. matches name x ≡ true) (sym w.here) (new-matches name ino fits real) in
        let (seen, found, its_ino, its_slot) =
          found_there st name (st.write d slot new).1 slot w.dir w.inside m _
            (sfs_dir_findname-Finds st name (st.write d slot new).1 w.dir) in
        rw zero_result (
          linked slot (st.write d slot new).1 seen away free.1 w found
            (its_ino ∙ ap (λ x. x.sfd_ino) w.here) its_slot)
  ]
    where
      new : Entry
      new = record { sfd_ino = ino; sfd_name = name }

  link_after-Links :
      (o : Outcome (ℕ × Seen))
      → Finds st name d o
      → Links st name ino d (o >>= link_after st name ino d)
  unfolding link_after sfs_dir_nentries
  link_after-Links _ (finds seen low m its_ino) = there seen.slot low m
  link_after-Links _ (misses seen away vacant) = elim (Bool-cases (ltb namelen (length name + 1))) [
    | inl long ↦ rw long (too_long away (ground arith))
    | inr fits ↦
        let whole : (st.size d % entry_size == 0) ≡ true = ground (arith, dir.whole) in
        rw (fits, dir.kind, whole)
          (write_entry-Links (slot_for seen.emptyslot (entries st d)) (ground arith) away
            (slot_for-free st d seen.emptyslot vacant))
  ]

-- sfs_dir_link of a name with an inode number, in a directory where no name stands twice, never stops
-- the kernel. It answers EEXIST for a name that is there. For one that is not, it answers ENAMETOOLONG
-- if it has sixty characters or more, or the error of the transfer, or 0: the entry is in a slot
-- that was empty or behind the last, the other entries stay, no name stands twice, and
-- sfs_dir_findname of the name finds this slot and this inode.
pub sfs_dir_link-Links :
    (st : DirStore) (name : Name) (ino : ℕ) (d : st.Dir)
    → IsDirStore st
    → IsDir st d
    → ino ≢ noino
    → Links st name ino d (sfs_dir_link st name ino d)
unfolding sfs_dir_link
sfs_dir_link-Links st name ino d sound dir real =
    link_after-Links st sound name ino d dir real _ (sfs_dir_findname-Finds st name d dir)

-- Once sfs_dir_unlink has written the slot that has a name, sfs_dir_findname of that name answers
-- ENOENT, the other entries are as before, and no name stands twice.
pub sfs_dir_unlink-misses :
    (st : DirStore) (name : Name) (slot : ℕ) (d : st.Dir)
    → IsDirStore st
    → IsDir st d
    → slot < entries st d
    → matches name (entry st d slot) ≡ true
    → (sfs_dir_unlink st slot d).result ≡ 0
    → let d' = (sfs_dir_unlink st slot d).dir in
      (seen : Seen) × (sfs_dir_findname st name d' ≡ ok (enoent, seen))
      × Written st d slot (record { sfd_ino = noino; sfd_name = [] }) d'
unfolding sfs_dir_unlink write_entry
sfs_dir_unlink-misses st name slot d sound dir low m fine =
    let w =
      Written-ok st sound d dir slot (record { sfd_ino = noino; sfd_name = [] }) d' done
        (omega arith) (omega arith)
        λ nm j low' off m'. absurd (ground (arith, unused-matches nm gone refl, m')) in
    let away : (j : ℕ) → j < entries st d' → matches name (entry st d' j) ≡ false = λ j low'.
      elim (Bool-cases (j == slot)) [
        | inl same ↦
            let at : j ≡ slot = ground arith in
            ap (λ k. matches name (entry st d' k)) at
            ∙ ap (matches name) w.here
            ∙ unused-matches name gone refl
        | inr other ↦
            let off : j ≢ slot = ground arith in
            let inside : j < entries st d = elim (w.only j low') [
              | inl in_old ↦ in_old
              | inr at ↦ absurd (off at)
            ] in
            ap (matches name) (w.others j inside off) ∙ elsewhere j inside off
      ] in
    let (seen, missing) = not_found st name d' away _ (sfs_dir_findname-Finds st name d' w.dir) in
    (seen, missing, w)
  where
    gone : Entry
    gone = record { sfd_ino = noino; sfd_name = [] }

    d' : st.Dir
    d' = (st.write d slot gone).1

    done : st.write d slot gone ≡ (0, d')
    done = ap (λ r. (r, d')) fine

    elsewhere : (j : ℕ) → j < entries st d → j ≢ slot → matches name (entry st d j) ≡ false
    elsewhere j inside off = elim (Bool-cases (matches name (entry st d j))) [
      | inl too ↦ absurd (off (dir.unique name j slot inside low too m))
      | inr differs ↦ differs
    ]
