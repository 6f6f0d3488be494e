-- ===== src/SfsDir/Find.antt =====
-- What sfs_dir_findname answers in a directory where no name stands twice.
use mathlib.Core.Path.{subst}
use os161_project_c.Base.{
  ℕ, zero, suc, ◌+◌, ◌-◌, ◌/◌, ◌%◌, ◌<◌, ◌≡◌, refl, inl, inr, Bool, true, false, not, ◌&&◌, arith,
  ◌==◌, some, Outcome, ok, Bool-cases,
}
use os161_project_c.SfsDir.{
  DirStore, Entry, Name, Seen, nothing_seen, enoent, noino, namelen, entry_size, same_name, cut_off,
  sfs_dir_nentries, look_at, scan, answer, sfs_dir_findname,
}

-- The entry is in use and has the name.
unfoldable pub matches : Name → Entry → Bool
matches name e = not (e.sfd_ino == noino) && same_name (cut_off (namelen - 1) e.sfd_name) name

abbrev pub entries : (st : DirStore) → st.Dir → ℕ
entries st d = st.size d / entry_size

abbrev pub entry : (st : DirStore) → st.Dir → ℕ → Entry
entry st d i = (st.read d i).1

-- A directory of whole entries that can be read, and no name twice.
pub record IsDir (st : DirStore) (d : st.Dir) : Type 0 where
  pub kind : st.is_dir d ≡ true
  pub whole : st.size d % entry_size ≡ 0
  pub readable : (i : ℕ) → i < entries st d → (st.read d i).0 ≡ 0
  pub unique :
      (name : Name) (i j : ℕ)
      → i < entries st d
      → j < entries st d
      → matches name (entry st d i) ≡ true
      → matches name (entry st d j) ≡ true
      → i ≡ j

-- What the search knows after the slots below `i`.
pub record Scanned (st : DirStore) (name : Name) (d : st.Dir) (i : ℕ) (seen : Seen) : Type 0 where
  pub here :
      seen.found ≡ true
      → (seen.slot < i)
        × (matches name (entry st d seen.slot) ≡ true)
        × (seen.ino ≡ (entry st d seen.slot).sfd_ino)
  pub away : seen.found ≡ false → (j : ℕ) → j < i → matches name (entry st d j) ≡ false
  pub vacant : (e : ℕ) → seen.emptyslot ≡ some e → (e < i) × ((entry st d e).sfd_ino ≡ noino)

-- The answer of a search: the slot that has the name, or that none has it, with an empty slot if
-- there is one.
pub data Finds (st : DirStore) (name : Name) (d : st.Dir) : Outcome (ℕ × Seen) → Type 0 where
  finds :
      (seen : Seen)
      → seen.slot < entries st d
      → matches name (entry st d seen.slot) ≡ true
      → seen.ino ≡ (entry st d seen.slot).sfd_ino
      → Finds st name d (ok (0, seen))
  misses :
      (seen : Seen)
      → ((j : ℕ) → j < entries st d → matches name (entry st d j) ≡ false)
      → ((e : ℕ) → seen.emptyslot ≡ some e → (e < entries st d) × ((entry st d e).sfd_ino ≡ noino))
      → Finds st name d (ok (enoent, seen))

module _ (st : DirStore) (name : Name) (d : st.Dir) where
  nothing-Scanned : Scanned st name d 0 nothing_seen
  nothing-Scanned = record {
    here = λ e. absurd (ground (arith, e));
    away = λ e j low. absurd (omega arith);
    vacant = λ e same. absurd (ground (arith, same));
  }

  -- The entry in slot `i` is empty.
  empty-Scanned :
      (i : ℕ) (seen : Seen)
      → Scanned st name d i seen
      → (entry st d i).sfd_ino ≡ noino
      → Scanned st name d (i + 1) (record seen { emptyslot = some i })
  unfolding matches
  empty-Scanned i seen s unused = record {
    here = λ e. let (low, m, ino) = s.here e in (omega arith, m, ino);
    away = λ e j low. elim (Bool-cases (j == i)) [
      | inl same ↦ let at : j ≡ i = ground arith in rw at (ground (arith, unused))
      | inr other ↦ s.away e j (ground arith)
    ];
    vacant = λ e same.
        let at : i ≡ e = ground (arith, same) in (ground (arith, at), ground (arith, at, unused));
  }

  -- The entry in slot `i` has another name.
  other-Scanned :
      (i : ℕ) (seen : Seen)
      → Scanned st name d i seen
      → matches name (entry st d i) ≡ false
      → Scanned st name d (i + 1) seen
  other-Scanned i seen s differs = record {
    here = λ e. let (low, m, ino) = s.here e in (omega arith, m, ino);
    away = λ e j low. elim (Bool-cases (j == i)) [
      | inl same ↦ let at : j ≡ i = ground arith in rw at differs
      | inr other ↦ s.away e j (ground arith)
    ];
    vacant = λ e same. let (low, unused) = s.vacant e same in (omega arith, unused);
  }

  -- The entry in slot `i` has the name.
  hit-Scanned :
      (i : ℕ) (seen : Seen)
      → Scanned st name d i seen
      → matches name (entry st d i) ≡ true
      → Scanned st name d
          (i + 1)
          (record seen { found = true; slot = i; ino = (entry st d i).sfd_ino })
  hit-Scanned i seen s same = record {
    here = λ e. (omega arith, same, refl);
    away = λ e. absurd (ground (arith, e));
    vacant = λ e same'. let (low, unused) = s.vacant e same' in (omega arith, unused);
  }

  look_at-Scanned :
      (i : ℕ) (seen : Seen)
      → IsDir st d
      → i < entries st d
      → Scanned st name d i seen
      → (seen' : Seen) × (look_at st name i (entry st d i) seen ≡ ok seen')
        × Scanned st name d (i + 1) seen'
  unfolding look_at matches
  look_at-Scanned i seen dir low s = elim (Bool-cases ((entry st d i).sfd_ino == noino)) [
    | inl unused ↦ (_, rw unused refl, empty-Scanned i seen s (ground arith))
    | inr used ↦
        elim (Bool-cases (same_name (cut_off (namelen - 1) (entry st d i).sfd_name) name)) [
          | inr differs ↦
              (seen, rw (used, differs) refl, other-Scanned i seen s (rw (used, differs) refl))
          | inl same ↦
              let m : matches name (entry st d i) ≡ true = rw (used, same) refl in
              elim (Bool-cases seen.found) [
                | inr first ↦ (_, rw (used, same, first) refl, hit-Scanned i seen s m)
                | inl again ↦
                    let (before, m', ino) = s.here again in
                    absurd
                      (omega (arith, dir.unique name i seen.slot low (omega arith) m m', before))
              ]
        ]
  ]

  scan-Scanned :
      (k i : ℕ) (seen : Seen)
      → IsDir st d
      → i + k ≡ entries st d
      → Scanned st name d i seen
      → (seen' : Seen) × (scan st name d k i seen ≡ ok (0, seen'))
        × Scanned st name d (entries st d) seen'
  unfolding scan
  scan-Scanned zero i seen dir all s =
      (seen, refl, subst (λ n. Scanned st name d n seen) (ground (arith, all)) s)
  scan-Scanned (suc k) i seen dir all s =
      let (seen1, looked, s1) = look_at-Scanned i seen dir (omega arith) s in
      let (seen2, done, s2) = scan-Scanned k (i + 1) seen1 dir (omega arith) s1 in
      let fine : ((st.read d i).0 == 0) ≡ true = ground (arith, dir.readable i (omega arith)) in
      (seen2, rw (fine, looked) done, s2)

  -- In a directory of whole entries where no name stands twice, whose slots can all be read, the
  -- search never stops the kernel: it answers 0 with the slot that has the name and that slot's inode
  -- number, or ENOENT where no entry in use has the name, and then an empty slot, if it names one, is
  -- empty.
  pub sfs_dir_findname-Finds : IsDir st d → Finds st name d (sfs_dir_findname st name d)
  unfolding sfs_dir_findname sfs_dir_nentries answer
  sfs_dir_findname-Finds dir =
      let (seen, done, s) =
        scan-Scanned (entries st d) 0 nothing_seen dir (omega arith) nothing-Scanned in
      let whole : (st.size d % entry_size == 0) ≡ true = ground (arith, dir.whole) in
      rw (dir.kind, whole, done)
        (elim (Bool-cases seen.found) [
          | inl found ↦ let (low, m, ino) = s.here found in rw found (finds seen low m ino)
          | inr missing ↦ rw missing (misses seen (s.away missing) s.vacant)
        ])
