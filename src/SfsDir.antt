-- ===== src/SfsDir.antt =====
-- kern/fs/sfs/sfs_dir.c: directories of the simple file system. The transfer of an entry
-- (sfs_metaio) is a parameter. A name is the list of its characters without the NUL.
pub mod Names
pub mod Find
pub mod Link
pub mod Update
mod Tests
use os161_project_c.Base.{
  ℕ, zero, suc, ◌+◌, ◌-◌, ◌*◌, ◌/◌, ◌%◌, Bool, true, false, not, ◌&&◌, ltb, ◌==◌, if◌then◌else◌,
  Option, none, some, List, [], ◌∷◌, Outcome, ok, ◌>>=◌, ◌>>◌, kassert,
}
use os161_project_c.Base.Members.{length}

abbrev pub enoent : ℕ
enoent = 19

abbrev pub eexist : ℕ
eexist = 22

abbrev pub enametoolong : ℕ
enametoolong = 7

abbrev pub noino : ℕ
noino = 0

abbrev pub namelen : ℕ
namelen = 60

-- `sizeof(struct sfs_direntry)`
abbrev pub entry_size : ℕ
entry_size = 64

abbrev pub Name : Type 0
Name = List ℕ

-- `!strcmp(a, b)`
unfoldable pub same_name : Name → Name → Bool
same_name [] [] = true
same_name [] (c ∷ b) = false
same_name (c ∷ a) [] = false
same_name (c ∷ a) (d ∷ b) = let rest = same_name a b in if c == d then rest else false

-- `sfd_name[sizeof(sfd_name) - 1] = 0`
unfoldable pub cut_off : ℕ → Name → Name
cut_off zero a = []
cut_off (suc n) [] = []
cut_off (suc n) (c ∷ a) = c ∷ cut_off n a

-- `struct sfs_direntry`
pub record Entry : Type 0 where
  pub sfd_ino : ℕ
  pub sfd_name : Name

-- A directory: whether the inode is one, its size, and the transfer of the entry in a slot with its
-- result.
pub record DirStore : Type 1 where
  pub Dir : Type 0
  pub is_dir : Dir → Bool
  pub size : Dir → ℕ
  pub read : Dir → ℕ → (result : ℕ) × Entry
  pub write : Dir → ℕ → Entry → (result : ℕ) × Dir

-- What the search has seen.
pub record Seen : Type 0 where
  pub found : Bool
  pub ino : ℕ
  pub slot : ℕ
  pub emptyslot : Option ℕ

abbrev pub nothing_seen : Seen
nothing_seen = record { found = false; ino = 0; slot = 0; emptyslot = none }

-- `emptyslot < 0` asks for the end.
unfoldable pub slot_for : Option ℕ → (nentries : ℕ) → ℕ
slot_for none nentries = nentries
slot_for (some i) nentries = i

module _ (st : DirStore) where
  unfoldable pub sfs_dir_nentries : st.Dir → Outcome ℕ
  sfs_dir_nentries d =
      kassert (st.is_dir d) >> kassert (st.size d % entry_size == 0) >> ok (st.size d / entry_size)

  -- The entry in slot `i`, looked at.
  unfoldable pub look_at : (name : Name) (i : ℕ) → Entry → Seen → Outcome Seen
  look_at name i e seen =
      if e.sfd_ino == noino
      then ok (record seen { emptyslot = some i })
      else if same_name (cut_off (namelen - 1) e.sfd_name) name
      then kassert (not seen.found) >> ok (record seen { found = true; slot = i; ino = e.sfd_ino })
      else ok seen

  -- The loop over `k` slots from `i` on; a failed read ends it.
  unfoldable pub scan : (name : Name) (d : st.Dir) (k i : ℕ) → Seen → Outcome ((result : ℕ) × Seen)
  unfolding look_at
  scan name d zero i seen = ok (0, seen)
  scan name d (suc k) i seen =
      let (result, e) = st.read d i in
      let rest = look_at name i e seen >>= scan name d k (i + 1) in
      if result == 0 then rest else ok (result, seen)

  -- `return found ? 0 : ENOENT;`
  unfoldable pub answer : (result : ℕ) × Seen → (result : ℕ) × Seen
  answer (result, seen) =
      if result == 0 then (if seen.found then 0 else enoent, seen) else (result, seen)

  unfoldable pub sfs_dir_findname : (name : Name) → st.Dir → Outcome ((result : ℕ) × Seen)
  unfolding sfs_dir_nentries scan answer
  sfs_dir_findname name d =
      sfs_dir_nentries d >>= λ nentries. scan name d nentries 0 nothing_seen >>= λ r. ok (answer r)

  -- A result, with the slot and the directory.
  pub record Linked : Type 0 where
    pub result : ℕ
    pub slot : ℕ
    pub dir : st.Dir

  unfoldable pub write_entry : (slot : ℕ) → Entry → st.Dir → Linked
  write_entry slot e d =
      let (result, d') = st.write d slot e in record { result = result; slot = slot; dir = d' }

  -- What follows the search.
  unfoldable pub link_after :
      (name : Name) (ino : ℕ) → st.Dir → (result : ℕ) × Seen → Outcome Linked
  unfolding sfs_dir_nentries write_entry
  link_after name ino d (result, seen) =
      if not (result == 0) && not (result == enoent)
      then ok (record { result = result; slot = 0; dir = d })
      else if result == 0
      then ok (record { result = eexist; slot = 0; dir = d })
      else if ltb namelen (length name + 1)
      then ok (record { result = enametoolong; slot = 0; dir = d })
      else (sfs_dir_nentries d >>= λ nentries. ok (
          write_entry (slot_for seen.emptyslot nentries) (record { sfd_ino = ino; sfd_name = name })
            d))

  unfoldable pub sfs_dir_link : (name : Name) (ino : ℕ) → st.Dir → Outcome Linked
  unfolding sfs_dir_findname link_after
  sfs_dir_link name ino d = sfs_dir_findname name d >>= link_after name ino d

  unfoldable pub sfs_dir_unlink : (slot : ℕ) → st.Dir → Linked
  unfolding write_entry
  sfs_dir_unlink slot d = write_entry slot (record { sfd_ino = noino; sfd_name = [] }) d
