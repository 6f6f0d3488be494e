-- ===== src/ThreadList/Ends.antt =====
-- Adding and removing at the two ends of a thread list.
use mathlib.Core.Path.{subst}
use mathlib.Core.List.{append-nil}
use os161_project_c.Base.{ℕ, ◌≡◌, refl, Option, none, some, List, [], ◌∷◌, ◌++◌, arith, ok}
use os161_project_c.Base.Members.{is_member-++}
use os161_project_c.ThreadList.{
  Nodes, ThreadList, count_up, count_down, threadlist_addhead, threadlist_addtail, take_off,
  threadlist_remhead, threadlist_remtail,
}
use os161_project_c.ThreadList.Chains.{
  last_of, splice, unsplice, threadlist_insertafternode-splice, threadlist_insertbeforenode-splice,
  threadlist_removenode-unsplice,
}
use os161_project_c.ThreadList.Refine.{
  Holds, IsLoose, follower, splice-Holds, unsplice-Holds, link_at, links_around, loose-apart,
}

-- threadlist_addhead puts a thread in front of a list that does not hold it.
pub threadlist_addhead-Holds :
    (s : Nodes) (tl : ThreadList) (ts : List ℕ) (t : ℕ)
    → Holds s tl ts
    → IsLoose s tl ts t
    → (s' : Nodes) × (threadlist_addhead tl t s ≡ ok s') × Holds s' tl (t ∷ ts)
unfolding threadlist_addhead
threadlist_addhead-Holds s tl ts t h loose =
    let (y, r', behind, has_tail) = follower tl ts in
    (
      count_up tl (splice tl.tl_head t y s),
      rw
          (threadlist_insertafternode-splice tl.tl_head t y s (link_at [] ts t y r' behind h)
            (loose-apart [] ts t loose))
          refl,
      splice-Holds [] ts t y r' behind has_tail h loose,
    )

-- threadlist_addtail puts a thread behind a list that does not hold it.
pub threadlist_addtail-Holds :
    (s : Nodes) (tl : ThreadList) (ts : List ℕ) (t : ℕ)
    → Holds s tl ts
    → IsLoose s tl ts t
    → (s' : Nodes) × (threadlist_addtail tl t s ≡ ok s') × Holds s' tl (ts ++ (t ∷ []))
unfolding threadlist_addtail
threadlist_addtail-Holds s tl ts t h loose =
    let x = last_of tl.tl_head ts in
    (
      count_up tl (splice x t tl.tl_tail s),
      rw
          (threadlist_insertbeforenode-splice x t tl.tl_tail s
            (link_at ts [] t tl.tl_tail [] refl h') (loose-apart ts [] t loose'))
          refl,
      splice-Holds ts [] t tl.tl_tail [] refl (ground arith) h' loose',
    )
  where
    h' : Holds s tl (ts ++ [])
    h' = rw (append-nil ts) h

    loose' : IsLoose s tl (ts ++ []) t
    loose' = rw (append-nil ts) loose

-- The removal of the thread `t` from between `l` and `r`.
take_off-Holds :
    (s : Nodes) (tl : ThreadList) (l r : List ℕ) (t : ℕ)
    → Holds s tl (l ++ (t ∷ r))
    → (s' : Nodes) × (take_off tl t s ≡ ok (some t, s')) × Holds s' tl (l ++ r)
unfolding take_off
take_off-Holds s tl l r t h =
    let (y, r', behind, has_tail) = follower tl r in
    let (before, after, apart) = links_around l r t y r' behind h in
    (
      count_down tl (unsplice (last_of tl.tl_head l) t y s),
      rw
          (
            threadlist_removenode-unsplice (last_of tl.tl_head l) t y s before after apart,
            h.selves t (ground (arith, is_member-++ t l (t ∷ r))),
          )
          refl,
      unsplice-Holds l r t y r' behind has_tail h,
    )

abbrev pub first_of : List ℕ → Option ℕ
first_of [] = none
first_of (t ∷ ts) = some t

abbrev pub rest_of : List ℕ → List ℕ
rest_of [] = []
rest_of (t ∷ ts) = ts

-- threadlist_remhead answers the first thread of the list, or NULL where the list is empty, and
-- leaves the others in their order.
pub threadlist_remhead-Holds :
    (s : Nodes) (tl : ThreadList) (ts : List ℕ)
    → Holds s tl ts
    → (s' : Nodes) × (threadlist_remhead tl s ≡ ok (first_of ts, s')) × Holds s' tl (rest_of ts)
unfolding threadlist_remhead
threadlist_remhead-Holds s tl [] h = (s, ground (arith, h.path, h.last), h)
threadlist_remhead-Holds s tl (t ∷ ts) h =
    let (y, r', behind, has_tail) = follower tl ts in
    let (before, after, apart) = links_around [] ts t y r' behind h in
    let (s', taken, h') = take_off-Holds s tl [] ts t h in
    (s', ground (arith, before, after, taken), h')

-- threadlist_remtail answers the last thread of the list and leaves the others in their order.
pub threadlist_remtail-Holds :
    (s : Nodes) (tl : ThreadList) (ts : List ℕ) (t : ℕ)
    → Holds s tl (ts ++ (t ∷ []))
    → (s' : Nodes) × (threadlist_remtail tl s ≡ ok (some t, s')) × Holds s' tl ts
unfolding threadlist_remtail
threadlist_remtail-Holds s tl ts t h =
    let (before, after, apart) = links_around ts [] t tl.tl_tail [] refl h in
    let (s', taken, h') = take_off-Holds s tl ts [] t h in
    (s', ground (arith, before, after, taken), subst (Holds s' tl) (append-nil ts) h')

-- threadlist_remtail answers NULL for an empty list, which it leaves alone.
threadlist_remtail-empty :
    (s : Nodes) (tl : ThreadList) → Holds s tl [] → threadlist_remtail tl s ≡ ok (none, s)
unfolding threadlist_remtail
threadlist_remtail-empty s tl h = ground (arith, h.path, h.first)
