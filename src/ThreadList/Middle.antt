-- ===== src/ThreadList/Middle.antt =====
-- Adding and removing next to a thread of a thread list.
use mathlib.Core.Path.{subst}
use mathlib.Core.List.{append_assoc}
use os161_project_c.Base.{ℕ, ◌≡◌, refl, ◌≢◌, List, [], ◌∷◌, ◌++◌, arith, ok}
use os161_project_c.Base.Members.{is_member-++}
use os161_project_c.ThreadList.{
  Nodes, ThreadList, count_up, count_down, threadlist_insertafter, threadlist_insertbefore,
  threadlist_remove,
}
use os161_project_c.ThreadList.Chains.{
  Linked, last_of, last_of-append, splice, unsplice, threadlist_insertafternode-splice,
  threadlist_insertbeforenode-splice, threadlist_removenode-unsplice,
}
use os161_project_c.ThreadList.Refine.{
  Holds, IsLoose, nodes, follower, splice-Holds, unsplice-Holds, link_at, links_around, loose-apart,
}

-- threadlist_insertbefore puts a thread in front of the given one.
pub threadlist_insertbefore-Holds :
    (s : Nodes) (tl : ThreadList) (l r : List ℕ) (onlist t : ℕ)
    → Holds s tl (l ++ (onlist ∷ r))
    → IsLoose s tl (l ++ (onlist ∷ r)) t
    → (s' : Nodes) × (threadlist_insertbefore tl t onlist s ≡ ok s')
      × Holds s' tl (l ++ (t ∷ onlist ∷ r))
unfolding threadlist_insertbefore
threadlist_insertbefore-Holds s tl l r onlist t h loose =
    let x = last_of tl.tl_head l in
    (
      count_up tl (splice x t onlist s),
      rw
          (threadlist_insertbeforenode-splice x t onlist s
            (link_at l (onlist ∷ r) t onlist (nodes tl r) refl h)
            (loose-apart l (onlist ∷ r) t loose))
          refl,
      splice-Holds l (onlist ∷ r) t onlist (nodes tl r) refl
          (ground (arith, is_member-++ tl.tl_tail r (tl.tl_tail ∷ []))) h loose,
    )

-- threadlist_insertafter puts a thread behind the given one.
pub threadlist_insertafter-Holds :
    (s : Nodes) (tl : ThreadList) (l r : List ℕ) (onlist t : ℕ)
    → Holds s tl (l ++ (onlist ∷ r))
    → IsLoose s tl (l ++ (onlist ∷ r)) t
    → (s' : Nodes) × (threadlist_insertafter tl onlist t s ≡ ok s')
      × Holds s' tl (l ++ (onlist ∷ t ∷ r))
unfolding threadlist_insertafter
threadlist_insertafter-Holds s tl l r onlist t h loose =
    let (y, r', behind, has_tail) = follower tl r in
    let link = subst (λ x. Linked s x y) at_onlist (link_at before r t y r' behind h') in
    let apart = subst (λ x. t ≢ x) at_onlist (loose-apart before r t loose') in
    (
      count_up tl (splice (last_of tl.tl_head before) t y s),
      rw (at_onlist, threadlist_insertafternode-splice onlist t y s link apart) refl,
      rw (← (append_assoc l (onlist ∷ []) (t ∷ r)))
          (splice-Holds before r t y r' behind has_tail h' loose'),
    )
  where
    before : List ℕ
    before = l ++ (onlist ∷ [])

    at_onlist : last_of tl.tl_head before ≡ onlist
    at_onlist = last_of-append tl.tl_head l onlist

    h' : Holds s tl (before ++ r)
    h' = rw (append_assoc l (onlist ∷ []) r) h

    loose' : IsLoose s tl (before ++ r) t
    loose' = rw (append_assoc l (onlist ∷ []) r) loose

-- threadlist_remove takes the given thread out and leaves the others in their order.
pub threadlist_remove-Holds :
    (s : Nodes) (tl : ThreadList) (l r : List ℕ) (t : ℕ)
    → Holds s tl (l ++ (t ∷ r))
    → (s' : Nodes) × (threadlist_remove tl t s ≡ ok s') × Holds s' tl (l ++ r)
unfolding threadlist_remove
threadlist_remove-Holds s tl l r t h =
    let (y, r', behind, has_tail) = follower tl r in
    let (before, after, apart) = links_around l r t y r' behind h in
    (
      count_down tl (unsplice (last_of tl.tl_head l) t y s),
      rw (threadlist_removenode-unsplice (last_of tl.tl_head l) t y s before after apart) refl,
      unsplice-Holds l r t y r' behind has_tail h,
    )
