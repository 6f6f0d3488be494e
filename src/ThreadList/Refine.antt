-- ===== src/ThreadList/Refine.antt =====
-- A thread list holds a sequence of threads, and its operations are those of sequences.
use mathlib.Core.List.{append_assoc}
use os161_project_c.Base.{
  ℕ, ◌+◌, ◌^◌, ◌<◌, ◌≡◌, refl, ap, ◌∙◌, ◌≢◌, true, false, none, some, List, [], ◌∷◌, ◌++◌, arith,
}
use os161_project_c.Base.Members.{
  is_member, Distinct, is_member-++, Distinct-split, Distinct-insert, Distinct-remove, length,
  length-++,
}
use os161_project_c.ThreadList.{Nodes, ThreadList, count_up, count_down, threadlist_init}
use os161_project_c.ThreadList.Chains.{
  Linked, PathOf, last_of, last_of-is_member, PathOf-split, splice, unsplice, splice-PathOf,
  unsplice-PathOf,
}

-- The nodes that follow the first bookend.
abbrev pub nodes : ThreadList → List ℕ → List ℕ
nodes tl ts = ts ++ (tl.tl_tail ∷ [])

-- The list holds the threads `ts` in this order.
pub record Holds (s : Nodes) (tl : ThreadList) (ts : List ℕ) : Type 0 where
  pub path : PathOf s tl.tl_head (nodes tl ts)
  pub distinct : Distinct (tl.tl_head ∷ nodes tl ts)
  pub first : s.tln_prev tl.tl_head ≡ none
  pub last : s.tln_next tl.tl_tail ≡ none
  pub selves : (t : ℕ) → is_member t ts ≡ true → s.tln_self t ≡ some t
  pub count : s.tl_count tl.tl_head ≡ length ts
  pub fits : length ts < 2 ^ 32

-- A thread that may be added: it is not on the list, and its node names it.
pub record IsLoose (s : Nodes) (tl : ThreadList) (ts : List ℕ) (t : ℕ) : Type 0 where
  pub away : is_member t (tl.tl_head ∷ nodes tl ts) ≡ false
  pub self : s.tln_self t ≡ some t
  pub room : length ts + 1 < 2 ^ 32

-- A new list is empty.
pub threadlist_init-Holds :
    (s : Nodes) (tl : ThreadList) → tl.tl_head ≢ tl.tl_tail → Holds (threadlist_init tl s) tl []
unfolding threadlist_init
threadlist_init-Holds s tl apart = record {
  path = ((ground arith, ground arith), tt);
  distinct = (ground arith, (refl, tt));
  first = ground arith;
  last = ground arith;
  selves = λ t m. cc;
  count = ground arith;
  fits = omega arith;
}

-- The first node behind a place in the list.
pub follower :
    (tl : ThreadList) (ts : List ℕ)
    → (y : ℕ) × (r : List ℕ) × (nodes tl ts ≡ y ∷ r) × (is_member tl.tl_tail (y ∷ r) ≡ true)
follower tl [] = (tl.tl_tail, [], refl, ground arith)
follower tl (t ∷ ts) =
    (t, nodes tl ts, refl, ground (arith, is_member-++ tl.tl_tail ts (tl.tl_tail ∷ [])))

module _ {s : Nodes} {tl : ThreadList} (l r : List ℕ) (t : ℕ) where
  pub splice-Holds :
      (y : ℕ) (r' : List ℕ)
      → nodes tl r ≡ y ∷ r'
      → is_member tl.tl_tail (y ∷ r') ≡ true
      → Holds s tl (l ++ r)
      → IsLoose s tl (l ++ r) t
      → Holds (count_up tl (splice (last_of tl.tl_head l) t y s)) tl (l ++ (t ∷ r))
  splice-Holds y r' behind has_tail h loose = record {
    path = rw (after) (splice-PathOf s tl.tl_head l t y r' old_distinct old_away old_path);
    distinct = rw (after) (Distinct-insert (tl.tl_head ∷ l) (y ∷ r') t old_distinct old_away);
    first = ground (arith, h.first, is_member-++ y l (y ∷ r'), old_distinct, old_away);
    last = ground (
      arith,
      h.last,
      apart.2 (last_of tl.tl_head l),
      last_of-is_member tl.tl_head l,
      old_away,
      is_member-++ t l (y ∷ r'),
    );
    selves =
        λ u m. ground (arith, loose.self, h.selves u, is_member-++ u l (t ∷ r), is_member-++ u l r);
    count = ground (arith, h.count, loose.room, length-++ l (t ∷ r), length-++ l r);
    fits = omega (arith, loose.room, length-++ l (t ∷ r), length-++ l r);
  }
    where
      before : nodes tl (l ++ r) ≡ l ++ (y ∷ r')
      before = append_assoc l r (tl.tl_tail ∷ []) ∙ ap (λ m. l ++ m) behind

      after : nodes tl (l ++ (t ∷ r)) ≡ l ++ (t ∷ y ∷ r')
      after = append_assoc l (t ∷ r) (tl.tl_tail ∷ []) ∙ ap (λ m. l ++ (t ∷ m)) behind

      old_path : PathOf s tl.tl_head (l ++ (y ∷ r'))
      old_path = rw (← before) h.path

      old_distinct : Distinct (tl.tl_head ∷ (l ++ (y ∷ r')))
      old_distinct = rw (← before) h.distinct

      old_away : is_member t (tl.tl_head ∷ (l ++ (y ∷ r'))) ≡ false
      old_away = rw (← before) loose.away

      apart :
          Distinct (tl.tl_head ∷ l)
          × Distinct (y ∷ r')
          × ((i : ℕ) → is_member i (tl.tl_head ∷ l) ≡ true → is_member i (y ∷ r') ≡ false)
      apart = Distinct-split (tl.tl_head ∷ l) (y ∷ r') old_distinct

  -- What is before `t` and behind it point to each other.
  pub unsplice-Holds :
      (y : ℕ) (r' : List ℕ)
      → nodes tl r ≡ y ∷ r'
      → is_member tl.tl_tail (y ∷ r') ≡ true
      → Holds s tl (l ++ (t ∷ r))
      → Holds (count_down tl (unsplice (last_of tl.tl_head l) t y s)) tl (l ++ r)
  unsplice-Holds y r' behind has_tail h = record {
    path = rw (before) (unsplice-PathOf s tl.tl_head l t y r' old_distinct old_path);
    distinct = rw (before) (Distinct-remove (tl.tl_head ∷ l) (y ∷ r') t old_distinct).0;
    first = ground (arith, h.first, apart.2 y, apart.2 t);
    last =
        ground
          (arith, h.last, apart.2 (last_of tl.tl_head l), last_of-is_member tl.tl_head l, apart.1);
    selves = λ u m. ground (arith, h.selves u, is_member-++ u l (t ∷ r), is_member-++ u l r);
    count = ground (arith, h.count, h.fits, length-++ l (t ∷ r), length-++ l r);
    fits = omega (arith, h.fits, length-++ l (t ∷ r), length-++ l r);
  }
    where
      before : nodes tl (l ++ r) ≡ l ++ (y ∷ r')
      before = append_assoc l r (tl.tl_tail ∷ []) ∙ ap (λ m. l ++ m) behind

      after : nodes tl (l ++ (t ∷ r)) ≡ l ++ (t ∷ y ∷ r')
      after = append_assoc l (t ∷ r) (tl.tl_tail ∷ []) ∙ ap (λ m. l ++ (t ∷ m)) behind

      old_path : PathOf s tl.tl_head (l ++ (t ∷ y ∷ r'))
      old_path = rw (← after) h.path

      old_distinct : Distinct (tl.tl_head ∷ (l ++ (t ∷ y ∷ r')))
      old_distinct = rw (← after) h.distinct

      apart :
          Distinct (tl.tl_head ∷ l)
          × Distinct (t ∷ y ∷ r')
          × ((i : ℕ) → is_member i (tl.tl_head ∷ l) ≡ true → is_member i (t ∷ y ∷ r') ≡ false)
      apart = Distinct-split (tl.tl_head ∷ l) (t ∷ y ∷ r') old_distinct

  -- The links around a place between `l` and `r`.
  pub link_at :
      (y : ℕ) (r' : List ℕ)
      → nodes tl r ≡ y ∷ r'
      → Holds s tl (l ++ r)
      → Linked s (last_of tl.tl_head l) y
  link_at y r' behind h = (PathOf-split s tl.tl_head l (y ∷ r') old_path).1.0
    where
      old_path : PathOf s tl.tl_head (l ++ (y ∷ r'))
      old_path = rw (← (append_assoc l r (tl.tl_tail ∷ []) ∙ ap (λ m. l ++ m) behind)) h.path

  pub links_around :
      (y : ℕ) (r' : List ℕ)
      → nodes tl r ≡ y ∷ r'
      → Holds s tl (l ++ (t ∷ r))
      → Linked s (last_of tl.tl_head l) t × Linked s t y × (t ≢ last_of tl.tl_head l)
  links_around y r' behind h = (
    links.0,
    links.1.0,
    λ e. ground (arith, last_of-is_member tl.tl_head l, apart (last_of tl.tl_head l)),
  )
    where
      after : nodes tl (l ++ (t ∷ r)) ≡ l ++ (t ∷ y ∷ r')
      after = append_assoc l (t ∷ r) (tl.tl_tail ∷ []) ∙ ap (λ m. l ++ (t ∷ m)) behind

      links : PathOf s (last_of tl.tl_head l) (t ∷ y ∷ r')
      links = (PathOf-split s tl.tl_head l (t ∷ y ∷ r') (rw (← after) h.path)).1

      apart : (i : ℕ) → is_member i (tl.tl_head ∷ l) ≡ true → is_member i (t ∷ y ∷ r') ≡ false
      apart =
          let (_, _, away) =
            Distinct-split (tl.tl_head ∷ l) (t ∷ y ∷ r') (rw (← after) h.distinct) in
          away

  pub loose-apart : IsLoose s tl (l ++ r) t → t ≢ last_of tl.tl_head l
  loose-apart loose e = ground (
    arith,
    loose.away,
    last_of-is_member tl.tl_head l,
    is_member-++ t (l ++ r) (tl.tl_tail ∷ []),
    is_member-++ t l r,
  )
