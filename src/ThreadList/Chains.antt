-- ===== src/ThreadList/Chains.antt =====
-- Links of nodes: paths, and what a splice and its reverse make of them.
use os161_project_c.Base.{
  ℕ, ◌≡◌, refl, ◌≢◌, true, false, none, some, List, [], ◌∷◌, ◌++◌, arith, update, ok,
}
use os161_project_c.Base.Members.{is_member, Distinct, is_member-++, Distinct-split}
use os161_project_c.ThreadList.{
  Nodes, hook, threadlist_insertafternode, threadlist_insertbeforenode, threadlist_removenode,
}

-- `a` and `b` point to each other.
abbrev pub Linked : Nodes → ℕ → ℕ → Type 0
Linked s a b = (s.tln_next a ≡ some b) × (s.tln_prev b ≡ some a)

-- From `a` the links lead through `l` in order.
abbrev pub PathOf : Nodes → ℕ → List ℕ → Type 0
PathOf s a [] = Unit
PathOf s a (b ∷ l) = Linked s a b × PathOf s b l

abbrev pub last_of : ℕ → List ℕ → ℕ
last_of a [] = a
last_of a (b ∷ l) = last_of b l

pub last_of-is_member : (a : ℕ) (l : List ℕ) → is_member (last_of a l) (a ∷ l) ≡ true
last_of-is_member a [] = ground arith
last_of-is_member a (b ∷ l) = ground (arith, last_of-is_member b l)

pub last_of-append : (a : ℕ) (l : List ℕ) (c : ℕ) → last_of a (l ++ (c ∷ [])) ≡ c
last_of-append a [] c = refl
last_of-append a (b ∷ l) c = last_of-append b l c

pub PathOf-split :
    (s : Nodes) (a : ℕ) (l r : List ℕ)
    → PathOf s a (l ++ r)
    → PathOf s a l × PathOf s (last_of a l) r
PathOf-split s a [] r p = (tt, p)
PathOf-split s a (b ∷ l) r p = let (left, right) = PathOf-split s b l r p.1 in ((p.0, left), right)

pub PathOf-join :
    (s : Nodes) (a : ℕ) (l r : List ℕ)
    → PathOf s a l
    → PathOf s (last_of a l) r
    → PathOf s a (l ++ r)
PathOf-join s a [] r p q = q
PathOf-join s a (b ∷ l) r p q = (p.0, PathOf-join s b l r p.1 q)

-- `t` between `x` and `y`.
abbrev pub splice : (x t y : ℕ) → Nodes → Nodes
splice x t y s = record s {
  tln_next = update (update s.tln_next t (some y)) x (some t);
  tln_prev = update (update s.tln_prev t (some x)) y (some t);
}

-- `t` taken out from between `x` and `y`.
abbrev pub unsplice : (x t y : ℕ) → Nodes → Nodes
unsplice x t y s = record s {
  tln_next = update (update s.tln_next x (some y)) t none;
  tln_prev = update (update s.tln_prev y (some x)) t none;
}

-- Both insertions splice.
pub threadlist_insertafternode-splice :
    (x t y : ℕ) (s : Nodes)
    → Linked s x y
    → t ≢ x
    → threadlist_insertafternode x t s ≡ ok (splice x t y s)
unfolding threadlist_insertafternode hook
threadlist_insertafternode-splice x t y s k away = ground (arith, k)

pub threadlist_insertbeforenode-splice :
    (x t y : ℕ) (s : Nodes)
    → Linked s x y
    → t ≢ x
    → threadlist_insertbeforenode t y s ≡ ok (splice x t y s)
unfolding threadlist_insertbeforenode hook
threadlist_insertbeforenode-splice x t y s k away = ground (arith, k)

-- A removal is the reverse.
pub threadlist_removenode-unsplice :
    (x t y : ℕ) (s : Nodes)
    → Linked s x t
    → Linked s t y
    → t ≢ x
    → threadlist_removenode t s ≡ ok (unsplice x t y s)
unfolding threadlist_removenode
threadlist_removenode-unsplice x t y s k k' away = ground (arith, k, k')

-- Two stores with the same links, but at `x` and `t` for the next and at `y` and `t` for the
-- previous node.
pub record Outside (x t y : ℕ) (s s' : Nodes) : Type 0 where
  pub nexts : (u : ℕ) → u ≢ x → u ≢ t → s'.tln_next u ≡ s.tln_next u
  pub prevs : (u : ℕ) → u ≢ y → u ≢ t → s'.tln_prev u ≡ s.tln_prev u

module _ {x t y : ℕ} {s s' : Nodes} (o : Outside x t y s s') where
  -- A path that ends at `x` is left alone.
  pub PathOf-before :
      (a : ℕ) (l : List ℕ)
      → last_of a l ≡ x
      → Distinct (a ∷ l)
      → is_member t (a ∷ l) ≡ false
      → is_member y (a ∷ l) ≡ false
      → PathOf s a l
      → PathOf s' a l
  PathOf-before a [] e d t_away y_away p = tt
  PathOf-before a (b ∷ l) e d t_away y_away p = (
    ground (arith, o.nexts a, o.prevs b, last_of-is_member b l),
    PathOf-before b l e d.1 (ground arith) (ground arith) p.1,
  )

  -- A path from `y` on is left alone.
  pub PathOf-after :
      (a : ℕ) (l : List ℕ)
      → is_member x (a ∷ l) ≡ false
      → is_member t (a ∷ l) ≡ false
      → is_member y l ≡ false
      → PathOf s a l
      → PathOf s' a l
  PathOf-after a [] x_away t_away y_away p = tt
  PathOf-after a (b ∷ l) x_away t_away y_away p = (
    ground (arith, o.nexts a, o.prevs b),
    PathOf-after b l (ground arith) (ground arith) (ground arith) p.1,
  )

module _ (s : Nodes) (a : ℕ) (l : List ℕ) (t y : ℕ) (r : List ℕ) where
  -- A new node between the end of `l` and `y`.
  pub splice-PathOf :
      Distinct (a ∷ (l ++ (y ∷ r)))
      → is_member t (a ∷ (l ++ (y ∷ r))) ≡ false
      → PathOf s a (l ++ (y ∷ r))
      → PathOf (splice (last_of a l) t y s) a (l ++ (t ∷ y ∷ r))
  splice-PathOf d away p =
      PathOf-join (splice x t y s) a l (t ∷ y ∷ r)
        (PathOf-before o a l refl whole.0 (ground (arith, is_member-++ t l (y ∷ r)))
          (ground (arith, whole.2 y)) halves.0)
        (
          ground (arith, fresh),
          (
            ground (arith, fresh),
            PathOf-after o y r (whole.2 x (last_of-is_member a l))
                (ground (arith, is_member-++ t l (y ∷ r))) whole.1.0 halves.1.1,
          ),
        )
    where
      x : ℕ
      x = last_of a l

      whole :
          Distinct (a ∷ l)
          × Distinct (y ∷ r)
          × ((i : ℕ) → is_member i (a ∷ l) ≡ true → is_member i (y ∷ r) ≡ false)
      whole = Distinct-split (a ∷ l) (y ∷ r) d

      halves : PathOf s a l × PathOf s x (y ∷ r)
      halves = PathOf-split s a l (y ∷ r) p

      fresh : (t ≢ x) × (t ≢ y) × (x ≢ y)
      fresh = (
        λ e. ground (arith, last_of-is_member a l, is_member-++ t l (y ∷ r)),
        λ e. ground (arith, is_member-++ t l (y ∷ r)),
        λ e. ground (arith, last_of-is_member a l, whole.2 x),
      )

      o : Outside x t y s (splice x t y s)
      o = record { nexts = λ u m k. ground arith; prevs = λ u m k. ground arith }

  -- The node between the end of `l` and `y` goes.
  pub unsplice-PathOf :
      Distinct (a ∷ (l ++ (t ∷ y ∷ r)))
      → PathOf s a (l ++ (t ∷ y ∷ r))
      → PathOf (unsplice (last_of a l) t y s) a (l ++ (y ∷ r))
  unsplice-PathOf d p =
      PathOf-join (unsplice x t y s) a l (y ∷ r)
        (PathOf-before o a l refl whole.0 (ground (arith, whole.2 t)) (ground (arith, whole.2 y))
          halves.0)
        (
          ground (arith, fresh),
          PathOf-after o y r (ground (arith, whole.2 x, last_of-is_member a l)) whole.1.0
              whole.1.1.0 halves.1.1.1,
        )
    where
      x : ℕ
      x = last_of a l

      whole :
          Distinct (a ∷ l)
          × Distinct (t ∷ y ∷ r)
          × ((i : ℕ) → is_member i (a ∷ l) ≡ true → is_member i (t ∷ y ∷ r) ≡ false)
      whole = Distinct-split (a ∷ l) (t ∷ y ∷ r) d

      halves : PathOf s a l × PathOf s x (t ∷ y ∷ r)
      halves = PathOf-split s a l (t ∷ y ∷ r) p

      fresh : (t ≢ x) × (t ≢ y) × (x ≢ y)
      fresh = (
        λ e. ground (arith, last_of-is_member a l, whole.2 x),
        λ e. ground (arith, whole.1),
        λ e. ground (arith, last_of-is_member a l, whole.2 x),
      )

      o : Outside x t y s (unsplice x t y s)
      o = record { nexts = λ u m k. ground arith; prevs = λ u m k. ground arith }
