-- ===== src/ThreadList.antt =====
-- kern/thread/threadlist.c: doubly linked lists of threads between two bookends. All nodes are in
-- one store, at addresses; a thread is named by the address of its t_listnode. DEBUGASSERT checks
-- nothing in the kernel's build.
pub mod Chains
pub mod Refine
pub mod Ends
pub mod Middle
mod Tests
use os161_project_c.Base.{
  ℕ, ◌+◌, ◌-◌, ◌%◌, ◌^◌, if◌then◌else◌, Bool, true, false, Option, none, some, ◌==◌, update,
  Outcome, ok, kassert, deref, ◌>>=◌, ◌>>◌,
}

-- The fields of `struct threadlistnode` at every address, and the `tl_count` of the list whose
-- first bookend is there.
pub record Nodes : Type 0 where
  pub tln_prev : ℕ → Option ℕ
  pub tln_next : ℕ → Option ℕ
  pub tln_self : ℕ → Option ℕ
  pub tl_count : ℕ → ℕ

-- `struct threadlist`, by the addresses of its bookends
pub record ThreadList : Type 0 where
  pub tl_head : ℕ
  pub tl_tail : ℕ

abbrev pub unsigned : ℕ → ℕ
unsigned x = x % 2 ^ 32

abbrev pub is_null : Option ℕ → Bool
is_null none = true
is_null (some a) = false

abbrev pub set_prev : ℕ → Option ℕ → Nodes → Nodes
set_prev a p s = record s { tln_prev = update s.tln_prev a p }

abbrev pub set_next : ℕ → Option ℕ → Nodes → Nodes
set_next a p s = record s { tln_next = update s.tln_next a p }

-- `tl_count++`, and `tl_count--`, which wraps around at 0
abbrev pub count_up : ThreadList → Nodes → Nodes
count_up l s = record s {
  tl_count = update s.tl_count l.tl_head (unsigned (s.tl_count l.tl_head + 1));
}

abbrev pub count_down : ThreadList → Nodes → Nodes
count_down l s = record s {
  tl_count = update s.tl_count l.tl_head (unsigned (s.tl_count l.tl_head + (2 ^ 32 - 1)));
}

-- The thread is not NULL.
unfoldable pub threadlistnode_init : ℕ → Nodes → Nodes
threadlistnode_init t s =
    let s1 = set_prev t none (set_next t none s) in
    record s1 { tln_self = update s1.tln_self t (some t) }

unfoldable pub threadlistnode_cleanup : ℕ → Nodes → Outcome (Unit {0})
threadlistnode_cleanup t s =
    kassert (is_null (s.tln_next t))
    >> kassert (is_null (s.tln_prev t))
    >> kassert (if is_null (s.tln_self t) then false else true)

unfoldable pub threadlist_init : ThreadList → Nodes → Nodes
threadlist_init l s =
    let s1 = set_prev l.tl_head none (set_next l.tl_head (some l.tl_tail) s) in
    let s2 = set_prev l.tl_tail (some l.tl_head) (set_next l.tl_tail none s1) in
    record s2 {
      tln_self = update (update s2.tln_self l.tl_head none) l.tl_tail none;
      tl_count = update s2.tl_count l.tl_head 0;
    }

unfoldable pub threadlist_isempty : ThreadList → Nodes → Bool
threadlist_isempty l s = s.tl_count l.tl_head == 0

unfoldable pub threadlist_cleanup : ThreadList → Nodes → Outcome (Unit {0})
unfolding threadlist_isempty
threadlist_cleanup l s = kassert (threadlist_isempty l s) >> kassert (s.tl_count l.tl_head == 0)

-- `addee->tln_prev->tln_next = addee; addee->tln_next->tln_prev = addee;`
unfoldable pub hook : ℕ → Nodes → Outcome Nodes
hook addee s = deref (s.tln_prev addee) >>= λ before.
    let s1 = set_next before (some addee) s in
    deref (s1.tln_next addee) >>= λ after. ok (set_prev after (some addee) s1)

unfoldable pub threadlist_insertafternode : (onlist addee : ℕ) → Nodes → Outcome Nodes
unfolding hook
threadlist_insertafternode onlist addee s =
    let s1 = set_prev addee (some onlist) s in hook addee (set_next addee (s1.tln_next onlist) s1)

unfoldable pub threadlist_insertbeforenode : (addee onlist : ℕ) → Nodes → Outcome Nodes
unfolding hook
threadlist_insertbeforenode addee onlist s =
    hook addee (set_next addee (some onlist) (set_prev addee (s.tln_prev onlist) s))

unfoldable pub threadlist_removenode : ℕ → Nodes → Outcome Nodes
threadlist_removenode tln s = deref (s.tln_prev tln) >>= λ before.
    let s1 = set_next before (s.tln_next tln) s in
    deref (s1.tln_next tln) >>= λ after.
    let s2 = set_prev after (s1.tln_prev tln) s1 in ok (set_next tln none (set_prev tln none s2))

unfoldable pub threadlist_addhead : ThreadList → ℕ → Nodes → Outcome Nodes
unfolding threadlist_insertafternode
threadlist_addhead l t s = threadlist_insertafternode l.tl_head t s >>= λ s'. ok (count_up l s')

unfoldable pub threadlist_addtail : ThreadList → ℕ → Nodes → Outcome Nodes
unfolding threadlist_insertbeforenode
threadlist_addtail l t s = threadlist_insertbeforenode t l.tl_tail s >>= λ s'. ok (count_up l s')

-- The removal of `tln`, and the thread that it belongs to.
unfoldable pub take_off : ThreadList → ℕ → Nodes → Outcome (Option ℕ × Nodes)
unfolding threadlist_removenode
take_off l tln s = threadlist_removenode tln s >>= λ s'. ok (s'.tln_self tln, count_down l s')

unfoldable pub threadlist_remhead : ThreadList → Nodes → Outcome (Option ℕ × Nodes)
unfolding take_off
threadlist_remhead l s = deref (s.tln_next l.tl_head) >>= λ tln.
    if is_null (s.tln_next tln) then ok (none, s) else take_off l tln s

unfoldable pub threadlist_remtail : ThreadList → Nodes → Outcome (Option ℕ × Nodes)
unfolding take_off
threadlist_remtail l s = deref (s.tln_prev l.tl_tail) >>= λ tln.
    if is_null (s.tln_prev tln) then ok (none, s) else take_off l tln s

unfoldable pub threadlist_insertafter : ThreadList → (onlist addee : ℕ) → Nodes → Outcome Nodes
unfolding threadlist_insertafternode
threadlist_insertafter l onlist addee s =
    threadlist_insertafternode onlist addee s >>= λ s'. ok (count_up l s')

unfoldable pub threadlist_insertbefore : ThreadList → (addee onlist : ℕ) → Nodes → Outcome Nodes
unfolding threadlist_insertbeforenode
threadlist_insertbefore l addee onlist s =
    threadlist_insertbeforenode addee onlist s >>= λ s'. ok (count_up l s')

unfoldable pub threadlist_remove : ThreadList → ℕ → Nodes → Outcome Nodes
unfolding threadlist_removenode
threadlist_remove l t s = threadlist_removenode t s >>= λ s'. ok (count_down l s')
