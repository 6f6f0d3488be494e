-- ===== src/Proc/Pids.antt =====
-- How process identifiers are handed out and looked up.
use os161_project_c.Base.{
  update, Ensures, Ensures-ok, returns, stops, ℕ, zero, suc, ◌+◌, ◌-◌, ◌≤◌, ◌<◌, ◌≡◌, ◌≢◌, refl,
  ◌∙◌, ◌⊎◌, inl, inr, false, ◌==◌, ltb, if◌then◌else◌, Bool-cases, Outcome, ok, panic, arith,
}
use os161_project_c.Proc.{
  ProcTable, max_proc, wrap, search_index, enter_proc, proc_init_waitpid, proc_end_waitpid,
  proc_search_pid,
}

-- The index that is `e` places after `i`, with 1 after the last one.
abbrev pub nth_index : ℕ → ℕ → ℕ
nth_index i e = if ltb max_proc (i + e) then i + e - max_proc else i + e

-- The `d` indices from `i` on are in use.
abbrev pub InUse : (ℕ → ℕ) → ℕ → ℕ → Type 0
InUse proc i d = (e : ℕ) → e < d → proc (nth_index i e) ≢ 0

-- The search goes round from `i` and has `d` indices to see before it is back at `last_i`.
pub data Finds (proc : ℕ → ℕ) (i d : ℕ) : ℕ → Type 0 where
  found : (e r : ℕ) → e < d → r ≡ nth_index i e → proc r ≡ 0 → InUse proc i e → Finds proc i d r
  full : InUse proc i d → Finds proc i d 0

-- `last_i` is `d` steps ahead of `i`.
pub record IsAhead (last_i i d : ℕ) : Type 0 where
  pub from_one : 1 ≤ i
  pub in_table : i ≤ max_proc
  pub within : last_i ≤ max_proc
  pub some_pid : 1 ≤ last_i
  pub distance : (i + d ≡ last_i) ⊎ (i + d ≡ last_i + max_proc)
  pub short : d < max_proc

next_index :
    (i e : ℕ)
    → 1 ≤ i
    → i ≤ max_proc
    → e + 1 < max_proc
    → nth_index (wrap (i + 1)) e ≡ nth_index i (suc e)
next_index i e a b c = ground arith

InUse-next :
    (proc : ℕ → ℕ) (i d : ℕ)
    → 1 ≤ i
    → i ≤ max_proc
    → d < max_proc
    → proc i ≢ 0
    → InUse proc (wrap (i + 1)) d
    → InUse proc i (suc d)
InUse-next proc i d a b c used rest zero l =
    let here : nth_index i 0 ≡ i = ground arith in rw here used
InUse-next proc i d a b c used rest (suc e) l =
    rw (← next_index i e a b (omega arith)) (rest e (omega arith))

-- An index in use is left behind.
Finds-next :
    {proc : ℕ → ℕ} {i d r : ℕ}
    → 1 ≤ i
    → i ≤ max_proc
    → d < max_proc
    → proc i ≢ 0
    → Finds proc (wrap (i + 1)) d r
    → Finds proc i (suc d) r
Finds-next {proc} {i} {d} a b c used (found e r below at free before) =
    found (suc e) r (omega arith) (at ∙ next_index i e a b (omega arith)) free
      (InUse-next proc i e a b (omega arith) used before)
Finds-next {proc} {i} {d} a b c used (full none) = full (InUse-next proc i d a b c used none)

IsAhead-next : {last_i i d : ℕ} → IsAhead last_i i (suc d) → IsAhead last_i (wrap (i + 1)) d
IsAhead-next {last_i} {i} {d} h =
    let a = h.from_one in
    let b = h.in_table in
    let c = h.within in
    let o = h.some_pid in
    let s = h.short in
    record {
      from_one = ground arith;
      in_table = ground arith;
      within = c;
      some_pid = o;
      distance = elim h.distance [ inl near ↦ inl (ground arith) | inr far ↦ ground arith ];
      short = omega arith;
    }

-- The search, with as many rounds as there are indices to see.
pub search_index-Finds :
    (k d : ℕ) (proc : ℕ → ℕ) (last_i i : ℕ)
    → d ≤ k
    → IsAhead last_i i d
    → (r : ℕ) × (search_index k proc last_i i ≡ ok r) × Finds proc i d r
unfolding search_index
search_index-Finds zero d proc last_i i l h =
    let a = h.from_one in
    let b = h.in_table in
    let c = h.within in
    let o = h.some_pid in
    let s = h.short in let t = h.distance in (0, ground arith, full λ e b. absurd (omega arith))
search_index-Finds (suc k) zero proc last_i i l h =
    let a = h.from_one in
    let b = h.in_table in
    let c = h.within in
    let o = h.some_pid in
    let s = h.short in let t = h.distance in (0, ground arith, full λ e b. absurd (omega arith))
search_index-Finds (suc k) (suc d) proc last_i i l h =
    let a = h.from_one in
    let b = h.in_table in
    let c = h.within in
    let o = h.some_pid in
    let s = h.short in
    let t = h.distance in
    let away : (i == last_i) ≡ false = ground arith in
    elim (Bool-cases (proc i == 0)) [
      | inl free ↦ (
        i,
        ground arith,
        found 0 i (omega arith) (ground arith) (ground arith) λ e b. absurd (omega arith),
      )
      | inr used ↦
          let rest =
            search_index-Finds k d proc last_i (wrap (i + 1)) (omega arith) (IsAhead-next h) in
          (rest.0, ground (arith, rest.1), Finds-next a b (omega arith) (ground arith) rest.2)
    ]

-- A table that has handed out an index; before that it is empty.
pub record IsWf (t : ProcTable) : Type 0 where
  pub within : t.last_i ≤ max_proc
  pub fresh : t.last_i ≡ 0 → (i : ℕ) → 1 ≤ i → i ≤ max_proc → t.proc i ≡ 0
  pub named : (i : ℕ) → 1 ≤ i → i ≤ max_proc → t.proc i ≢ 0 → t.p_pid (t.proc i) ≡ i

-- The process has the index `i`, the first free one behind the last that was handed out.
pub record Entered (t : ProcTable) (proc i : ℕ) (t' : ProcTable) : Type 0 where
  pub steps : ℕ
  pub is_next : i ≡ nth_index (wrap (t.last_i + 1)) steps
  pub was_free : t.proc i ≡ 0
  pub before : InUse t.proc (wrap (t.last_i + 1)) steps
  pub in_range : (1 ≤ i) × (i ≤ max_proc)
  pub pid : t'.p_pid proc ≡ i
  pub others : (p : ℕ) → p ≢ proc → t'.p_pid p ≡ t.p_pid p
  pub status : t'.p_status proc ≡ 0
  pub last : t'.last_i ≡ i
  pub holds : (j : ℕ) → t'.proc j ≡ (if i == j then proc else t.proc j)

pub data Enters (t : ProcTable) (proc : ℕ) : Outcome ProcTable → Type 0 where
  entered : (i : ℕ) {t' : ProcTable} → Entered t proc i t' → Enters t proc (ok t')
  table_full : ((i : ℕ) → 1 ≤ i → i ≤ max_proc → i ≢ t.last_i → t.proc i ≢ 0) → Enters t proc panic

-- The indices that the search saw are all but `last_i`.
all_seen :
    (proc : ℕ → ℕ) (last_i : ℕ)
    → last_i ≤ max_proc
    → 1 ≤ last_i
    → InUse proc (wrap (last_i + 1)) 99
    → (i : ℕ) → 1 ≤ i
    → i ≤ max_proc
    → i ≢ last_i
    → proc i ≢ 0
all_seen proc last_i a b used i c d other =
    let e = if ltb last_i i then i - last_i - 1 else i + 99 - last_i in
    let at : nth_index (wrap (last_i + 1)) e ≡ i = ground arith in rw (← at) (used e (ground arith))

-- The table afterwards.
enter_proc-Entered :
    (t : ProcTable) (proc i steps : ℕ)
    → 1 ≤ i
    → i ≤ max_proc
    → i ≡ nth_index (wrap (t.last_i + 1)) steps
    → t.proc i ≡ 0
    → InUse t.proc (wrap (t.last_i + 1)) steps
    → Enters t proc (enter_proc proc i t)
unfolding enter_proc
enter_proc-Entered t proc zero steps a b c d e = absurd (omega arith)
enter_proc-Entered t proc (suc i) steps a b c d e = entered (suc i) (record {
  steps = steps;
  is_next = c;
  was_free = d;
  before = e;
  in_range = (a, b);
  pid = ground arith;
  others = λ p ne. ground (arith, ne);
  status = ground arith;
  last = refl;
  holds = λ j. refl;
})

-- From the table that has handed out nothing yet.
first_entry :
    (t : ProcTable) (proc : ℕ) → IsWf t → t.last_i ≡ 0 → Enters t proc (proc_init_waitpid proc t)
unfolding proc_init_waitpid search_index
first_entry t proc wf none =
    let one = wf.fresh none 1 (omega arith) (omega arith) in
    let start : wrap (t.last_i + 1) ≡ 1 = ground arith in
    let result : search_index max_proc t.proc t.last_i (wrap (t.last_i + 1)) ≡ ok 1 =
      ground arith in
    rw result (
      enter_proc-Entered t proc 1 0 (omega arith) (omega arith) (ground arith) one
        λ e b. absurd (omega arith))

Finds-Enters :
    (t : ProcTable) (proc r : ℕ)
    → t.last_i ≤ max_proc
    → 1 ≤ t.last_i
    → Finds t.proc (wrap (t.last_i + 1)) 99 r
    → Enters t proc (enter_proc proc r t)
unfolding enter_proc
Finds-Enters t proc r a b (found e _ below at free before) =
    enter_proc-Entered t proc r e (ground arith) (ground arith) at free before
Finds-Enters t proc _ a b (full none) = table_full (all_seen t.proc t.last_i a b none)

-- In a well-formed table a new process gets the first free index behind the last that was handed
-- out, going round, and the kernel stops only if every index but that last one is in use.
pub proc_init_waitpid-Enters :
    (t : ProcTable) (proc : ℕ) → IsWf t → Enters t proc (proc_init_waitpid proc t)
unfolding proc_init_waitpid
proc_init_waitpid-Enters t proc wf = elim (Bool-cases (t.last_i == 0)) [
  | inl none ↦ first_entry t proc wf (ground arith)
  | inr some ↦
      let a = wf.within in
      let search =
        search_index-Finds max_proc 99 t.proc t.last_i (wrap (t.last_i + 1)) (omega arith) (record {
          from_one = ground arith;
          in_table = ground arith;
          within = a;
          some_pid = ground arith;
          distance = ground arith;
          short = omega arith;
        }) in
      rw (search.1) (Finds-Enters t proc search.0 a (ground arith) search.2)
]

Enters-Ensures :
    {t : ProcTable} {proc : ℕ} {o : Outcome ProcTable}
    → Enters t proc o
    → Ensures (λ t'. (i : ℕ) × Entered t proc i t') o
Enters-Ensures (entered i e) = returns (i, e)
Enters-Ensures (table_full all_used) = stops

Entered-IsWf :
    {t t' : ProcTable} {proc i : ℕ}
    → IsWf t
    → ((j : ℕ) → t.proc j ≢ proc)
    → Entered t proc i t'
    → IsWf t'
Entered-IsWf {t} {t'} {proc} {i} wf new e =
    let at = e.last in
    let from_one = e.in_range.0 in
    let to = e.in_range.1 in
    record {
      within = omega arith;
      fresh = λ none j a b. absurd (omega arith);
      named = λ j a b used. elim (Bool-cases (i == j)) [
        | inl same ↦
            let held = e.holds j in
            let named = e.pid in
            let held_by : t'.proc j ≡ proc = ground arith in rw held_by (ground arith)
        | inr other ↦
            let held = e.holds j in
            let kept : t'.proc j ≡ t.proc j = ground arith in
            rw kept (e.others (t.proc j) (new j) ∙ wf.named j a b (ground (arith, used)))
      ];
    }

-- When a process that is not in a well formed table is entered there, the table is well formed
-- afterwards, and a search for its identifier finds it, but stops the kernel for the last identifier.
pub proc_init_waitpid-IsWf :
    (t t' : ProcTable) (proc : ℕ)
    → IsWf t
    → proc ≢ 0
    → ((j : ℕ) → t.proc j ≢ proc)
    → proc_init_waitpid proc t ≡ ok t'
    → IsWf t'
      × (proc_search_pid (t'.p_pid proc) t'
          ≡ (if t'.p_pid proc == max_proc then panic else ok proc))
unfolding proc_search_pid
proc_init_waitpid-IsWf t t' proc wf real new returned =
    let (i, e) = Ensures-ok (Enters-Ensures (proc_init_waitpid-Enters t proc wf)) returned in
    let p = e.pid in
    let r = e.in_range in let held = e.holds i in (Entered-IsWf wf new e, rw p (ground arith))

-- A process of a well formed table gives its index back when it ends: the table is well formed
-- afterwards, that index is free, and the other indices are as before.
pub proc_end_waitpid-frees :
    (t : ProcTable) (proc i : ℕ)
    → IsWf t
    → proc ≢ 0
    → 1 ≤ i
    → i ≤ max_proc
    → t.proc i ≡ proc
    → (t' : ProcTable) × (proc_end_waitpid proc t ≡ ok t')
      × IsWf t'
      × (t'.proc i ≡ 0)
      × ((j : ℕ) → j ≢ i → t'.proc j ≡ t.proc j)
unfolding proc_end_waitpid
proc_end_waitpid-frees t proc i wf real a b here =
    let t' : ProcTable = record t { proc = update t.proc i 0 } in
    let named : t.p_pid proc ≡ i = rw (← here) (wf.named i a b (ground (arith, real))) in
    (
      t',
      ground arith,
      record {
        within = wf.within;
        fresh = λ none j c d. let before = wf.fresh none j c d in ground arith;
        named = λ j c d used. elim (Bool-cases (i == j)) [
          | inl same ↦ absurd (used (ground arith))
          | inr other ↦
              let kept : t'.proc j ≡ t.proc j = ground arith in
              rw kept (wf.named j c d (rw (← kept) used))
        ];
      },
      ground arith,
      λ j other. ground (arith, other),
    )
