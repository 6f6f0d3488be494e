-- ===== src/ThreadList/Tests.antt =====
-- A thread list between the bookends 1 and 2, with the threads 10 and 11.
use os161_project_c.Base.{◌≡◌, refl, none, some, [], ◌∷◌, arith, ok, update}
use os161_project_c.ThreadList.{
  Nodes, ThreadList, threadlist_remhead, threadlist_insertafter, threadlist_remove,
}
use os161_project_c.ThreadList.Refine.{Holds, IsLoose}
use os161_project_c.ThreadList.Ends.{threadlist_remhead-Holds}
use os161_project_c.ThreadList.Middle.{threadlist_insertafter-Holds, threadlist_remove-Holds}

abbrev run_queue : ThreadList
run_queue = record { tl_head = 1; tl_tail = 2 }

-- Threads 10 and 11 in a list, as the code leaves them.
abbrev two_threads : Nodes
two_threads = record {
  tln_prev = update (update (update (λ a. none) 10 (some 1)) 11 (some 10)) 2 (some 11);
  tln_next = update (update (update (λ a. none) 1 (some 10)) 10 (some 11)) 11 (some 2);
  tln_self = update (update (update (λ a. none) 10 (some 10)) 11 (some 11)) 12 (some 12);
  tl_count = λ a. 2;
}

two_threads-Holds : Holds two_threads run_queue (10 ∷ 11 ∷ [])
two_threads-Holds = record {
  path = ((refl, refl), ((refl, refl), ((refl, refl), tt)));
  distinct = (refl, (refl, (refl, (refl, tt))));
  first = refl;
  last = refl;
  selves = λ t m. ground arith;
  count = refl;
  fits = omega arith;
}

thread_12-IsLoose : IsLoose two_threads run_queue (10 ∷ 11 ∷ []) 12
thread_12-IsLoose = record { away = refl; self = refl; room = omega arith }

threadlist_remhead-Holds_example :
    (s' : Nodes) × (threadlist_remhead run_queue two_threads ≡ ok (some 10, s'))
    × Holds s' run_queue (11 ∷ [])
threadlist_remhead-Holds_example =
    threadlist_remhead-Holds two_threads run_queue (10 ∷ 11 ∷ []) two_threads-Holds

threadlist_insertafter-Holds_example :
    (s' : Nodes) × (threadlist_insertafter run_queue 10 12 two_threads ≡ ok s')
    × Holds s' run_queue (10 ∷ 12 ∷ 11 ∷ [])
threadlist_insertafter-Holds_example =
    threadlist_insertafter-Holds two_threads run_queue [] (11 ∷ []) 10 12 two_threads-Holds
      thread_12-IsLoose

threadlist_remove-Holds_example :
    (s' : Nodes) × (threadlist_remove run_queue 11 two_threads ≡ ok s')
    × Holds s' run_queue (10 ∷ [])
threadlist_remove-Holds_example =
    threadlist_remove-Holds two_threads run_queue (10 ∷ []) [] 11 two_threads-Holds
