-- ===== src/Tests/Kernels.antt =====
-- The theorems on the kernel at concrete states.
use sisop_2c.Prelude.{
  ℕ, zero, suc, ◌+◌, ◌<◌, ◌≡◌, ◌+ℤ◌, refl, inl, Bool, true, false, none, some, [], ◌∷◌, arith, pos,
  length, get_or, is_nonzero, find_index,
}
use sisop_2c.Shared.Commons.{plain_lists}
use sisop_2c.Shared.Networking.{empty_packet, Header}
use sisop_2c.Kernel.Detector.{
  Detector, sem_index, proc_index, sem_allocated_instant, sem_release, sem_requested,
}
use sisop_2c.Kernel.Detector.Tables.{IsDetector, Keeps, operations-IsDetector}
use sisop_2c.Kernel.Detector.Units.{units, units-sem_allocated}
use sisop_2c.Kernel.State.{Kernel, mate_sem_wait}
use sisop_2c.Kernel.Resolver.{
  marks, reduce, any_nonzero, exceeds, credit, try_finish, pass, passes, circular_wait,
  requests_loop, holders_loop, no_row, find_deadlocks, resolve,
}
use sisop_2c.Kernel.Resolver.Reduction.{Reduced, plus, stop, next, here, reduce-Reduced}
use sisop_2c.Kernel.Resolver.Maximal.{Within, reduce_maximal}
use sisop_2c.Kernel.Resolver.Circular.{Chain, one, more, circular_wait_sound}
use sisop_2c.Kernel.Resolver.Outcome.{AllFinished, find_deadlocks-false, resolve_never_ends}
use sisop_2c.Kernel.Petitions.{wait_on, post_on}
use sisop_2c.Kernel.Petitions.Sems.{IsMirrored, post_on-IsMirrored, wait_on-IsMirrored}
use sisop_2c.Kernel.Scheduler.{sjf, put_to_ready, long_term_step, unsuspend_step, wake, accept}
use sisop_2c.Kernel.Scheduler.Permits.{
  IsAdmitting, Unsuspended, long_term_step_total, unsuspend_step_total, arrivals-IsAdmitting,
}
use sisop_2c.Kernel.Scheduler.Ready.{IsReady, IsTotal, put_to_ready-IsReady, algorithms-IsTotal}
use sisop_2c.Tests.{Table, tables, naturals, naturals_ordered, from_some, row, kernel_with}

-- Process 1 holds semaphore 10 and waits on 11; process 2 holds 11 and waits on 10.
abbrev crossed : Detector
crossed = record {
  sems = 10 ∷ 11 ∷ [];
  available = pos 0 ∷ pos 0 ∷ [];
  rows =
      row 1 (pos 1 ∷ pos 0 ∷ []) (pos 0 ∷ pos 1 ∷ [])
      ∷ row 2 (pos 0 ∷ pos 1 ∷ []) (pos 1 ∷ pos 0 ∷ [])
      ∷ [];
}

crossed-IsDetector : IsDetector crossed
crossed-IsDetector = record {
  counters = refl;
  tables = (
    record { allocations = refl; requests = refl; held = (omega arith, (omega arith, tt)) },
    (record { allocations = refl; requests = refl; held = (omega arith, (omega arith, tt)) }, tt),
  );
}

reduce-Reduced_example : Reduced (marks crossed.rows) crossed.available (reduce crossed)
reduce-Reduced_example = reduce-Reduced crossed crossed-IsDetector

-- Process 2 waits on the semaphore of which process 1 holds one unit and it holds another.
abbrev free_run : Detector
free_run = record {
  sems = 10 ∷ [];
  available = pos 0 ∷ [];
  rows = row 1 (pos 1 ∷ []) (pos 0 ∷ []) ∷ row 2 (pos 1 ∷ []) (pos 1 ∷ []) ∷ [];
}

free_run-IsDetector : IsDetector free_run
free_run-IsDetector = record {
  counters = refl;
  tables = (
    record { allocations = refl; requests = refl; held = (omega arith, tt) },
    (record { allocations = refl; requests = refl; held = (omega arith, tt) }, tt),
  );
}

reduce_maximal_example :
    Within
      ((row 1 (pos 1 ∷ []) (pos 0 ∷ []), true) ∷ (row 2 (pos 1 ∷ []) (pos 1 ∷ []), false) ∷ [])
      (reduce free_run).0
unfolding marks any_nonzero exceeds plus ◌+ℤ◌
reduce_maximal_example =
    reduce_maximal free_run
      ((row 1 (pos 1 ∷ []) (pos 0 ∷ []), true) ∷ (row 2 (pos 1 ∷ []) (pos 1 ∷ []), false) ∷ [])
      (pos 1 ∷ []) free_run-IsDetector (next (here refl) stop)

find_deadlocks-false_example :
    ((find_deadlocks plain_lists 9 (kernel_with free_run)).0 ≡ false
      → AllFinished (reduce free_run).0
        × ((find_deadlocks plain_lists 9 (kernel_with free_run)).1 ≡ kernel_with free_run))
    × (AllFinished (reduce free_run).0
        → (find_deadlocks plain_lists 9 (kernel_with free_run)).0 ≡ false)
find_deadlocks-false_example = find_deadlocks-false plain_lists 9 (kernel_with free_run)

circular_wait_sound_example : Chain crossed 0 0
unfolding circular_wait requests_loop holders_loop plain_lists
circular_wait_sound_example = circular_wait_sound plain_lists (λ p. p) crossed 0 3 0 [] refl

-- Process 1 holds semaphore 10 and waits on 11, of which nobody holds a unit.
abbrev waiting : Detector
waiting = record {
  sems = 10 ∷ 11 ∷ [];
  available = pos 0 ∷ pos 0 ∷ [];
  rows = row 1 (pos 1 ∷ pos 0 ∷ []) (pos 0 ∷ pos 1 ∷ []) ∷ [];
}

no_wait :
    (i k sem : ℕ)
    → is_nonzero (get_or (get_or waiting.rows i no_row).request sem (pos 0)) ≡ true
    → is_nonzero (get_or (get_or waiting.rows k no_row).allocation sem (pos 0)) ≡ true
    → ⊥
no_wait zero k zero h g = cc
no_wait zero zero (suc zero) h g = cc
no_wait zero (suc k) (suc zero) h g = cc
no_wait zero k (suc (suc sem)) h g = cc
no_wait (suc i) k sem h g = cc

no-Chain : (i : ℕ) → ¬ Chain waiting i i
no-Chain i (one w) = no_wait i i w.sem w.requested w.allocated
no-Chain i (more n w c) = no_wait i n w.sem w.requested w.allocated

resolve_never_ends_example : resolve plain_lists 9 100 (kernel_with waiting) ≡ none
unfolding reduce passes pass try_finish credit marks any_nonzero exceeds
resolve_never_ends_example =
    resolve_never_ends plain_lists 9 (kernel_with waiting) (inl refl) no-Chain 100

operations-IsDetector_example : Keeps crossed 1 10 (pos 3)
operations-IsDetector_example = operations-IsDetector crossed 1 10 (pos 3) crossed-IsDetector

-- Semaphore 10 has a unit, and process 1 holds another.
abbrev one_left : Detector
one_left = record {
  sems = 10 ∷ [];
  available = pos 1 ∷ [];
  rows = row 1 (pos 1 ∷ []) (pos 0 ∷ []) ∷ [];
}

one_left-IsDetector : IsDetector one_left
one_left-IsDetector = record {
  counters = refl;
  tables = (record { allocations = refl; requests = refl; held = (omega arith, tt) }, tt);
}

units-sem_allocated_example :
    units 0 (from_some one_left (sem_allocated_instant one_left 1 10)) ≡ units 0 one_left
unfolding sem_allocated_instant sem_index proc_index find_index
units-sem_allocated_example =
    units-sem_allocated one_left one_left-IsDetector 1 10
      (from_some one_left (sem_allocated_instant one_left 1 10)) (inl refl) 0

-- A semaphore 10 of value 0, and process 5.
abbrev plain : Kernel ℕ Table
plain =
    kernel_with (record {
      sems = 10 ∷ [];
      available = pos 0 ∷ [];
      rows = row 5 (pos 0 ∷ []) (pos 0 ∷ []) ∷ [];
    })

plain-IsMirrored : IsMirrored plain.dd plain.mate_sems
plain-IsMirrored = record { counters = refl; distinct = λ i j a b e. omega arith; mirrored = at }
  where
    at :
        (j : ℕ)
        → j < 1
        → get_or (pos 0 ∷ []) j (pos 0) ≡ pos (plain.mate_sems (get_or (10 ∷ []) j 0)).sem
    at zero h = refl
    at (suc j) h = absurd (omega arith)

abbrev after_post : Kernel ℕ Table
after_post = from_some plain (post_on plain_lists tables plain 5 10)

post_on-IsMirrored_example : IsMirrored after_post.dd after_post.mate_sems
unfolding post_on sem_index proc_index find_index sem_release
post_on-IsMirrored_example =
    post_on-IsMirrored plain_lists tables plain 5 10 after_post plain-IsMirrored (omega arith) refl

abbrev after_wait : Bool × Kernel ℕ Table
after_wait = from_some (true, plain) (wait_on plain_lists tables plain 5 10)

wait_on-IsMirrored_example : IsMirrored after_wait.1.dd after_wait.1.mate_sems
unfolding wait_on sem_index proc_index find_index mate_sem_wait sem_requested
wait_on-IsMirrored_example =
    wait_on-IsMirrored plain_lists tables plain 5 10 after_wait.0 after_wait.1 plain-IsMirrored refl

-- Process 3 waits to be admitted, and the long-term scheduler has a permit.
abbrev admitting : Kernel ℕ Table
admitting = record plain {
  new_queue = record { elems = 3 ∷ []; sem = 1 };
  cupos_libres = pos 2;
  sem_multiprogram = 1;
  long_term_sem = 1;
}

admitting-IsAdmitting : IsAdmitting admitting
admitting-IsAdmitting = record {
  permits = refl;
  waiting = refl;
  granted = omega arith;
  new_counted = refl;
  ready_counted = refl;
}

long_term_step_total_example :
    (k' : Kernel ℕ Table) × (long_term_step naturals plain_lists (sjf naturals) 0 admitting
      ≡ some k')
    × IsAdmitting k'
    × (length k'.new_queue.elems + 1 ≡ 1)
long_term_step_total_example =
    long_term_step_total naturals plain_lists (sjf naturals) 0 admitting admitting-IsAdmitting
      (omega arith)

-- Process 4 is ready and suspended, and there is a free place.
abbrev suspended : Kernel ℕ Table
suspended = record plain {
  susp_ready_queue = record { elems = 4 ∷ []; sem = 1 };
  cupos_libres = pos 1;
  sem_multiprogram = 1;
  sem_new_process = 1;
}

suspended-IsAdmitting : IsAdmitting suspended
suspended-IsAdmitting = record {
  permits = refl;
  waiting = refl;
  granted = omega arith;
  new_counted = refl;
  ready_counted = refl;
}

unsuspend_step_total_example :
    (k' : Kernel ℕ Table) × (unsuspend_step naturals plain_lists (sjf naturals) 0 suspended
      ≡ some k')
    × IsAdmitting k'
    × (k'.sem_multiprogram + 1 ≡ suspended.sem_multiprogram)
    × (k'.sem_new_process + 1 ≡ suspended.sem_new_process)
    × (k'.new_queue ≡ suspended.new_queue)
    × Unsuspended suspended k'
unsuspend_step_total_example =
    unsuspend_step_total naturals plain_lists (sjf naturals) 0 suspended suspended-IsAdmitting
      (omega arith) (omega arith)

arrivals-IsAdmitting_example :
    IsAdmitting (
      accept naturals plain_lists
        (sjf naturals)
        7
        20
        9
        1
        42
        (empty_packet Header.capi_id)
        suspended)
    × ((process : ℕ)
        → IsAdmitting (
            wake naturals plain_lists
              (sjf naturals)
              0
              suspended
              process
              (suspended.processes process).state))
arrivals-IsAdmitting_example =
    arrivals-IsAdmitting naturals plain_lists (sjf naturals) 7 20 9 1 0 42
      (empty_packet Header.capi_id) suspended suspended-IsAdmitting

put_to_ready-IsReady_example :
    IsReady naturals plain_lists
      (sjf naturals)
      3
      5
      plain
      (put_to_ready naturals plain_lists (sjf naturals) 3 plain 5)
put_to_ready-IsReady_example =
    put_to_ready-IsReady naturals plain_lists (sjf naturals) 3 plain 5 sjf-IsTotal
  where
    sjf-IsTotal : IsTotal (sjf naturals)
    sjf-IsTotal = (algorithms-IsTotal naturals naturals_ordered).0
