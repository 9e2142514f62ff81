-- ===== src/Kernel/Resolver.antt =====
-- Finding a deadlock and ending one process: kernel/src/deadlockResolver.c.
use sisop_2c.Prelude.{
  ℕ, zero, suc, ◌+◌, ◌%◌, ◌^◌, Bool, true, false, not, ◌&&◌, ◌||◌, Option, none, some, List, [],
  ◌∷◌, ◌++◌, map, ℤ, pos, negsuc, ◌+ℤ◌, pos_part, ltb_ℤ, is_nonzero, if◌then◌else◌, ◌==◌, ltb,
  length, get_or, modify, remove_at,
}
use sisop_2c.Shared.Commons.{Lists}
use sisop_2c.Shared.Queue
use sisop_2c.Shared.Stream.{bytes_u32}
use sisop_2c.Shared.Networking.{Header, empty_packet}
use sisop_2c.Kernel.Detector.{Row, Detector}
use sisop_2c.Kernel.State.{
  Kernel, MateSem, ProcessState, mate_sem_post, send, set_sem, destroy_process,
}
pub mod Reduction
pub mod Maximal
pub mod Circular
pub mod Outcome

-- A row with its flag `finish[i]`.
abbrev pub Mark : Type 0
Mark = Row × Bool

-- Whether one of the cells is not 0.
unfoldable pub any_nonzero : List ℤ → Bool
any_nonzero [] = false
any_nonzero (x ∷ xs) = is_nonzero x || any_nonzero xs

-- The first loop: a process that holds nothing is finished from the start.
unfoldable pub marks : List Row → List Mark
marks = map (λ r. (r, not (any_nonzero r.allocation)))

-- `pideMasQueLoDisponible`
unfoldable pub exceeds : List ℤ → List ℤ → Bool
exceeds [] work = false
exceeds (r ∷ rs) [] = false
exceeds (r ∷ rs) (w ∷ ws) = ltb_ℤ w r || exceeds rs ws

-- `for(j...) { work[j] += allocation[i][j]; finish[i] = true; }`
unfoldable pub credit : List ℤ → List ℤ → Bool → List ℤ × Bool
credit [] allocation finish = ([], finish)
credit (w ∷ ws) [] finish = (w ∷ ws, finish)
credit (w ∷ ws) (a ∷ as') finish = let (rest, f) = credit ws as' true in ((w +ℤ a) ∷ rest, f)

unfoldable pub try_finish : Mark → List ℤ → List ℤ × Bool
try_finish (r, finish) work =
    if not finish && not (exceeds r.request work)
    then credit work r.allocation finish
    else (work, finish)

-- `for(i = 0; i < n; i++)` of the reduction.
unfoldable pub pass : List Mark → List ℤ → List Mark × List ℤ
pass [] work = ([], work)
pass ((r, f) ∷ ms) work =
    let (work', f') = try_finish (r, f) work in
    let (ms', work'') = pass ms work' in ((r, f') ∷ ms', work'')

-- `for(ii = 0; ii < n; ii++)`
unfoldable pub passes : ℕ → List Mark → List ℤ → List Mark × List ℤ
passes zero ms work = (ms, work)
passes (suc n) ms work = let (ms', work') = pass ms work in passes n ms' work'

unfoldable pub reduce : Detector → List Mark × List ℤ
unfolding passes marks
reduce dd = passes (length dd.rows) (marks dd.rows) dd.available

-- How a loop of `isInCircularWait` ends: by a `return`, or with `found`; the list is `seen`.
pub data Walk : Type 0 where
  return : Bool → List ℕ → Walk
  go_on : Bool → List ℕ → Walk

abbrev pub walk_result : Walk → Bool × List ℕ
walk_result (Walk.return b seen) = (b, seen)
walk_result (Walk.go_on b seen) = (b, seen)

abbrev pub no_row : Row
no_row = record { proc = 0; allocation = []; request = [] }

abbrev pub is_some : Option ℕ → Bool
is_some none = false
is_some (some x) = true

module _ (lib : Lists) (pid : ℕ → ℕ) (dd : Detector) (base : ℕ) where
  open lib use {list_find, list_add}

  -- The loop over `next`; `visit next seen` is the recursive call.
  unfoldable pub holders_loop :
      (ℕ → List ℕ → Bool × List ℕ) → ℕ → List Row → ℕ → Bool → List ℕ → Walk
  holders_loop visit j [] next found seen = Walk.go_on found seen
  holders_loop visit j (r ∷ rs) next found seen =
      elim (is_nonzero (get_or r.allocation j (pos 0))) [
        | false ↦ holders_loop visit j rs (next + 1) found seen
        | true ↦ elim (next == base) [
          | true ↦ Walk.return true seen
          | false ↦ elim (is_some (list_find (λ p. pid r.proc == pid p) seen)) [
            | true ↦ Walk.return false seen
            | false ↦ elim found [
              | true ↦ holders_loop visit j rs (next + 1) true (list_add seen r.proc)
              | false ↦
                  holders_loop visit j rs (next + 1) (visit next (list_add seen r.proc)).0
                    (visit next (list_add seen r.proc)).1
            ]
          ]
        ]
      ]

  -- The loop over `j`, over what is left of `request[i]`.
  unfoldable pub requests_loop : (ℕ → List ℕ → Bool × List ℕ) → List ℤ → ℕ → Bool → List ℕ → Walk
  requests_loop visit [] j found seen = Walk.go_on found seen
  requests_loop visit (x ∷ xs) j found seen = elim (is_nonzero x) [
    | false ↦ requests_loop visit xs (j + 1) found seen
    | true ↦ elim (holders_loop visit j dd.rows 0 found seen) [
      | Walk.return b seen' ↦ Walk.return b seen'
      | Walk.go_on found' seen' ↦ requests_loop visit xs (j + 1) found' seen'
    ]
  ]

  -- `isInCircularWait`, on fuel: each nested call stands for one more process in `seen`.
  unfoldable pub circular_wait : ℕ → ℕ → List ℕ → Bool × List ℕ
  circular_wait zero i seen = (false, seen)
  circular_wait (suc fuel) i seen =
      walk_result
        (requests_loop (circular_wait fuel) (get_or dd.rows i no_row).request 0 false seen)

-- `int` comparison of two bit patterns.
abbrev pub signed : ℕ → ℕ
signed x = (x + 2 ^ 31) % 2 ^ 32

abbrev pub bigger_pid : (ℕ → ℕ) → ℕ → ℕ → ℕ
bigger_pid pid a b = if ltb (signed (pid b)) (signed (pid a)) then a else b

module _ (lib : Lists) (pid : ℕ → ℕ) (dd : Detector) where
  open lib use {list_add}

  -- The loop that fills `inCircularWait`, from index `i`; the Boolean is `isDeadlock`.
  unfoldable pub find_circular : List Mark → ℕ → List ℕ → Bool → Bool × List ℕ
  find_circular [] i found is_deadlock = (is_deadlock, found)
  find_circular ((r, true) ∷ ms) i found is_deadlock = find_circular ms (i + 1) found is_deadlock
  find_circular ((r, false) ∷ ms) i found is_deadlock =
      find_circular ms (i + 1)
        (if (circular_wait lib pid dd i (suc (length dd.rows)) i []).0
          then list_add found r.proc
          else found)
        true

-- `while(allocation[i][j]) { mateSem_post(sems[j]); allocation[i][j]--; ... }`
unfoldable pub post_times : ℕ → MateSem → MateSem
post_times zero s = s
post_times (suc n) s = post_times n (mate_sem_post s).1

module _ {F D : Type 0} (lib : Lists) (locked : ℕ) where
  -- `pQueue_removeBy(queue, matchesPid)`
  abbrev pub drop_pid : Kernel F D → Queue.Queue → Queue.Queue
  drop_pid k q = (Queue.remove_by lib q (λ p. (k.processes locked).pid == (k.processes p).pid)).1

  -- Taking the process out of the queue of its state.
  unfoldable pub leave_queue : Kernel F D → ProcessState → Kernel F D
  leave_queue k ProcessState.blocked = record k { blocked_queue = drop_pid k k.blocked_queue }
  leave_queue k ProcessState.susp_blocked = record k {
    susp_blocked_queue = drop_pid k k.susp_blocked_queue;
  }
  leave_queue k _ = k

  unfoldable pub withdraw : Kernel F D → ℕ → Kernel F D
  unfolding leave_queue
  withdraw k sem =
      leave_queue
        (set_sem k sem
          (record (k.mate_sems sem) { waiting = drop_pid k (k.mate_sems sem).waiting }))
        (k.processes locked).state

  -- The loop over the semaphores. The row itself is dropped afterwards, so that its cells are not
  -- written back. The inner `while` makes as many rounds as the allocation says; on a negative one
  -- it would not end.
  unfoldable pub give_up : List ℕ → List ℤ → List ℤ → List ℤ → Kernel F D → List ℤ × Kernel F D
  give_up (s ∷ ss) (r ∷ rs) (a ∷ as') (v ∷ vs) k =
      let k' : Kernel F D = if is_nonzero r then withdraw k s else k in
      let k'' : Kernel F D = set_sem k' s (post_times (pos_part a) (k'.mate_sems s)) in
      let (vs', last) = give_up ss rs as' vs k'' in ((v +ℤ a) ∷ vs', last)
  give_up ss rs as' vs k = (vs, k)

  -- The body of the loop at the row of the process.
  unfoldable pub kill : ℕ → ℕ → Row → Kernel F D → Kernel F D
  kill memory_socket i r k =
      let (available', k1) = give_up k.dd.sems r.request r.allocation k.dd.available k in
      let k2 =
        send k1 memory_socket
          (record { header = Header.capi_term; payload = bytes_u32 (k1.processes r.proc).pid }) in
      let k3 = send k2 (k2.processes r.proc).socket (empty_packet Header.error) in
      let k4 = destroy_process k3 r.proc in
      record k4 {
        sem_multiprogram = k4.sem_multiprogram + 1;
        cupos_libres = k4.cupos_libres +ℤ pos 1;
        dd = record k4.dd { available = available'; rows = remove_at k4.dd.rows i };
      }

  -- `for(i...) if(locked == dd->procs[i]) { ...; break; }`
  unfoldable pub kill_loop : ℕ → ℕ → List Row → Kernel F D → Kernel F D
  kill_loop memory_socket i [] k = k
  kill_loop memory_socket i (r ∷ rs) k =
      let rest = kill_loop memory_socket (i + 1) rs k in
      if locked == r.proc then kill memory_socket i r k else rest

module _ {F D : Type 0} (lib : Lists) (memory_socket : ℕ) where
  -- NULL is no process of the table, so the last loop finds nothing.
  abbrev pub end_one : Option ℕ → Kernel F D → Kernel F D
  end_one none k = k
  end_one (some locked) k = kill_loop lib locked memory_socket 0 k.dd.rows k

  unfoldable pub find_deadlocks : Kernel F D → Bool × Kernel F D
  find_deadlocks k =
      let pid = λ (p : ℕ). (k.processes p).pid in
      let (is_deadlock, in_circular_wait) = find_circular lib pid k.dd (reduce k.dd).0 0 [] false in
      if is_deadlock
      then (true, end_one (lib.list_get_maximum (bigger_pid pid) in_circular_wait) k)
      else (false, k)

  -- `while(findDeadlocks(self, memorySocket));`; `none` when the fuel runs out.
  unfoldable pub resolve : ℕ → Kernel F D → Option (Kernel F D)
  resolve zero k = none
  resolve (suc fuel) k =
      let rest = resolve fuel (find_deadlocks k).1 in
      if (find_deadlocks k).0 then rest else some (find_deadlocks k).1
