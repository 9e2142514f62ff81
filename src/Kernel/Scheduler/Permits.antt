-- ===== src/Kernel/Scheduler/Permits.antt =====
-- The counters of the schedulers: the free places of the multiprogramming degree, and the processes
-- that wait to be admitted.
use sisop_2c.Prelude.{
  ℕ, ◌+◌, ◌≤◌, ◌≡◌, refl, ap, inl, inr, Bool, true, false, ◌||◌, some, List, [], ◌∷◌, pos, int_laws,
  arith, ◌==◌, length, length-append, Bool-cases,
}
use sisop_2c.Shared.Commons.{Lists, occurrences}
use sisop_2c.Shared.Queue
use sisop_2c.Shared.Queue.{Queue}
use sisop_2c.Shared.Networking.{Packet}
use sisop_2c.Kernel.State.{Kernel, Process, ProcessState, set_state}
use sisop_2c.Kernel.Scheduler.Ready.{items-put_to_ready, state-put_to_ready}
use sisop_2c.Kernel.Scheduler.{
  Reals, admit_new, long_term_step, permitted, admit_suspended, unsuspend_step, suspend, wake,
  accept,
}

-- `cupos_libres` is the value of `sem_multiprogram` and the permits that the long-term scheduler has
-- not used yet; what waits to be admitted is counted by `sem_new_process` and those permits; and the
-- semaphore of a queue counts its elements.
pub record IsAdmitting {F D : Type 0} (k : Kernel F D) : Type 0 where
  pub permits : k.cupos_libres ≡ pos (k.sem_multiprogram + k.long_term_sem)
  pub waiting :
      k.sem_new_process + k.long_term_sem
      ≡ length k.new_queue.elems + length k.susp_ready_queue.elems
  pub granted : k.long_term_sem ≤ length k.new_queue.elems
  pub new_counted : k.new_queue.sem ≡ length k.new_queue.elems
  pub ready_counted : k.susp_ready_queue.sem ≡ length k.susp_ready_queue.elems

module _ (lib : Lists) where
  length-put : (q : Queue) (x : ℕ) → length (Queue.put lib q x).elems ≡ length q.elems + 1
  unfolding Queue.put
  length-put q x = rw (lib.list_add_lem q.elems x) (length-append q.elems (x ∷ []))

  sem-put : (q : Queue) (x : ℕ) → (Queue.put lib q x).sem ≡ q.sem + 1
  unfolding Queue.put
  sem-put q x = refl

  -- A counted queue that is not empty gives its first element.
  take_counted :
      (q : Queue)
      → q.sem ≡ length q.elems
      → 1 ≤ length q.elems
      → (x : ℕ) × (rest : Queue) × (Queue.take lib q ≡ some (some x, rest))
        × (length rest.elems + 1 ≡ length q.elems)
        × (rest.sem ≡ length rest.elems)
        × (q.elems ≡ x ∷ rest.elems)
  unfolding Queue.take
  take_counted q c h = go q.elems refl
    where
      go :
          (xs : List ℕ)
          → q.elems ≡ xs
          → (x : ℕ) × (rest : Queue) × (Queue.take lib q ≡ some (some x, rest))
            × (length rest.elems + 1 ≡ length q.elems)
            × (rest.sem ≡ length rest.elems)
            × (q.elems ≡ x ∷ rest.elems)
      go [] e = absurd (omega (arith, ap length e))
      go (x ∷ xs) e = (
        x,
        record { elems = xs; sem = length xs },
        rw (c, e, lib.list_remove_first_lem x xs) (ground arith),
        omega (arith, ap length e),
        refl,
        e,
      )

is_empty-false : (q : Queue) → 1 ≤ length q.elems → Queue.is_empty q ≡ false
unfolding Queue.is_empty
is_empty-false q h = go q.elems h
  where
    go : (xs : List ℕ) → 1 ≤ length xs → Queue.is_nil xs ≡ false
    go [] h = absurd (omega arith)
    go (x ∷ xs) h = refl

is_empty-true : (q : Queue) → Queue.is_empty q ≡ true → length q.elems ≡ 0
unfolding Queue.is_empty
is_empty-true q h = go q.elems h
  where
    go : (xs : List ℕ) → Queue.is_nil xs ≡ true → length xs ≡ 0
    go [] h = refl
    go (x ∷ xs) h = absurd (apart h)
      where
        apart : false ≡ true → ⊥
        apart h = cc

no_element : (xs : List ℕ) → length xs ≡ 0 → xs ≡ []
no_element [] h = refl
no_element (x ∷ xs) h = absurd (omega arith)

is_empty_some : (q : Queue) → Queue.is_empty q ≡ false → 1 ≤ length q.elems
unfolding Queue.is_empty
is_empty_some q h = go q.elems h
  where
    go : (xs : List ℕ) → Queue.is_nil xs ≡ false → 1 ≤ length xs
    go [] h = absurd (apart h)
      where
        apart : true ≡ false → ⊥
        apart h = cc
    go (x ∷ xs) h = omega arith

-- Where the permit of a round of the unsuspender goes: to the long-term scheduler, and no process
-- moves; or to the first suspended process that is ready, which joins the ready queue.
pub data Unsuspended {F D : Type 0} (k k' : Kernel F D) : Type 0 where
  handed_on :
      k.susp_ready_queue.elems ≡ []
      → k'.long_term_sem ≡ k.long_term_sem + 1
      → k'.susp_ready_queue ≡ k.susp_ready_queue
      → k'.ready_queue ≡ k.ready_queue
      → k'.processes ≡ k.processes
      → Unsuspended k k'
  admitted :
      (process : ℕ) (rest : List ℕ)
      → k.susp_ready_queue.elems ≡ process ∷ rest
      → k'.susp_ready_queue.elems ≡ rest
      → k'.long_term_sem ≡ k.long_term_sem
      → (k'.processes process).state ≡ ProcessState.ready
      → ((a : ℕ)
          → occurrences a k'.ready_queue.elems ≡ occurrences a (process ∷ k.ready_queue.elems))
      → Unsuspended k k'

module _ {F D : Type 0} (reals : Reals F) (lib : Lists)
    (sorting : Process F → Process F → Bool) where
  -- With a permit the long-term scheduler always finds a process in `newQueue`, so that it does not
  -- wait there while it holds the mutex, and it keeps the counters in step.
  pub long_term_step_total :
      (elapsed : F) (k : Kernel F D)
      → IsAdmitting k
      → 1 ≤ k.long_term_sem
      → (k' : Kernel F D) × (long_term_step reals lib sorting elapsed k ≡ some k')
        × IsAdmitting k'
        × (length k'.new_queue.elems + 1 ≡ length k.new_queue.elems)
  unfolding long_term_step admit_new
  long_term_step_total elapsed k v h =
      let (x, rest, e, l, c, _) =
        take_counted lib k.new_queue v.new_counted (omega (arith, v.granted)) in
      let has_permit : (k.long_term_sem == 0) ≡ false = ground arith in
      (
        admit_new reals lib sorting elapsed k rest x,
        rw (has_permit, e) refl,
        record {
          permits = rw v.permits (omega int_laws);
          waiting = omega (arith, v.waiting);
          granted = omega (arith, v.granted);
          new_counted = c;
          ready_counted = v.ready_counted;
        },
        l,
      )

  -- The process left its queue, with the permits used.
  abbrev taken_off : Kernel F D → Queue → ℕ → Kernel F D
  taken_off k rest x =
      set_state (record (permitted reals lib sorting k) { susp_ready_queue = rest }) x
        ProcessState.ready

  -- With its two permits a round of the unsuspender ends without waiting, uses one of each, keeps the
  -- counters in step and leaves `newQueue` alone. If no suspended process is ready it hands the permit
  -- to the long-term scheduler, and moves no process. Else the first of them leaves its queue, is ready
  -- and joins the ready queue, which loses none, and the long-term scheduler gets no permit.
  pub unsuspend_step_total :
      (elapsed : F) (k : Kernel F D)
      → IsAdmitting k
      → 1 ≤ k.sem_multiprogram
      → 1 ≤ k.sem_new_process
      → (k' : Kernel F D) × (unsuspend_step reals lib sorting elapsed k ≡ some k')
        × IsAdmitting k'
        × (k'.sem_multiprogram + 1 ≡ k.sem_multiprogram)
        × (k'.sem_new_process + 1 ≡ k.sem_new_process)
        × (k'.new_queue ≡ k.new_queue)
        × Unsuspended k k'
  unfolding unsuspend_step admit_suspended
  unsuspend_step_total elapsed k v h g =
      let open_gate : (k.sem_multiprogram == 0 || k.sem_new_process == 0) ≡ false = ground arith in
      elim (Bool-cases (Queue.is_empty k.susp_ready_queue)) [
        | inl e ↦ (
          record (permitted reals lib sorting k) { long_term_sem = k.long_term_sem + 1 },
          rw (open_gate, e) refl,
          record {
            permits = rw v.permits (ap pos (omega arith));
            waiting = omega (arith, v.waiting);
            granted = omega (arith, v.granted, v.waiting, is_empty-true k.susp_ready_queue e);
            new_counted = v.new_counted;
            ready_counted = v.ready_counted;
          },
          omega arith,
          omega arith,
          refl,
          handed_on (no_element k.susp_ready_queue.elems (is_empty-true k.susp_ready_queue e)) refl
              refl refl refl,
        )
        | inr e ↦
            let (x, rest, t, l, c, first) =
              take_counted lib k.susp_ready_queue v.ready_counted
                (is_empty_some k.susp_ready_queue e) in
            (
              admit_suspended reals lib sorting elapsed (permitted reals lib sorting k) rest x,
              rw (open_gate, e, t) refl,
              record {
                permits = rw v.permits (omega int_laws);
                waiting = omega (arith, v.waiting);
                granted = v.granted;
                new_counted = v.new_counted;
                ready_counted = c;
              },
              omega arith,
              omega arith,
              refl,
              admitted x rest.elems first refl refl
                  (state-put_to_ready reals lib sorting elapsed (taken_off k rest x) x)
                  (λ a. items-put_to_ready reals lib sorting elapsed (taken_off k rest x) x a),
            )
      ]

  -- Suspending a process gives its place back.
  pub suspend-IsAdmitting :
      (memory_socket : ℕ) (k : Kernel F D) (rest : Queue) (process : ℕ)
      → IsAdmitting k
      → IsAdmitting (suspend reals lib sorting memory_socket k rest process)
  unfolding suspend
  suspend-IsAdmitting memory_socket k rest process v = record {
    permits = rw v.permits (omega int_laws);
    waiting = v.waiting;
    granted = v.granted;
    new_counted = v.new_counted;
    ready_counted = v.ready_counted;
  }

  accept-IsAdmitting :
      (fresh socket memory_socket : ℕ) (estimate : F) (pid : ℕ) (id_packet : Packet)
      (k : Kernel F D)
      → IsAdmitting k
      → IsAdmitting (accept reals lib sorting fresh socket memory_socket estimate pid id_packet k)
  unfolding accept
  accept-IsAdmitting fresh socket memory_socket estimate pid id_packet k v = record {
    permits = v.permits;
    waiting = omega (arith, v.waiting, length-put lib k.new_queue fresh);
    granted = omega (arith, v.granted, length-put lib k.new_queue fresh);
    new_counted =
        omega
          (arith, v.new_counted, length-put lib k.new_queue fresh, sem-put lib k.new_queue fresh);
    ready_counted = v.ready_counted;
  }

  wake-IsAdmitting :
      (elapsed : F) (k : Kernel F D) (process : ℕ) (s : ProcessState)
      → IsAdmitting k
      → IsAdmitting (wake reals lib sorting elapsed k process s)
  unfolding wake
  wake-IsAdmitting elapsed k process ProcessState.blocked v = record {
    permits = v.permits;
    waiting = v.waiting;
    granted = v.granted;
    new_counted = v.new_counted;
    ready_counted = v.ready_counted;
  }
  wake-IsAdmitting elapsed k process ProcessState.susp_blocked v = record {
    permits = v.permits;
    waiting = omega (arith, v.waiting, length-put lib k.susp_ready_queue process);
    granted = v.granted;
    new_counted = v.new_counted;
    ready_counted = omega (
      arith,
      v.ready_counted,
      length-put lib k.susp_ready_queue process,
      sem-put lib k.susp_ready_queue process,
    );
  }
  wake-IsAdmitting elapsed k process _ v = v

  -- The arrival of a client, and waking a process for a device or a semaphore whatever its state,
  -- keep the counters of the schedulers in step.
  pub arrivals-IsAdmitting :
      (fresh socket memory_socket : ℕ) (estimate elapsed : F) (pid : ℕ) (id_packet : Packet)
      (k : Kernel F D)
      → IsAdmitting k
      → IsAdmitting (accept reals lib sorting fresh socket memory_socket estimate pid id_packet k)
        × ((process : ℕ)
            → IsAdmitting (wake reals lib sorting elapsed k process (k.processes process).state))
  arrivals-IsAdmitting fresh socket memory_socket estimate elapsed pid id_packet k v = (
    accept-IsAdmitting fresh socket memory_socket estimate pid id_packet k v,
    λ process. wake-IsAdmitting elapsed k process (k.processes process).state v,
  )
