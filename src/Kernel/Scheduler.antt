-- ===== src/Kernel/Scheduler.antt =====
-- The schedulers and the threads that move processes: kernel/src/kernel.c.
--
-- Each function is one round of a thread's loop, from its waits to its last signal; `none` while a
-- wait does not return. `elapsed` is the time since the last change of the ready queue, which the
-- clock gives; condition variables only wake threads, so they leave no trace.
use sisop_2c.Prelude.{
  ℕ, ◌+◌, ◌-◌, Bool, true, false, not, ◌&&◌, ◌||◌, Option, none, some, ◌>>=◌, List, [], ◌∷◌, ℤ, pos,
  ◌+ℤ◌, ◌-ℤ◌, ltb_ℤ, if◌then◌else◌, ◌==◌, update,
}
use sisop_2c.Shared.Commons.{Lists}
use sisop_2c.Shared.Queue
use sisop_2c.Shared.Queue.{Queue}
use sisop_2c.Shared.Stream.{bytes_u32}
use sisop_2c.Shared.Networking.{Header, Packet, empty_packet}
use sisop_2c.Kernel.Detector
use sisop_2c.Kernel.State.{
  Kernel, Process, ProcessState, create_process, send, send_header, set_process, set_sem, set_state,
}
pub mod Permits
pub mod Ready

-- What the schedulers use of `double`.
pub record Reals (F : Type 0) : Type 0 where
  pub zero : F
  pub one : F
  pub add : F → F → F
  pub sub : F → F → F
  pub mul : F → F → F
  pub div : F → F → F
  pub leq : F → F → Bool

module _ {F : Type 0} (reals : Reals F) where
  open reals use {zero, one, add, sub, mul, div, leq}

  unfoldable pub rr : Process F → F
  rr p = add one (div p.waited_time p.estimate)

  unfoldable pub sjf : Process F → Process F → Bool
  sjf a b = leq a.estimate b.estimate

  unfoldable pub hrrn : Process F → Process F → Bool
  unfolding rr
  hrrn a b = leq (rr b) (rr a)

  -- `process->estimate = alpha * rafagaMs + (1 - alpha) * process->estimate`
  unfoldable pub next_estimate : F → F → F → F
  next_estimate alpha burst estimate = add (mul alpha burst) (mul (sub one alpha) estimate)

  -- `pQueue_iterate(readyQueue, updateMetrics)`
  unfoldable pub add_wait : F → List ℕ → (ℕ → Process F) → ℕ → Process F
  add_wait elapsed [] store = store
  add_wait elapsed (a ∷ as') store =
      add_wait elapsed as'
        (update store a (record (store a) { waited_time = add (store a).waited_time elapsed }))

  module _ {D : Type 0} (lib : Lists) (sorting : Process F → Process F → Bool) where
    unfoldable pub put_to_ready : F → Kernel F D → ℕ → Kernel F D
    put_to_ready elapsed k process =
        let k1 : Kernel F D = record k {
          processes = add_wait elapsed k.ready_queue.elems k.processes;
        } in
        let k2 =
          set_process k1 process
            (record (k1.processes process) { waited_time = zero; state = ProcessState.ready }) in
        record k2 {
          ready_queue =
              Queue.sort lib (Queue.put lib k2.ready_queue process)
                (λ a b. sorting (k2.processes a) (k2.processes b));
        }

    -- `process` has been taken from `newQueue`, of which `rest` is left.
    unfoldable pub admit_new : F → Kernel F D → Queue → ℕ → Kernel F D
    unfolding put_to_ready
    admit_new elapsed k rest process =
        let k1 =
          set_state (record k { long_term_sem = k.long_term_sem - 1; new_queue = rest }) process
            ProcessState.ready in
        let k2 = put_to_ready elapsed k1 process in
        record k2 { cupos_libres = k2.cupos_libres -ℤ pos 1 }

    unfoldable pub long_term_step : F → Kernel F D → Option (Kernel F D)
    long_term_step elapsed k =
        let taken = (do
          (elem, rest) ← Queue.take lib k.new_queue
          process ← elem
          some (admit_new elapsed k rest process)) in
        if k.long_term_sem == 0 then none else taken

    -- The two waits of `thread_mediumTermUnsuspenderFunc`, which end together here: the thread that has
    -- the first permit and waits for the second is not a state.
    abbrev pub permitted : Kernel F D → Kernel F D
    permitted k = record k {
      sem_multiprogram = k.sem_multiprogram - 1;
      sem_new_process = k.sem_new_process - 1;
    }

    -- `process` has been taken from `suspendedReadyQueue`, of which `rest` is left.
    unfoldable pub admit_suspended : F → Kernel F D → Queue → ℕ → Kernel F D
    unfolding put_to_ready
    admit_suspended elapsed k rest process =
        let k1 = set_state (record k { susp_ready_queue = rest }) process ProcessState.ready in
        let k2 = put_to_ready elapsed k1 process in
        record k2 { cupos_libres = k2.cupos_libres -ℤ pos 1 }

    unfoldable pub unsuspend_step : F → Kernel F D → Option (Kernel F D)
    unsuspend_step elapsed k =
        let k1 = permitted k in
        let taken = (do
          (elem, rest) ← Queue.take lib k1.susp_ready_queue
          process ← elem
          some (admit_suspended elapsed k1 rest process)) in
        if k.sem_multiprogram == 0 || k.sem_new_process == 0
        then none
        else (if Queue.is_empty k1.susp_ready_queue
            then some (record k1 { long_term_sem = k1.long_term_sem + 1 })
            else taken)

    -- The condition on which the medium-term scheduler waits.
    abbrev pub must_wait : Kernel F D → Bool
    must_wait k =
        not (ltb_ℤ k.cupos_libres (pos 1))
        || Queue.is_empty k.new_queue
        || not (Queue.is_empty k.ready_queue)
        || Queue.is_empty k.blocked_queue

    -- `process` has been taken from `blockedQueue`, of which `rest` is left.
    unfoldable pub suspend : ℕ → Kernel F D → Queue → ℕ → Kernel F D
    suspend memory_socket k rest process =
        let k1 = set_state (record k { blocked_queue = rest }) process ProcessState.susp_blocked in
        let k2 : Kernel F D = record k1 {
          susp_blocked_queue = Queue.put lib k1.susp_blocked_queue process;
          sem_multiprogram = k1.sem_multiprogram + 1;
          cupos_libres = k1.cupos_libres +ℤ pos 1;
        } in
        send k2 memory_socket
          (record { header = Header.suspend; payload = bytes_u32 (k2.processes process).pid })

    unfoldable pub medium_term_step : ℕ → Kernel F D → Option (Kernel F D)
    medium_term_step memory_socket k =
        let (elem, rest) = Queue.take_last lib k.blocked_queue in
        let suspended = (do process ← elem; some (suspend memory_socket k rest process)) in
        if must_wait k then none else suspended

    -- The start of a round of `thread_CPUFunc`.
    unfoldable pub dispatch : Kernel F D → Option (ℕ × Kernel F D)
    dispatch k = do
      (elem, rest) ← Queue.take lib k.ready_queue
      process ← elem
      let k1 = set_state (record k { ready_queue = rest }) process ProcessState.exec
      some (process, send k1 (k1.processes process).socket (empty_packet Header.ok))

    -- The new estimate after a petition that ends the burst.
    unfoldable pub end_burst : F → F → Header → Kernel F D → ℕ → Kernel F D
    unfolding next_estimate
    end_burst alpha burst Header.sem_wait k a =
        set_process k a
          (record (k.processes a) { estimate = next_estimate alpha burst (k.processes a).estimate })
    end_burst alpha burst Header.call_io k a =
        set_process k a
          (record (k.processes a) { estimate = next_estimate alpha burst (k.processes a).estimate })
    end_burst alpha burst _ k a = k

    abbrev pub without_pid : Kernel F D → ℕ → Queue → Queue
    without_pid k process q =
        (Queue.remove_by lib q (λ p. (k.processes process).pid == (k.processes p).pid)).1

    -- What a device's and a semaphore's thread do with the process that they let go.
    unfoldable pub wake : F → Kernel F D → ℕ → ProcessState → Kernel F D
    unfolding put_to_ready
    wake elapsed k process ProcessState.blocked =
        put_to_ready elapsed (record k { blocked_queue = without_pid k process k.blocked_queue })
          process
    wake elapsed k process ProcessState.susp_blocked = record k {
      susp_blocked_queue = without_pid k process k.susp_blocked_queue;
      susp_ready_queue = Queue.put lib k.susp_ready_queue process;
      sem_new_process = k.sem_new_process + 1;
    }
    wake elapsed k process _ = k

    unfoldable pub io_step : F → Kernel F D → ℕ → Option (Kernel F D)
    unfolding wake
    io_step elapsed k device = do
      let d = k.devices device
      (elem, rest) ← Queue.take lib d.waiting
      process ← elem
      let k1 : Kernel F D = record k {
        devices = update k.devices device (record d { waiting = rest });
      }
      some (wake elapsed k1 process (k1.processes process).state)

    unfoldable pub sem_step : F → Kernel F D → ℕ → Option (Kernel F D)
    unfolding wake
    sem_step elapsed k sem =
        let s = k.mate_sems sem in
        let taken = (do
          (elem, rest) ← Queue.take lib s.waiting
          process ← elem
          let k1 = set_sem k sem (record s { waiting = rest; sem = s.sem - 1 })
          let k2 = wake elapsed k1 process (k1.processes process).state
          dd' ← Detector.sem_allocated k2.dd process sem
          some (record k2 { dd = dd' })) in
        if Queue.is_empty s.waiting || s.sem == 0 then none else taken

    -- A new client of `main`: its packet goes to the memory server, and the process to `newQueue`.
    -- `fresh` is the address of the new struct, and `pid` is read from the packet.
    unfoldable pub accept : ℕ → ℕ → ℕ → F → ℕ → Packet → Kernel F D → Kernel F D
    accept fresh socket memory_socket estimate pid id_packet k =
        let k1 = send k memory_socket id_packet in
        let k2 = send_header k1 socket Header.id_kernel in
        let k3 = set_process k2 fresh (create_process zero pid socket estimate) in
        record k3 {
          new_queue = Queue.put lib k3.new_queue fresh;
          sem_new_process = k3.sem_new_process + 1;
          dd = Detector.proc_init k3.dd fresh;
        }
