-- ===== src/Kernel/Petitions.antt =====
-- The kernel's petition handlers: kernel/src/petitionHandlers.c.
--
-- A handler returns whether the CPU goes on serving the process. `dictionary_has_key` is whether
-- `dictionary_get` finds a value. New structs get the address `fresh`. Requests that are relayed to
-- the memory server take its reply as an argument. A `none` is a search of the detector that leaves
-- its array.
use sisop_2c.Prelude.{
  ℕ, ◌+◌, ◌%◌, ◌^◌, Bool, true, false, not, Option, none, some, ◌>>=◌, List, [], ◌∷◌, ◌++◌, ℤ, pos,
  negsuc, ◌-◌, ◌+ℤ◌, if◌then◌else◌, ltb, update,
}
use sisop_2c.Shared.Commons.{Lists, Dictionaries}
use sisop_2c.Shared.Queue
use sisop_2c.Shared.Stream.{StreamBuffer, stream_take_string, stream_take_uint32}
use sisop_2c.Shared.Networking.{Header, Packet, empty_packet}
use sisop_2c.Kernel.Detector
use sisop_2c.Kernel.State.{
  Kernel, ProcessState, mate_sem_create, mate_sem_wait, mate_sem_post, send, set_sem, set_state,
  destroy_process,
}
pub mod Sems

-- The `int32_t` of four bytes.
abbrev pub int_of : ℕ → ℤ
int_of n = if ltb n (2 ^ 31) then pos n else negsuc (2 ^ 32 - n - 1)

module _ {F D : Type 0} (lib : Lists) (dicts : Dictionaries D) where
  open dicts use {dictionary_get, dictionary_put, dictionary_remove}

  abbrev pub reply : Kernel F D → ℕ → Header → Kernel F D
  reply k process h = send k (k.processes process).socket (empty_packet h)

  -- `process` blocks: its state changes, and it joins the queue of blocked processes.
  unfoldable pub block : Kernel F D → ℕ → Kernel F D
  block k process =
      let k' = set_state k process ProcessState.blocked in
      record k' { blocked_queue = Queue.put lib k'.blocked_queue process }

  unfoldable pub sem_init : ℕ → Kernel F D → ℕ → StreamBuffer → Bool × Kernel F D
  sem_init fresh k process payload =
      let (sem_name, rest) = stream_take_string payload in
      let (sem_value, _) = stream_take_uint32 rest in
      elim (dictionary_get k.sem_dict sem_name) [
        | none ↦
            let k1 = set_sem k fresh (mate_sem_create sem_name sem_value) in
            let k2 : Kernel F D = record k1 {
              sem_dict = dictionary_put k1.sem_dict sem_name fresh;
              dd = Detector.sem_init k1.dd fresh (int_of sem_value);
            } in
            (true, reply k2 process Header.ok)
        | some s ↦ (true, reply k process Header.error)
      ]

  -- The branch where the semaphore `sem` exists.
  unfoldable pub wait_on : Kernel F D → ℕ → ℕ → Option (Bool × Kernel F D)
  unfolding block
  wait_on k process sem =
      let (waits, s) = mate_sem_wait lib (k.mate_sems sem) process in
      let k1 = set_sem k sem s in
      if waits
      then (do
        let k2 = block k1 process
        dd' ← Detector.sem_requested k2.dd process sem
        some (false, record k2 { dd = dd' }))
      else (do
        dd' ← Detector.sem_allocated_instant k1.dd process sem
        let k2 : Kernel F D = record k1 { dd = dd' }
        some (true, reply k2 process Header.ok))

  unfoldable pub sem_wait : Kernel F D → ℕ → StreamBuffer → Option (Bool × Kernel F D)
  unfolding wait_on
  sem_wait k process payload =
      let (sem_name, _) = stream_take_string payload in
      elim (dictionary_get k.sem_dict sem_name) [
        | none ↦ some (true, reply k process Header.error)
        | some sem ↦ wait_on k process sem
      ]

  -- The branch where the semaphore `sem` exists.
  unfoldable pub post_on : Kernel F D → ℕ → ℕ → Option (Kernel F D)
  post_on k process sem = do
    let k1 = set_sem k sem (mate_sem_post (k.mate_sems sem)).1
    dd' ← Detector.sem_release k1.dd process sem
    some (record k1 { dd = dd' })

  unfoldable pub sem_post : Kernel F D → ℕ → StreamBuffer → Option (Bool × Kernel F D)
  unfolding post_on
  sem_post k process payload =
      let (sem_name, _) = stream_take_string payload in
      elim (dictionary_get k.sem_dict sem_name) [
        | none ↦ some (true, reply k process Header.error)
        | some sem ↦ (do k1 ← post_on k process sem; some (true, reply k1 process Header.ok))
      ]

  -- `mateSem_destroy` destroys the processes that wait on the semaphore, which closes their sockets.
  unfoldable pub destroy_all : Kernel F D → List ℕ → Kernel F D
  destroy_all k [] = k
  destroy_all k (p ∷ ps) = destroy_all (destroy_process k p) ps

  unfoldable pub sem_destroy : Kernel F D → ℕ → StreamBuffer → Option (Bool × Kernel F D)
  unfolding destroy_all
  sem_destroy k process payload =
      let (sem_name, _) = stream_take_string payload in
      elim (dictionary_get k.sem_dict sem_name) [
        | none ↦ some (true, reply k process Header.error)
        | some sem ↦ (do
          dd' ← Detector.sem_destroy k.dd sem
          let k1 = destroy_all (record k { dd = dd' }) (k.mate_sems sem).waiting.elems
          let k2 : Kernel F D = record k1 { sem_dict = dictionary_remove k1.sem_dict sem_name }
          some (true, reply k2 process Header.ok))
      ]

  unfoldable pub call_io : Kernel F D → ℕ → StreamBuffer → Bool × Kernel F D
  unfolding block
  call_io k process payload =
      let (io_name, _) = stream_take_string payload in
      elim (dictionary_get k.io_dict io_name) [
        | none ↦ (true, reply k process Header.error)
        | some device ↦
            let k1 = block k process in
            let d = k1.devices device in
            (
              false,
              record k1 {
                devices =
                    update k1.devices device
                      (record d { waiting = Queue.put lib d.waiting process });
              },
            )
      ]

  -- `relayPetition` and `relayTerminate`: the packet goes to the memory server, and its reply to the
  -- process.
  unfoldable pub relay_petition : ℕ → Packet → Kernel F D → ℕ → Packet → Bool × Kernel F D
  relay_petition memory_socket response k process petition =
      let k1 = send k memory_socket petition in
      (true, send k1 (k1.processes process).socket response)

  unfoldable pub terminate_process : Kernel F D → ℕ → Option (Bool × Kernel F D)
  terminate_process k process = do
    let k1 = reply k process Header.ok
    dd' ← Detector.proc_term k1.dd process
    let k2 : Kernel F D = destroy_process (record k1 { dd = dd' }) process
    some (
      false,
      record k2 {
        sem_multiprogram = k2.sem_multiprogram + 1;
        cupos_libres = k2.cupos_libres +ℤ pos 1;
      },
    )
