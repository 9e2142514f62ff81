-- ===== src/Kernel/State.antt =====
-- The kernel's state: kernel/include/kernel.h, process.h, mateSem.h, IODevice.h, and the operations
-- on processes and on semaphores, kernel/src/process.c and mateSem.c.
--
-- A process, a semaphore and a device are addresses into stores of structs. `F` stands for `double`
-- and `D` for the dictionaries of the so-commons library. Each function runs under the mutexes that
-- the C code takes, so as one step; the packets sent and the sockets closed are logs.
use sisop_2c.Prelude.{
  ℕ, ◌+◌, ◌-◌, ◌%◌, ◌^◌, Bool, true, false, not, ◌&&◌, List, [], ◌∷◌, ◌++◌, ℤ, if◌then◌else◌, ◌==◌,
  ltb, update,
}
use sisop_2c.Shared.Commons.{Lists}
use sisop_2c.Shared.Queue
use sisop_2c.Shared.Queue.{Queue}
use sisop_2c.Shared.Networking.{Header, Packet}
use sisop_2c.Kernel.Detector.{Detector}

-- `t_state`
pub data ProcessState : Type 0 where
  new ready blocked exec susp_ready susp_blocked terminated : ProcessState

-- `t_process`; `pid` is the bit pattern of an `int`.
pub record Process (F : Type 0) : Type 0 where
  pub pid : ℕ
  pub socket : ℕ
  pub state : ProcessState
  pub estimate : F
  pub waited_time : F
  pub inited : Bool

-- `createProcess`; `zero` is the 0 of `double`.
abbrev pub create_process : {F : Type 0} → F → ℕ → ℕ → F → Process F
create_process zero id socket estimate = record {
  pid = id;
  socket = socket;
  state = ProcessState.new;
  estimate = estimate;
  waited_time = zero;
  inited = false;
}

-- `t_mateSem`; `sem` is an `unsigned int`.
pub record MateSem : Type 0 where
  pub name : List ℕ
  pub sem : ℕ
  pub waiting : Queue

-- `t_IODevice`
pub record IoDevice : Type 0 where
  pub name : List ℕ
  pub duration : ℕ
  pub waiting : Queue

abbrev pub mate_sem_create : List ℕ → ℕ → MateSem
mate_sem_create name value = record { name = name; sem = value; waiting = Queue.create }

-- What is sent in one call: a packet, or a header alone.
pub data Wire : Type 0 where
  whole : Packet → Wire
  header_only : Header → Wire

pub record Message : Type 0 where
  pub socket : ℕ
  pub wire : Wire

pub record Kernel (F D : Type 0) : Type 0 where
  pub new_queue : Queue
  pub ready_queue : Queue
  pub blocked_queue : Queue
  pub susp_blocked_queue : Queue
  pub susp_ready_queue : Queue
  pub dd : Detector
  pub cupos_libres : ℤ
  pub sem_multiprogram : ℕ
  pub sem_new_process : ℕ
  pub long_term_sem : ℕ
  pub processes : ℕ → Process F
  pub mate_sems : ℕ → MateSem
  pub devices : ℕ → IoDevice
  pub sem_dict : D
  pub io_dict : D
  pub sent : List Message
  pub closed : List ℕ

module _ (lib : Lists) where
  -- The result is true if the process has to wait.
  unfoldable pub mate_sem_wait : MateSem → ℕ → Bool × MateSem
  mate_sem_wait s process =
      if ltb s.sem 1
      then (true, record s { waiting = Queue.put lib s.waiting process })
      else (false, record s { sem = s.sem - 1 })

-- The Boolean is whether the semaphore's thread is signalled.
unfoldable pub mate_sem_post : MateSem → Bool × MateSem
mate_sem_post s =
    (not (Queue.is_empty s.waiting) && s.sem == 0, record s { sem = (s.sem + 1) % 2 ^ 32 })

module _ {F D : Type 0} where
  -- `socket_sendPacket`
  abbrev pub send : Kernel F D → ℕ → Packet → Kernel F D
  send k socket packet = record k {
    sent = k.sent ++ record { socket = socket; wire = Wire.whole packet } ∷ [];
  }

  -- `socket_sendHeader`
  abbrev pub send_header : Kernel F D → ℕ → Header → Kernel F D
  send_header k socket h = record k {
    sent = k.sent ++ record { socket = socket; wire = Wire.header_only h } ∷ [];
  }

  abbrev pub set_process : Kernel F D → ℕ → Process F → Kernel F D
  set_process k a p = record k { processes = update k.processes a p }

  abbrev pub set_state : Kernel F D → ℕ → ProcessState → Kernel F D
  set_state k a s = record k {
    processes = update k.processes a (record (k.processes a) { state = s });
  }

  abbrev pub set_sem : Kernel F D → ℕ → MateSem → Kernel F D
  set_sem k a s = record k { mate_sems = update k.mate_sems a s }

  -- `destroyProcess` closes the socket; the freed struct is not read again.
  abbrev pub destroy_process : Kernel F D → ℕ → Kernel F D
  destroy_process k a = record k { closed = k.closed ++ (k.processes a).socket ∷ [] }
