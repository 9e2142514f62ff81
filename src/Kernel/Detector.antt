-- ===== src/Kernel/Detector.antt =====
-- The tables of the deadlock detector: kernel/src/deadlockDetector.c, kernel/include/deadlockDetector.h.
--
-- A semaphore and a process are the addresses of their structs. The arrays `procs`, `allocation` and
-- `request`, which share the index `i < n`, are one list of rows; `sems` and `available` share the
-- index `j < m`. `n` and `m` are the lengths. A search that leaves its array is `none`.
use sisop_2c.Prelude.{
  ℕ, ◌+◌, Bool, Option, none, some, ◌>>=◌, List, [], ◌∷◌, ◌++◌, map, ℤ, pos, ◌+ℤ◌, ◌-ℤ◌, is_nonzero,
  if◌then◌else◌, ◌==◌, find_index, length, replicate, modify, remove_at,
}
pub mod Tables
pub mod Units

pub record Row : Type 0 where
  pub proc : ℕ
  pub allocation : List ℤ
  pub request : List ℤ

-- `t_deadlockDetector`
pub record Detector : Type 0 where
  pub sems : List ℕ
  pub available : List ℤ
  pub rows : List Row

-- `x++` and `x--` on an `int`.
abbrev pub inc : ℤ → ℤ
inc x = x +ℤ pos 1

abbrev pub dec : ℤ → ℤ
dec x = x -ℤ pos 1

-- `createDeadlockDetector`
abbrev pub create : Detector
create = record { sems = []; available = []; rows = [] }

-- `while (dd->sems[j] != sem) j++;`
unfoldable pub sem_index : Detector → ℕ → Option ℕ
sem_index dd sem = find_index (λ s. s == sem) dd.sems

-- `while (dd->procs[i] != proc) i++;`
unfoldable pub proc_index : Detector → ℕ → Option ℕ
proc_index dd proc = find_index (λ r. r.proc == proc) dd.rows

abbrev pub widen : Row → Row
widen r = record r { allocation = r.allocation ++ pos 0 ∷ []; request = r.request ++ pos 0 ∷ [] }

unfoldable pub sem_init : Detector → ℕ → ℤ → Detector
sem_init dd new_sem new_sem_value = record {
  sems = dd.sems ++ new_sem ∷ [];
  available = dd.available ++ new_sem_value ∷ [];
  rows = map widen dd.rows;
}

abbrev pub grant : ℕ → Row → Row
grant j r = record r { allocation = modify r.allocation j inc }

unfoldable pub sem_allocated_instant : Detector → ℕ → ℕ → Option Detector
sem_allocated_instant dd proc sem = do
  j ← sem_index dd sem
  i ← proc_index dd proc
  some (record dd { available = modify dd.available j dec; rows = modify dd.rows i (grant j) })

abbrev pub grant_requested : ℕ → Row → Row
grant_requested j r = record r {
  request = modify r.request j dec;
  allocation = modify r.allocation j inc;
}

unfoldable pub sem_allocated : Detector → ℕ → ℕ → Option Detector
sem_allocated dd proc sem = do
  j ← sem_index dd sem
  i ← proc_index dd proc
  some (record dd {
    available = modify dd.available j dec;
    rows = modify dd.rows i (grant_requested j);
  })

abbrev pub ask : ℕ → Row → Row
ask j r = record r { request = modify r.request j inc }

unfoldable pub sem_requested : Detector → ℕ → ℕ → Option Detector
sem_requested dd proc sem = do
  j ← sem_index dd sem
  i ← proc_index dd proc
  some (record dd { rows = modify dd.rows i (ask j) })

-- `if(dd->allocation[i][j]) dd->allocation[i][j]--;`
abbrev pub dec_nonzero : ℤ → ℤ
dec_nonzero x = if is_nonzero x then dec x else x

abbrev pub give_back : ℕ → Row → Row
give_back j r = record r { allocation = modify r.allocation j dec_nonzero }

unfoldable pub sem_release : Detector → ℕ → ℕ → Option Detector
sem_release dd proc sem = do
  j ← sem_index dd sem
  i ← proc_index dd proc
  some (record dd { available = modify dd.available j inc; rows = modify dd.rows i (give_back j) })

abbrev pub narrow : ℕ → Row → Row
narrow j r = record r { allocation = remove_at r.allocation j; request = remove_at r.request j }

unfoldable pub sem_destroy : Detector → ℕ → Option Detector
sem_destroy dd sem = do
  j ← sem_index dd sem
  some (record {
    sems = remove_at dd.sems j;
    available = remove_at dd.available j;
    rows = map (narrow j) dd.rows;
  })

unfoldable pub proc_init : Detector → ℕ → Detector
proc_init dd new_proc =
    let zeros : List ℤ = replicate (length dd.sems) (pos 0) in
    record dd {
      rows = dd.rows ++ record { proc = new_proc; allocation = zeros; request = zeros } ∷ [];
    }

unfoldable pub proc_term : Detector → ℕ → Option Detector
proc_term dd proc = do i ← proc_index dd proc; some (record dd { rows = remove_at dd.rows i })
