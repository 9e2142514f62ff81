-- ===== src/Shared/Queue.antt =====
-- The protected queue: shared/src/pQueue.c, shared/include/pQueue.h. `sem` is the value of the
-- counting semaphore; the mutex makes each operation atomic. `take` is `none` while it waits on the
-- semaphore, and then yields `some none` where the C code pops from an empty list.
use sisop_2c.Prelude.{
  ℕ, ◌+◌, ◌-◌, Bool, true, false, Option, none, some, List, [], ◌∷◌, if◌then◌else◌, ◌==◌,
}
use sisop_2c.Shared.Commons.{Lists}
pub mod Order

-- `t_pQueue`
pub record Queue : Type 0 where
  pub elems : List ℕ
  pub sem : ℕ

abbrev pub is_nil : List ℕ → Bool
is_nil [] = true
is_nil (x ∷ xs) = false

abbrev pub create : Queue
create = record { elems = []; sem = 0 }

unfoldable pub is_empty : Queue → Bool
is_empty q = is_nil q.elems

module _ (lib : Lists) where
  open lib use {list_add, list_remove_first, list_remove_last, list_remove_by_condition}

  unfoldable pub put : Queue → ℕ → Queue
  put q elem = record { elems = list_add q.elems elem; sem = q.sem + 1 }

  unfoldable pub take : Queue → Option (Option ℕ × Queue)
  take q =
      let (elem, rest) = list_remove_first q.elems in
      if q.sem == 0 then none else some (elem, record { elems = rest; sem = q.sem - 1 })

  unfoldable pub remove_by : Queue → (ℕ → Bool) → Option ℕ × Queue
  remove_by q condition =
      let (elem, rest) = list_remove_by_condition condition q.elems in
      (elem, record q { elems = rest })

  unfoldable pub take_last : Queue → Option ℕ × Queue
  take_last q = let (elem, rest) = list_remove_last q.elems in (elem, record q { elems = rest })

  unfoldable pub sort : Queue → (ℕ → ℕ → Bool) → Queue
  sort q algorithm = record q { elems = lib.list_sort algorithm q.elems }
