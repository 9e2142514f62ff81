-- ===== src/Kernel/Detector/Tables.antt =====
-- The tables keep their shape, hold no negative allocation, and account for every unit of a
-- semaphore.
use sisop_2c.Prelude.{
  ℕ, zero, suc, ◌+◌, ◌≡◌, refl, ap, ◌∙◌, Option, none, some, ◌>>=◌, List, [], ◌∷◌, ◌++◌, map, ℤ,
  pos, negsuc, ◌-ℤ◌, ◌≤ℤ◌, int_laws, arith, length, replicate, modify, remove_at, length-append,
  length-modify, length-replicate, All, All-append, All-modify, All-remove_at, All-map,
}
use sisop_2c.Kernel.Detector.{
  Row, Detector, inc, dec, widen, grant, grant_requested, ask, give_back, dec_nonzero, narrow,
  sem_index, proc_index, sem_init, sem_allocated_instant, sem_allocated, sem_requested, sem_release,
  sem_destroy, proc_init, proc_term,
}

abbrev pub IsNonneg : ℤ → Type 0
IsNonneg x = pos 0 ≤ℤ x

-- A row has a cell for each of the `m` semaphores, and no negative allocation.
pub record IsRow (m : ℕ) (r : Row) : Type 0 where
  pub allocations : length r.allocation ≡ m
  pub requests : length r.request ≡ m
  pub held : All IsNonneg r.allocation

pub record IsDetector (dd : Detector) : Type 0 where
  pub counters : length dd.available ≡ length dd.sems
  pub tables : All (IsRow (length dd.sems)) dd.rows

length-remove_at {ℓ} :
    {A B : Type ℓ} (xs : List A) (ys : List B) (i : ℕ)
    → length xs ≡ length ys
    → length (remove_at xs i) ≡ length (remove_at ys i)
length-remove_at [] [] i h = refl
length-remove_at [] (y ∷ ys) i h = absurd (omega arith)
length-remove_at (x ∷ xs) [] i h = absurd (omega arith)
length-remove_at (x ∷ xs) (y ∷ ys) zero h = omega arith
length-remove_at (x ∷ xs) (y ∷ ys) (suc i) h = ap suc (length-remove_at xs ys i (omega arith))

widen-IsRow : (m k : ℕ) → k ≡ m + 1 → (r : Row) → IsRow m r → IsRow k (widen r)
widen-IsRow m k e r v = record {
  allocations = omega (arith, length-append r.allocation (pos 0 ∷ []), v.allocations);
  requests = omega (arith, length-append r.request (pos 0 ∷ []), v.requests);
  held = All-append IsNonneg r.allocation (pos 0 ∷ []) v.held (omega arith, tt);
}

inc-IsNonneg : (x : ℤ) → IsNonneg x → IsNonneg (inc x)
inc-IsNonneg x h = omega int_laws

dec_nonzero-IsNonneg : (x : ℤ) → IsNonneg x → IsNonneg (dec_nonzero x)
unfolding ◌-ℤ◌
dec_nonzero-IsNonneg (pos zero) h = omega arith
dec_nonzero-IsNonneg (pos (suc n)) h = ground arith
dec_nonzero-IsNonneg (negsuc n) h = absurd (omega arith)

module _ (m j : ℕ) where
  grant-IsRow : (r : Row) → IsRow m r → IsRow m (grant j r)
  grant-IsRow r v = record {
    allocations = length-modify r.allocation j inc ∙ v.allocations;
    requests = v.requests;
    held = All-modify IsNonneg r.allocation j inc inc-IsNonneg v.held;
  }

  grant_requested-IsRow : (r : Row) → IsRow m r → IsRow m (grant_requested j r)
  grant_requested-IsRow r v = record {
    allocations = length-modify r.allocation j inc ∙ v.allocations;
    requests = length-modify r.request j dec ∙ v.requests;
    held = All-modify IsNonneg r.allocation j inc inc-IsNonneg v.held;
  }

  ask-IsRow : (r : Row) → IsRow m r → IsRow m (ask j r)
  ask-IsRow r v = record {
    allocations = v.allocations;
    requests = length-modify r.request j inc ∙ v.requests;
    held = v.held;
  }

  give_back-IsRow : (r : Row) → IsRow m r → IsRow m (give_back j r)
  give_back-IsRow r v = record {
    allocations = length-modify r.allocation j dec_nonzero ∙ v.allocations;
    requests = v.requests;
    held = All-modify IsNonneg r.allocation j dec_nonzero dec_nonzero-IsNonneg v.held;
  }

narrow-IsRow :
    (sems : List ℕ) (j : ℕ) (r : Row)
    → IsRow (length sems) r
    → IsRow (length (remove_at sems j)) (narrow j r)
narrow-IsRow sems j r v = record {
  allocations = length-remove_at r.allocation sems j v.allocations;
  requests = length-remove_at r.request sems j v.requests;
  held = All-remove_at IsNonneg r.allocation j v.held;
}

zeros-IsNonneg : (n : ℕ) → All IsNonneg (replicate n (pos 0))
zeros-IsNonneg zero = tt
zeros-IsNonneg (suc n) = (omega arith, zeros-IsNonneg n)

-- What an operation that may fault leaves, if it does not.
abbrev pub Leaves : Option Detector → Type 0
Leaves none = Unit
Leaves (some dd) = IsDetector dd

-- The operations that can leave an array leave well-formed tables when they do not.
pub record Keeps (dd : Detector) (proc sem : ℕ) (value : ℤ) : Type 0 where
  pub init : IsDetector (sem_init dd sem value)
  pub instant : Leaves (sem_allocated_instant dd proc sem)
  pub allocated : Leaves (sem_allocated dd proc sem)
  pub requested : Leaves (sem_requested dd proc sem)
  pub released : Leaves (sem_release dd proc sem)
  pub destroyed : Leaves (sem_destroy dd sem)
  pub started : IsDetector (proc_init dd proc)
  pub terminated : Leaves (proc_term dd proc)

module _ (dd : Detector) (v : IsDetector dd) where
  -- A change of one row, and of one counter, under two searches.
  on_cell :
      (sem : Option ℕ) (proc : Option ℕ) (f : ℤ → ℤ) (g : ℕ → Row → Row)
      → ((j : ℕ) (r : Row) → IsRow (length dd.sems) r → IsRow (length dd.sems) (g j r))
      → Leaves (do
        j ← sem
        i ← proc
        some (record dd { available = modify dd.available j f; rows = modify dd.rows i (g j) }))
  on_cell none proc f g keep = tt
  on_cell (some j) none f g keep = tt
  on_cell (some j) (some i) f g keep = record {
    counters = length-modify dd.available j f ∙ v.counters;
    tables = All-modify (IsRow (length dd.sems)) dd.rows i (g j) (keep j) v.tables;
  }

  on_row :
      (sem : Option ℕ) (proc : Option ℕ)
      → Leaves (do j ← sem; i ← proc; some (record dd { rows = modify dd.rows i (ask j) }))
  on_row none proc = tt
  on_row (some j) none = tt
  on_row (some j) (some i) = record {
    counters = v.counters;
    tables =
        All-modify (IsRow (length dd.sems)) dd.rows i (ask j) (ask-IsRow (length dd.sems) j)
          v.tables;
  }

  sem_init-IsDetector : (sem : ℕ) (value : ℤ) → IsDetector (sem_init dd sem value)
  unfolding sem_init
  sem_init-IsDetector sem value = record {
    counters = omega (
      arith,
      length-append dd.available (value ∷ []),
      length-append dd.sems (sem ∷ []),
      v.counters,
    );
    tables =
        All-map (IsRow (length (dd.sems ++ sem ∷ []))) (IsRow (length dd.sems)) widen
          (widen-IsRow (length dd.sems) _ (omega (arith, length-append dd.sems (sem ∷ [])))) dd.rows
          v.tables;
  }

  without_sem :
      (sem : Option ℕ)
      → Leaves (do
        j ← sem
        some (record {
          sems = remove_at dd.sems j;
          available = remove_at dd.available j;
          rows = map (narrow j) dd.rows;
        }))
  without_sem none = tt
  without_sem (some j) = record {
    counters = length-remove_at dd.available dd.sems j v.counters;
    tables =
        All-map (IsRow (length (remove_at dd.sems j))) (IsRow (length dd.sems)) (narrow j)
          (narrow-IsRow dd.sems j) dd.rows v.tables;
  }

  without_proc :
      (proc : Option ℕ) → Leaves (do i ← proc; some (record dd { rows = remove_at dd.rows i }))
  without_proc none = tt
  without_proc (some i) = record {
    counters = v.counters;
    tables = All-remove_at (IsRow (length dd.sems)) dd.rows i v.tables;
  }

  proc_init-IsDetector : (proc : ℕ) → IsDetector (proc_init dd proc)
  unfolding proc_init
  proc_init-IsDetector proc = record {
    counters = v.counters;
    tables = All-append (IsRow (length dd.sems)) dd.rows _ v.tables (
      record {
        allocations = length-replicate (length dd.sems) (pos 0);
        requests = length-replicate (length dd.sems) (pos 0);
        held = zeros-IsNonneg (length dd.sems);
      },
      tt,
    );
  }

-- Every operation keeps the tables well formed: a counter and a cell of each row for each semaphore,
-- and no negative allocation.
pub operations-IsDetector :
    (dd : Detector) (proc sem : ℕ) (value : ℤ) → IsDetector dd → Keeps dd proc sem value
unfolding sem_allocated_instant sem_allocated sem_requested sem_release sem_destroy proc_term
operations-IsDetector dd proc sem value v = record {
  init = sem_init-IsDetector dd v sem value;
  instant =
      on_cell dd v (sem_index dd sem) (proc_index dd proc) dec grant (grant-IsRow (length dd.sems));
  allocated =
      on_cell dd v (sem_index dd sem) (proc_index dd proc) dec grant_requested
        (grant_requested-IsRow (length dd.sems));
  requested = on_row dd v (sem_index dd sem) (proc_index dd proc);
  released =
      on_cell dd v (sem_index dd sem) (proc_index dd proc) inc give_back
        (give_back-IsRow (length dd.sems));
  destroyed = without_sem dd v (sem_index dd sem);
  started = proc_init-IsDetector dd v proc;
  terminated = without_proc dd v (proc_index dd proc);
}
