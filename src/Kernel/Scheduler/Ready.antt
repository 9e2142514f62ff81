-- ===== src/Kernel/Scheduler/Ready.antt =====
-- The ready queue after a process has joined it.
use sisop_2c.Prelude.{
  if◌then◌else◌, Bool-cases, inl, inr, other_number, zero, suc, ◌≢◌, ℕ, ◌≡◌, refl, sym, ap, ◌∙◌,
  ◌⊎◌, Bool, true, false, List, update, [], ◌∷◌, ◌++◌, arith, ◌==◌,
}
use sisop_2c.Shared.Commons.{Lists, occurrences, IsSorted}
use sisop_2c.Shared.Queue
use sisop_2c.Kernel.State.{Kernel, Process, ProcessState}
use sisop_2c.Kernel.Scheduler.{Reals, add_wait, put_to_ready, sjf, hrrn, rr}

occurrences-append : (a x : ℕ) (xs : List ℕ) → occurrences a (xs ++ x ∷ []) ≡ occurrences a (x ∷ xs)
occurrences-append a x [] = refl
occurrences-append a x (y ∷ ys) = ground (arith, occurrences-append a x ys)

-- The comparator orders any two processes.
abbrev pub IsTotal : {F : Type 0} → (Process F → Process F → Bool) → Type 0
IsTotal {F} le = (a b : Process F) → (le a b ≡ true) ⊎ (le b a ≡ true)

same_self : (a : ℕ) → (a == a) ≡ true
same_self a = ground arith

module _ {F : Type 0} (reals : Reals F) where
  -- The waiting time after `n` updates.
  abbrev pub longer : ℕ → F → F → F
  longer zero elapsed t = t
  longer (suc n) elapsed t = longer n elapsed (reals.add t elapsed)

  abbrev waiting : Process F → F → Process F
  waiting p t = record p { waited_time = t }

  -- A process of the queue is met, or another one.
  one_longer :
      (elapsed : F) (store : ℕ → Process F) (x a n : ℕ)
      → waiting (update store x (waiting (store x) (reals.add (store x).waited_time elapsed)) a) (
          longer n elapsed
            (update store x
              (waiting (store x) (reals.add (store x).waited_time elapsed))
              a).waited_time)
        ≡ waiting (store a) (longer (if a == x then suc n else n) elapsed (store a).waited_time)
  one_longer elapsed store x a n = elim (Bool-cases (x == a)) [
    | inl e ↦
        let p : x ≡ a = ground arith in let q : (a == x) ≡ true = ground arith in rw (q, e, p) refl
    | inr e ↦ let q : (a == x) ≡ false = ground arith in rw (e, q) refl
  ]

  -- A process waits once longer for each time that it stands in the queue; nothing else changes.
  pub add_wait_lem :
      (elapsed : F) (queue : List ℕ) (store : ℕ → Process F) (a : ℕ)
      → add_wait reals elapsed queue store a
        ≡ waiting (store a) (longer (occurrences a queue) elapsed (store a).waited_time)
  unfolding add_wait
  add_wait_lem elapsed [] store a = refl
  add_wait_lem elapsed (x ∷ xs) store a =
      add_wait_lem elapsed xs _ a ∙ one_longer elapsed store x a (occurrences a xs)

update_other : {A : Type 0} (store : ℕ → A) (x a : ℕ) (p : A) → a ≢ x → update store x p a ≡ store a
update_other store x a p ne = rw (other_number x a (λ e. ne (sym e))) refl

module _ {F D : Type 0} (reals : Reals F) (lib : Lists) where
  pub items-put_to_ready :
      (sorting : Process F → Process F → Bool) (elapsed : F) (k : Kernel F D) (process a : ℕ)
      → occurrences a (put_to_ready reals lib sorting elapsed k process).ready_queue.elems
        ≡ occurrences a (process ∷ k.ready_queue.elems)
  unfolding put_to_ready Queue.sort Queue.put
  items-put_to_ready sorting elapsed k process a =
      lib.list_sort_lem.same_items _ _ a
      ∙ ap (occurrences a) (lib.list_add_lem k.ready_queue.elems process)
      ∙ occurrences-append a process k.ready_queue.elems

  pub state-put_to_ready :
      (sorting : Process F → Process F → Bool) (elapsed : F) (k : Kernel F D) (process : ℕ)
      → ((put_to_ready reals lib sorting elapsed k process).processes process).state
        ≡ ProcessState.ready
  unfolding put_to_ready
  state-put_to_ready sorting elapsed k process = rw (same_self process)

  -- What `putToReady` establishes.
  pub record IsReady (sorting : Process F → Process F → Bool) (elapsed : F) (process : ℕ)
      (k k' : Kernel F D) : Type 0 where
    pub in_order : IsSorted (λ a b. sorting (k'.processes a) (k'.processes b)) k'.ready_queue.elems
    pub items :
        (a : ℕ) → occurrences a k'.ready_queue.elems ≡ occurrences a (process ∷ k.ready_queue.elems)
    pub is_ready : (k'.processes process).state ≡ ProcessState.ready
    pub restarted : (k'.processes process).waited_time ≡ reals.zero
    pub waited :
        (a : ℕ)
        → a ≢ process
        → k'.processes a ≡ record (k.processes a) {
          waited_time =
              longer reals (occurrences a k.ready_queue.elems) elapsed (k.processes a).waited_time;
        }

  -- With a comparator that orders any two processes, `putToReady` leaves the ready queue sorted by
  -- their updated metrics, holding what it held and the process, which is ready and starts to wait.
  -- Every other process has waited the elapsed time longer, once for each place that it had in the
  -- queue, and is otherwise as it was.
  pub put_to_ready-IsReady :
      (sorting : Process F → Process F → Bool) (elapsed : F) (k : Kernel F D) (process : ℕ)
      → IsTotal sorting
      → IsReady sorting elapsed process k (put_to_ready reals lib sorting elapsed k process)
  unfolding put_to_ready Queue.sort Queue.put
  put_to_ready-IsReady sorting elapsed k process total = record {
    in_order = lib.list_sort_lem.sorted _ (λ a b. total _ _) _;
    items = λ a. items-put_to_ready sorting elapsed k process a;
    is_ready = state-put_to_ready sorting elapsed k process;
    restarted = rw (same_self process);
    waited = λ a ne.
        update_other (add_wait reals elapsed k.ready_queue.elems k.processes) process a _ ne
        ∙ add_wait_lem reals elapsed k.ready_queue.elems k.processes a;
  }

-- Both algorithms are such comparators when `double` values are ordered, that is without a NaN.
pub algorithms-IsTotal :
    {F : Type 0} (reals : Reals F)
    → ((x y : F) → (reals.leq x y ≡ true) ⊎ (reals.leq y x ≡ true))
    → IsTotal (sjf reals) × IsTotal (hrrn reals)
unfolding sjf hrrn
algorithms-IsTotal reals ordered =
    (λ a b. ordered a.estimate b.estimate, λ a b. ordered (rr reals b) (rr reals a))
