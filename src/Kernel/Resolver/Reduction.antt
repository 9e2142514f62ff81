-- ===== src/Kernel/Resolver/Reduction.antt =====
-- What the reduction of the deadlock detector computes: an order in which processes can finish, after
-- which no other process can.
use mathlib.Core.Path.{subst}
use sisop_2c.Prelude.{
  ℕ, zero, suc, ◌<◌, ◌≤◌, ◌≡◌, refl, sym, ap, ◌∙◌, ◌⊎◌, inl, inr, Bool, true, false, not, List, [],
  ◌∷◌, ℤ, ◌+ℤ◌, arith, length, All, Bool-cases,
}
use sisop_2c.Kernel.Detector.{Row, Detector}
use sisop_2c.Kernel.Detector.Tables.{IsRow, IsDetector}
use sisop_2c.Kernel.Resolver.{
  Mark, any_nonzero, marks, exceeds, credit, try_finish, pass, passes, reduce,
}

-- The available units after a process has given back what it holds.
unfoldable pub plus : List ℤ → List ℤ → List ℤ
plus [] as' = []
plus (w ∷ ws) [] = w ∷ ws
plus (w ∷ ws) (a ∷ as') = (w +ℤ a) ∷ plus ws as'

-- One process finishes: its requests do not exceed what is available, and it gives back all it holds.
pub data Finish : List Mark → List ℤ → List Mark → List ℤ → Type 0 where
  here :
      {r : Row} {ms : List Mark} {work : List ℤ}
      → exceeds r.request work ≡ false
      → Finish ((r, false) ∷ ms) work ((r, true) ∷ ms) (plus work r.allocation)
  later :
      {m : Mark} {ms ms' : List Mark} {work work' : List ℤ}
      → Finish ms work ms' work'
      → Finish (m ∷ ms) work (m ∷ ms') work'

-- Processes finish one after the other.
pub data Run : List Mark → List ℤ → List Mark → List ℤ → Type 0 where
  stop : {ms : List Mark} {work : List ℤ} → Run ms work ms work
  next :
      {ms ms' ms'' : List Mark} {work work' work'' : List ℤ}
      → Finish ms work ms' work'
      → Run ms' work' ms'' work''
      → Run ms work ms'' work''

-- No process that is not finished can finish.
abbrev pub IsStuck : List ℤ → List Mark → Type 0
IsStuck work = All (λ m. m.1 ≡ false → exceeds m.0.request work ≡ true)

-- A row of `m` cells, which holds something if its process is not finished.
pub record IsMark (m : ℕ) (mark : Mark) : Type 0 where
  pub row : IsRow m mark.0
  pub holds : mark.1 ≡ false → any_nonzero mark.0.allocation ≡ true

pub length-plus : (ws as' : List ℤ) → length (plus ws as') ≡ length ws
unfolding plus
length-plus [] as' = refl
length-plus (w ∷ ws) [] = refl
length-plus (w ∷ ws) (a ∷ as') = ap suc (length-plus ws as')

credit-true : (ws as' : List ℤ) → credit ws as' true ≡ (plus ws as', true)
unfolding credit plus
credit-true [] as' = refl
credit-true (w ∷ ws) [] = refl
credit-true (w ∷ ws) (a ∷ as') = rw (credit-true ws as')

credit_lem :
    (ws as' : List ℤ)
    → length as' ≡ length ws
    → any_nonzero as' ≡ true
    → credit ws as' false ≡ (plus ws as', true)
unfolding credit plus any_nonzero
credit_lem ws [] e h = cc
credit_lem [] (a ∷ as') e h = absurd (omega arith)
credit_lem (w ∷ ws) (a ∷ as') e h = rw (credit-true ws as')

-- A row finishes, or it stays as it is and cannot finish.
data Tried (r : Row) (f : Bool) (work : List ℤ) : Type 0 where
  done : f ≡ true → try_finish (r, f) work ≡ (work, true) → Tried r f work
  finished :
      f ≡ false
      → exceeds r.request work ≡ false
      → try_finish (r, f) work ≡ (plus work r.allocation, true)
      → Tried r f work
  blocked :
      f ≡ false
      → exceeds r.request work ≡ true
      → try_finish (r, f) work ≡ (work, false)
      → Tried r f work

try_finish-cases :
    (r : Row) (f : Bool) (work : List ℤ) → IsMark (length work) (r, f) → Tried r f work
unfolding try_finish
try_finish-cases r true work v = done refl refl
try_finish-cases r false work v = elim (Bool-cases (exceeds r.request work)) [
  | inl e ↦ blocked refl e (rw e)
  | inr e ↦ finished refl e (rw e (credit_lem work r.allocation v.row.allocations (v.holds refl)))
]

Run-later :
    (m : Mark) {ms ms' : List Mark} {work work' : List ℤ}
    → Run ms work ms' work'
    → Run (m ∷ ms) work (m ∷ ms') work'
Run-later m stop = stop
Run-later m (next f r) = next (later f) (Run-later m r)

Run-append : {a b c : List Mark} {u v w : List ℤ} → Run a u b v → Run b v c w → Run a u c w
Run-append stop s = s
Run-append (next f r) s = next f (Run-append r s)

abbrev pub IsMarks : ℕ → List Mark → Type 0
IsMarks m = All (IsMark m)

-- The number of processes that are not finished.
pub pending : List Mark → ℕ
pending [] = 0
pending ((r, true) ∷ ms) = pending ms
pending ((r, false) ∷ ms) = suc (pending ms)

-- What one pass over the processes does.
record Passed (m : ℕ) (ms : List Mark) (work : List ℤ) (res : List Mark × List ℤ) : Type 0 where
  run : Run ms work res.0 res.1
  marked : IsMarks m res.0
  sized : length res.1 ≡ m
  no_more : pending res.0 ≤ pending ms
  progress : (pending res.0 < pending ms) ⊎ ((res ≡ (ms, work)) × IsStuck work ms)

pass_step :
    (r : Row) (f f' : Bool) (ms : List Mark) (work work' : List ℤ)
    → try_finish (r, f) work ≡ (work', f')
    → pass ((r, f) ∷ ms) work ≡ ((r, f') ∷ (pass ms work').0, (pass ms work').1)
unfolding pass
pass_step r f f' ms work work' e = rw e

pass-Passed :
    (m : ℕ) (ms : List Mark) (work : List ℤ)
    → length work ≡ m
    → IsMarks m ms
    → Passed m ms work (pass ms work)
unfolding pending
pass-Passed m [] work e v =
    unfold pass in
    record { run = stop; marked = tt; sized = e; no_more = omega arith; progress = inr (refl, tt) }
pass-Passed m ((r, f) ∷ ms) work e v =
    by_row (try_finish-cases r f work (rw e v.0)) (pass-Passed m ms work e v.1)
      (pass-Passed m ms (plus work r.allocation) (length-plus work r.allocation ∙ e) v.1)
  where
    by_row :
        Tried r f work
        → Passed m ms work (pass ms work)
        → Passed m ms (plus work r.allocation) (pass ms (plus work r.allocation))
        → Passed m ((r, f) ∷ ms) work (pass ((r, f) ∷ ms) work)
    by_row (done x t) p q =
        rw (pass_step r f true ms work work t, x)
          (record {
            run = Run-later (r, true) p.run;
            marked = (record { row = v.0.row; holds = λ e. cc }, p.marked);
            sized = p.sized;
            no_more = p.no_more;
            progress = elim p.progress [
              | inl h ↦ inl h
              | inr (h, k) ↦ inr (ap (λ s. ((r, true) ∷ s.0, s.1)) h, ((λ e. cc), k))
            ];
          })
    by_row (finished x y t) p q =
        rw (pass_step r f true ms work (plus work r.allocation) t, x)
          (record {
            run = next (here y) (Run-later (r, true) q.run);
            marked = (record { row = v.0.row; holds = λ e. cc }, q.marked);
            sized = q.sized;
            no_more = omega (arith, q.no_more);
            progress = inl (omega (arith, q.no_more));
          })
    by_row (blocked x y t) p q =
        rw (pass_step r f false ms work work t, x)
          (record {
            run = Run-later (r, false) p.run;
            marked = (record { row = v.0.row; holds = λ _. v.0.holds x }, p.marked);
            sized = p.sized;
            no_more = omega (arith, p.no_more);
            progress = elim p.progress [
              | inl h ↦ inl (omega arith)
              | inr (h, k) ↦ inr (ap (λ s. ((r, false) ∷ s.0, s.1)) h, ((λ _. y), k))
            ];
          })

IsStuck-of_done : (ms : List Mark) (work : List ℤ) → pending ms ≤ 0 → IsStuck work ms
unfolding pending
IsStuck-of_done [] work h = tt
IsStuck-of_done ((r, true) ∷ ms) work h = ((λ e. cc), IsStuck-of_done ms work h)
IsStuck-of_done ((r, false) ∷ ms) work h = absurd (omega arith)

passes_fixed :
    (n : ℕ) (ms : List Mark) (work : List ℤ)
    → pass ms work ≡ (ms, work)
    → passes n ms work ≡ (ms, work)
unfolding passes
passes_fixed zero ms work e = refl
passes_fixed (suc n) ms work e = rw e (passes_fixed n ms work e)

-- Processes finish in some order, and then none is left that can finish.
pub record Reduced (ms : List Mark) (work : List ℤ) (res : List Mark × List ℤ) : Type 0 where
  pub run : Run ms work res.0 res.1
  pub stuck : IsStuck res.1 res.0

-- As many passes as processes are pending are enough.
passes-Reduced :
    (m n : ℕ) (ms : List Mark) (work : List ℤ)
    → length work ≡ m
    → IsMarks m ms
    → pending ms ≤ n
    → Reduced ms work (passes n ms work)
unfolding passes
passes-Reduced m zero ms work e v h = record { run = stop; stuck = IsStuck-of_done ms work h }
passes-Reduced m (suc n) ms work e v h =
    further (pass-Passed m ms work e v)
      (λ k. passes-Reduced m n (pass ms work).0 (pass ms work).1 k)
  where
    further :
        Passed m ms work (pass ms work)
        → (length (pass ms work).1 ≡ m
            → IsMarks m (pass ms work).0
            → pending (pass ms work).0 ≤ n
            → Reduced
                (pass ms work).0
                (pass ms work).1
                (passes n (pass ms work).0 (pass ms work).1))
        → Reduced ms work (passes (suc n) ms work)
    further p rest = elim p.progress [
      | inl less ↦
          (let r = rest p.sized p.marked (omega arith) in
            record { run = Run-append p.run r.run; stuck = r.stuck })
      | inr (fixed, stuck) ↦
          subst (Reduced ms work) (sym (passes_fixed (suc n) ms work fixed))
            (record { run = stop; stuck = stuck })
    ]

not-false : (b : Bool) → not b ≡ false → b ≡ true
not-false b h = ground arith

marks-IsMarks : (m : ℕ) (rows : List Row) → All (IsRow m) rows → IsMarks m (marks rows)
unfolding marks
marks-IsMarks m [] v = tt
marks-IsMarks m (r ∷ rows) v =
    (record { row = v.0; holds = not-false (any_nonzero r.allocation) }, marks-IsMarks m rows v.1)

pending-marks : (rows : List Row) → pending (marks rows) ≤ length rows
unfolding marks pending
pending-marks [] = omega arith
pending-marks (r ∷ rows) = elim (Bool-cases (any_nonzero r.allocation)) [
  | inl e ↦ rw (e, pending) (omega (arith, pending-marks rows))
  | inr e ↦ rw (e, pending) (omega (arith, pending-marks rows))
]

-- On well-formed tables the reduction of `findDeadlocks` lets processes finish one after the other,
-- each with requests that do not exceed what is available at that point, and stops where no process
-- that is not finished can finish: the `n` rounds of its loop are enough.
pub reduce-Reduced :
    (dd : Detector) → IsDetector dd → Reduced (marks dd.rows) dd.available (reduce dd)
unfolding reduce
reduce-Reduced dd v =
    passes-Reduced (length dd.sems) (length dd.rows) (marks dd.rows) dd.available v.counters
      (marks-IsMarks (length dd.sems) dd.rows v.tables) (pending-marks dd.rows)
