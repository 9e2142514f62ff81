-- ===== src/Kernel/Resolver/Maximal.antt =====
-- The reduction of the deadlock detector lets every process finish that can finish in some order.
use sisop_2c.Prelude.{
  ℕ, ◌≡◌, refl, sym, ap, ap₂, ◌∙◌, ◌⊎◌, inl, inr, true, false, not, ◌&&◌, List, [], ◌∷◌, ℤ, ◌+ℤ◌,
  ◌≤ℤ◌, int_laws, arith, if◌then◌else◌, length, All, Bool-cases,
}
use sisop_2c.Kernel.Detector.{Row, Detector}
use sisop_2c.Kernel.Detector.Tables.{IsRow, IsDetector, IsNonneg}
use sisop_2c.Kernel.Resolver.{Mark, marks, exceeds, reduce}
use sisop_2c.Kernel.Resolver.Reduction.{
  plus, Finish, here, later, Run, stop, next, IsStuck, reduce-Reduced,
}

-- The same rows, and whoever is finished on the left is finished on the right.
abbrev pub Within : List Mark → List Mark → Type 0
Within [] [] = Unit
Within [] (m ∷ ms) = ⊥
Within (m ∷ ms) [] = ⊥
Within ((r, f) ∷ ms) ((s, g) ∷ ns) = (r ≡ s) × (f ≡ true → g ≡ true) × Within ms ns

-- What is available once those who are finished only on the right have given back what they hold.
owed : List Mark → List Mark → List ℤ → List ℤ
owed [] ns work = work
owed ((r, f) ∷ ms) [] work = work
owed ((r, f) ∷ ms) ((s, g) ∷ ns) work =
    owed ms ns (if not f && g then plus work r.allocation else work)

abbrev Below : List ℤ → List ℤ → Type 0
Below [] [] = Unit
Below [] (v ∷ vs) = ⊥
Below (w ∷ ws) [] = ⊥
Below (w ∷ ws) (v ∷ vs) = (w ≤ℤ v) × Below ws vs

Within-refl : (ms : List Mark) → Within ms ms
Within-refl [] = tt
Within-refl ((r, f) ∷ ms) = (refl, (λ e. e), Within-refl ms)

owed_refl : (ms : List Mark) (work : List ℤ) → owed ms ms work ≡ work
unfolding owed
owed_refl [] work = refl
owed_refl ((r, true) ∷ ms) work = owed_refl ms work
owed_refl ((r, false) ∷ ms) work = owed_refl ms work

plus_swap : (w a b : List ℤ) → plus (plus w a) b ≡ plus (plus w b) a
unfolding plus
plus_swap [] a b = refl
plus_swap (w ∷ ws) [] [] = refl
plus_swap (w ∷ ws) [] (b ∷ bs) = refl
plus_swap (w ∷ ws) (a ∷ as') [] = refl
plus_swap (w ∷ ws) (a ∷ as') (b ∷ bs) = ap₂ (λ x xs. x ∷ xs) (swap w a b) (plus_swap ws as' bs)
  where
    swap : (w a b : ℤ) → w +ℤ a +ℤ b ≡ w +ℤ b +ℤ a
    swap w a b = omega int_laws

-- A process that finishes on the left moves what it holds from what is owed to what is available.
Finish-owed :
    {ms ms' : List Mark} {w w' : List ℤ}
    → Finish ms w ms' w'
    → (a : List ℤ) × (w' ≡ plus w a)
      × ((ns : List Mark) (v : List ℤ) → Within ms' ns → owed ms' ns (plus v a) ≡ owed ms ns v)
unfolding owed
Finish-owed (here {r} {ms} {work} e) = (r.allocation, refl, same)
  where
    same :
        (ns : List Mark) (v : List ℤ)
        → Within ((r, true) ∷ ms) ns
        → owed ((r, true) ∷ ms) ns (plus v r.allocation) ≡ owed ((r, false) ∷ ms) ns v
    same [] v h = absurd h
    same ((s, g) ∷ ns) v h = rw (h.1 refl)
Finish-owed (later {m = (r, f)} {ms} {ms'} step) =
    let (a, e, rest) = Finish-owed step in (a, e, same a rest)
  where
    same :
        (a : List ℤ)
        → ((ns : List Mark) (v : List ℤ) → Within ms' ns → owed ms' ns (plus v a) ≡ owed ms ns v)
        → (ns : List Mark) (v : List ℤ) → Within ((r, f) ∷ ms') ns
        → owed ((r, f) ∷ ms') ns (plus v a) ≡ owed ((r, f) ∷ ms) ns v
    same a rest [] v h = absurd h
    same a rest ((s, g) ∷ ns) v h = elim (Bool-cases (not f && g)) [
      | inl e ↦
          rw e (ap (owed ms' ns) (plus_swap v a r.allocation) ∙ rest ns (plus v r.allocation) h.2)
      | inr e ↦ rw e (rest ns v h.2)
    ]

-- Whoever finishes in a run is finished at its end.
Finish-Within :
    {ms ms' : List Mark} {w w' : List ℤ}
    → Finish ms w ms' w'
    → (ns : List Mark) → Within ms' ns
    → Within ms ns
Finish-Within (here e) [] h = absurd h
Finish-Within (here e) ((s, g) ∷ ns) h = (h.0, (λ x. absurd (false-ne-true x)), h.2)
  where
    false-ne-true : false ≡ true → ⊥
    false-ne-true x = cc
Finish-Within (later {m = (r, f)} step) [] h = absurd h
Finish-Within (later {m = (r, f)} step) ((s, g) ∷ ns) h = (h.0, h.1, Finish-Within step ns h.2)

Run-owed : {ms ns : List Mark} {w v : List ℤ} → Run ms w ns v → Within ms ns × (owed ms ns w ≡ v)
Run-owed (stop {ms} {work}) = (Within-refl ms, owed_refl ms work)
Run-owed (next {ms} {ms'} {ms'' = ns} {work = w} step run) =
    let (inside, total) = Run-owed run in
    let (a, e, same) = Finish-owed step in
    (Finish-Within step ns inside, sym (same ns w inside) ∙ ap (owed ms' ns) (sym e) ∙ total)

-- No allocation is negative, in any row.
abbrev IsHeld : List Mark → Type 0
IsHeld = All (λ m. All IsNonneg m.0.allocation)

Below-refl : (w : List ℤ) → Below w w
Below-refl [] = tt
Below-refl (w ∷ ws) = (omega arith, Below-refl ws)

Below-plus : (u w a : List ℤ) → Below u w → All IsNonneg a → Below u (plus w a)
unfolding plus
Below-plus [] [] a h n = tt
Below-plus [] (w ∷ ws) a h n = absurd h
Below-plus (u ∷ us) [] a h n = absurd h
Below-plus (u ∷ us) (w ∷ ws) [] h n = h
Below-plus (u ∷ us) (w ∷ ws) (a ∷ as') h n = (omega int_laws, Below-plus us ws as' h.1 n.1)

Below-owed : (ms ns : List Mark) (u w : List ℤ) → IsHeld ms → Below u w → Below u (owed ms ns w)
unfolding owed
Below-owed [] ns u w n h = h
Below-owed ((r, f) ∷ ms) [] u w n h = h
Below-owed ((r, f) ∷ ms) ((s, g) ∷ ns) u w n h = elim (Bool-cases (not f && g)) [
  | inl e ↦ rw e (Below-owed ms ns u (plus w r.allocation) n.1 (Below-plus u w r.allocation h n.0))
  | inr e ↦ rw e (Below-owed ms ns u w n.1 h)
]

exceeds-Below : (r u w : List ℤ) → Below u w → exceeds r u ≡ false → exceeds r w ≡ false
unfolding exceeds
exceeds-Below [] u w h e = refl
exceeds-Below (r ∷ rs) [] [] h e = refl
exceeds-Below (r ∷ rs) [] (w ∷ ws) h e = absurd h
exceeds-Below (r ∷ rs) (u ∷ us) [] h e = absurd h
exceeds-Below (r ∷ rs) (u ∷ us) (w ∷ ws) h e = ground (arith, exceeds-Below rs us ws h.1)

-- A process that can finish with less is finished where no one else can.
Finish-inside :
    {ms ms' : List Mark} {w w' : List ℤ}
    → Finish ms w ms' w'
    → (ns : List Mark) (v : List ℤ) → Below w v
    → IsStuck v ns
    → Within ms ns
    → Within ms' ns
Finish-inside (here e) [] v b s h = absurd h
Finish-inside (here {r} {ms} {work} e) ((t, g) ∷ ns) v b s h =
    (h.0, (λ _. finished (Bool-cases g)), h.2)
  where
    clash : exceeds r.request v ≡ true → ⊥
    clash x = cc (x, exceeds-Below r.request work v b e)

    finished : (g ≡ true) ⊎ (g ≡ false) → g ≡ true
    finished (inl x) = x
    finished (inr x) = absurd (clash (rw h.0 (s.0 x)))
Finish-inside (later step) [] v b s h = absurd h
Finish-inside (later {m = (r, f)} step) ((t, g) ∷ ns) v b s h =
    (h.0, h.1, Finish-inside step ns v b s.1 h.2)

Finish-IsHeld : {ms ms' : List Mark} {w w' : List ℤ} → Finish ms w ms' w' → IsHeld ms → IsHeld ms'
Finish-IsHeld (here e) h = h
Finish-IsHeld (later step) h = (h.0, Finish-IsHeld step h.1)

Run-inside :
    {ms ms' : List Mark} {w w' : List ℤ}
    → Run ms w ms' w'
    → (ns : List Mark) (v : List ℤ) → IsHeld ms
    → IsStuck v ns
    → Within ms ns
    → owed ms ns w ≡ v
    → Within ms' ns
Run-inside stop ns v n s h e = h
Run-inside (next {ms} {ms'} {work = w} step run) ns v n s h e =
    let inside = Finish-inside step ns v (rw (← e) (Below-owed ms ns w w n (Below-refl w))) s h in
    let (a, split, same) = Finish-owed step in
    Run-inside run ns v (Finish-IsHeld step n) s inside
      (ap (owed ms' ns) split ∙ same ns w inside ∙ e)

marks-IsHeld : (m : ℕ) (rows : List Row) → All (IsRow m) rows → IsHeld (marks rows)
unfolding marks
marks-IsHeld m [] v = tt
marks-IsHeld m (r ∷ rows) v = (v.0.held, marks-IsHeld m rows v.1)

-- On well-formed tables, a process that finishes in some order of completion, whatever the order, is
-- one that the reduction of `findDeadlocks` marks as finished: what it leaves unmarked is deadlocked.
pub reduce_maximal :
    (dd : Detector) (ms : List Mark) (work : List ℤ)
    → IsDetector dd
    → Run (marks dd.rows) dd.available ms work
    → Within ms (reduce dd).0
reduce_maximal dd ms work v run =
    let r = reduce-Reduced dd v in
    let (inside, total) = Run-owed r.run in
    Run-inside run (reduce dd).0 (reduce dd).1 (marks-IsHeld (length dd.sems) dd.rows v.tables)
      r.stuck inside total
