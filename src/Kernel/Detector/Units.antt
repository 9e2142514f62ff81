-- ===== src/Kernel/Detector/Units.antt =====
-- Every unit of a semaphore is available or allocated.
use sisop_2c.Prelude.{
  ℕ, zero, suc, ◌<◌, ◌≡◌, ◌≢◌, refl, ap, ◌∙◌, ◌⊎◌, inl, inr, Bool, true, false, Option, none, some,
  ◌>>=◌, List, [], ◌∷◌, ℤ, pos, negsuc, ◌+ℤ◌, int_laws, arith, if◌then◌else◌, ◌==◌, length, get_or,
  modify, get_or-modify_self, get_or-modify_ne, All, IsFirst-of_find_index, ℕ_discrete,
  some_injective,
}
use sisop_2c.Kernel.Detector.{
  Row, Detector, inc, dec, grant, grant_requested, sem_index, proc_index, sem_allocated_instant,
  sem_allocated,
}
use sisop_2c.Kernel.Detector.Tables.{IsRow, IsDetector}

-- `allocation[i][k]`, and what all processes hold of semaphore `k`.
abbrev pub cell : ℕ → Row → ℤ
cell k r = get_or r.allocation k (pos 0)

pub held : ℕ → List Row → ℤ
held k [] = pos 0
held k (r ∷ rs) = cell k r +ℤ held k rs

-- The units of semaphore `k`: those available and those held.
pub units : ℕ → Detector → ℤ
units k dd = get_or dd.available k (pos 0) +ℤ held k dd.rows

-- A change of the cell of one row changes the sum by as much.
held-modify :
    (k m : ℕ) (g : Row → Row) (δ : ℤ) (rows : List Row) (i : ℕ)
    → i < length rows
    → ((r : Row)
        → r ≡ get_or rows i (record { proc = 0; allocation = []; request = [] })
        → IsRow m r
        → cell k (g r) ≡ cell k r +ℤ δ)
    → All (IsRow m) rows
    → held k (modify rows i g) ≡ held k rows +ℤ δ
unfolding held
held-modify k m g δ [] i h change v = absurd (omega arith)
held-modify k m g δ (r ∷ rows) zero h change v = rw (change r refl v.0) (omega int_laws)
held-modify k m g δ (r ∷ rows) (suc i) h change v =
    rw (held-modify k m g δ rows i (omega arith) change v.1) (omega int_laws)

blank_row : Row
blank_row = record { proc = 0; allocation = []; request = [] }

-- The change that `f` makes at cell `j`, seen at cell `k`.
modify-cell :
    (xs : List ℤ) (j k : ℕ) (f : ℤ → ℤ) (δ : ℤ)
    → j < length xs
    → f (get_or xs j (pos 0)) ≡ get_or xs j (pos 0) +ℤ δ
    → get_or (modify xs j f) k (pos 0) ≡ get_or xs k (pos 0) +ℤ (if j == k then δ else pos 0)
modify-cell xs j k f δ h e = elim (ℕ_discrete j k) [
  | yes p ↦
      rw (← p)
        (get_or-modify_self xs j f (pos 0) h ∙ e ∙ ap (λ d. get_or xs j (pos 0) +ℤ d) (same j δ))
  | no p ↦ get_or-modify_ne xs j k f (pos 0) p ∙ other p
]
  where
    same : (j : ℕ) (δ : ℤ) → δ ≡ (if j == j then δ else pos 0)
    same j δ = ground arith

    other : j ≢ k → get_or xs k (pos 0) ≡ get_or xs k (pos 0) +ℤ (if j == k then δ else pos 0)
    other p = let e : (if j == k then δ else pos 0) ≡ pos 0 = ground arith in rw e (omega int_laws)

module _ (dd : Detector) (v : IsDetector dd) (proc sem : ℕ) where
  sem_index_inside : (j : ℕ) → sem_index dd sem ≡ some j → j < length dd.sems
  unfolding sem_index
  sem_index_inside j e = (IsFirst-of_find_index (λ s. s == sem) dd.sems 0 j e).inside

  proc_index_inside : (i : ℕ) → proc_index dd proc ≡ some i → i < length dd.rows
  unfolding proc_index
  proc_index_inside i e = (IsFirst-of_find_index (λ r. r.proc == proc) dd.rows blank_row i e).inside

  -- A unit that goes from the counter to a row is still counted.
  moved :
      (j i : ℕ) (f : ℤ → ℤ) (g : Row → Row) (δ ε : ℤ) (k : ℕ)
      → j < length dd.sems
      → i < length dd.rows
      → ((x : ℤ) → f x ≡ x +ℤ δ)
      → ((r : Row)
          → r ≡ get_or dd.rows i (record { proc = 0; allocation = []; request = [] })
          → IsRow (length dd.sems) r
          → cell k (g r) ≡ cell k r +ℤ ε)
      → units k (record dd { available = modify dd.available j f; rows = modify dd.rows i g })
        ≡ units k dd +ℤ (if j == k then δ else pos 0) +ℤ ε
  unfolding units
  moved j i f g δ ε k inside row change change_row =
      rw
        (
          modify-cell dd.available j k f δ (omega (arith, v.counters)) (change _),
          held-modify k (length dd.sems) g ε dd.rows i row change_row v.tables,
        )
        (omega int_laws)

  dec_lem : (x : ℤ) → dec x ≡ x +ℤ negsuc 0
  dec_lem x = omega int_laws

  cell-inc :
      (j k : ℕ) (r : Row)
      → j < length dd.sems
      → IsRow (length dd.sems) r
      → get_or (modify r.allocation j inc) k (pos 0) ≡ cell k r +ℤ (if j == k then pos 1 else pos 0)
  cell-inc j k r inside w =
      modify-cell r.allocation j k inc (pos 1) (omega (arith, w.allocations)) refl

  balanced :
      (x : ℤ) (b : Bool) → x +ℤ (if b then negsuc 0 else pos 0) +ℤ (if b then pos 1 else pos 0) ≡ x
  balanced x true = omega int_laws
  balanced x false = omega int_laws

  found_unit :
      (s p : Option ℕ) (g : ℕ → Row → Row) (dd' : Detector)
      → sem_index dd sem ≡ s
      → proc_index dd proc ≡ p
      → ((j : ℕ) (r : Row) → (g j r).allocation ≡ modify r.allocation j inc)
      → (do
        j ← s
        i ← p
        some (record dd { available = modify dd.available j dec; rows = modify dd.rows i (g j) }))
        ≡ some dd'
      → (k : ℕ) → units k dd' ≡ units k dd
  found_unit none p g dd' a b same e k = absurd (none≢some e)
    where
      none≢some : none ≡ some dd' → ⊥
      none≢some h = cc
  found_unit (some j) none g dd' a b same e k = absurd (none≢some e)
    where
      none≢some : none ≡ some dd' → ⊥
      none≢some h = cc
  found_unit (some j) (some i) g dd' a b same e k = rw (← (some_injective e)) (
      moved j i dec (g j) (negsuc 0) (if j == k then pos 1 else pos 0) k (sem_index_inside j a)
        (proc_index_inside i b) dec_lem
        (λ r _ w.
          ap (λ xs. get_or xs k (pos 0)) (same j r) ∙ cell-inc j k r (sem_index_inside j a) w)
      ∙ balanced (units k dd) (j == k))

  -- A process that takes a unit, at once or after a wait, takes it from the available ones: the units
  -- of every semaphore are as many as before.
  pub units-sem_allocated :
      (dd' : Detector)
      → (sem_allocated_instant dd proc sem ≡ some dd') ⊎ (sem_allocated dd proc sem ≡ some dd')
      → (k : ℕ) → units k dd' ≡ units k dd
  unfolding sem_allocated_instant sem_allocated
  units-sem_allocated dd' (inl e) =
      found_unit (sem_index dd sem) (proc_index dd proc) grant dd' refl refl (λ j r. refl) e
  units-sem_allocated dd' (inr e) =
      found_unit (sem_index dd sem) (proc_index dd proc) grant_requested dd' refl refl (λ j r. refl)
        e
