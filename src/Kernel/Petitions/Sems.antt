-- ===== src/Kernel/Petitions/Sems.antt =====
-- The detector's counter of available units follows the counter of each semaphore.
use sisop_2c.Prelude.{
  ℕ, ◌+◌, ◌-◌, ◌%◌, ◌^◌, ◌<◌, ◌≤◌, ◌≡◌, ◌≢◌, refl, sym, ap, ◌∙◌, ◌⊎◌, inl, inr, Bool, true, false,
  Option, none, some, List, ℤ, pos, int_laws, arith, ◌==◌, ltb, length, length-modify, get_or,
  modify, update, get_or-modify_self, get_or-modify_ne, Bool-cases, IsFirst-of_find_index,
  some_injective, ℕ_discrete, Option-cases,
}
use sisop_2c.Shared.Commons.{Lists, Dictionaries}
use sisop_2c.Shared.Networking.{Header}
use sisop_2c.Kernel.Detector
use sisop_2c.Kernel.Detector.{Detector, Row, inc, dec}
use sisop_2c.Kernel.State.{Kernel, MateSem, mate_sem_wait, mate_sem_post}
use sisop_2c.Kernel.Petitions.{wait_on, post_on, block, reply}

-- Each semaphore of the table stands in it once, and its counter is the detector's.
pub record IsMirrored (dd : Detector) (sems : ℕ → MateSem) : Type 0 where
  pub counters : length dd.available ≡ length dd.sems
  pub distinct :
      (i j : ℕ)
      → i < length dd.sems
      → j < length dd.sems
      → get_or dd.sems i 0 ≡ get_or dd.sems j 0
      → i ≡ j
  pub mirrored :
      (j : ℕ)
      → j < length dd.sems
      → get_or dd.available j (pos 0) ≡ pos (sems (get_or dd.sems j 0)).sem

sem_index-found :
    (dd : Detector) (sem j : ℕ)
    → Detector.sem_index dd sem ≡ some j
    → (j < length dd.sems) × (get_or dd.sems j 0 ≡ sem)
unfolding Detector.sem_index
sem_index-found dd sem j e =
    let f = IsFirst-of_find_index (λ s. s == sem) dd.sems 0 j e in
    (f.inside, same (get_or dd.sems j 0) sem f.passes)
  where
    same : (a b : ℕ) → (a == b) ≡ true → a ≡ b
    same a b h = ground arith

-- A semaphore and its counter in the table change alike.
IsMirrored-step :
    (dd : Detector) (sems : ℕ → MateSem) (sem j : ℕ) (s : MateSem) (f : ℤ → ℤ) (rows : List Row)
    → IsMirrored dd sems
    → Detector.sem_index dd sem ≡ some j
    → f (pos (sems sem).sem) ≡ pos s.sem
    → IsMirrored
        (record dd { available = modify dd.available j f; rows = rows })
        (update sems sem s)
IsMirrored-step dd sems sem j s f rows v e change = record {
  counters = length-modify dd.available j f ∙ v.counters;
  distinct = v.distinct;
  mirrored = at;
}
  where
    found : (j < length dd.sems) × (get_or dd.sems j 0 ≡ sem)
    found = sem_index-found dd sem j e

    at :
        (i : ℕ)
        → i < length dd.sems
        → get_or (modify dd.available j f) i (pos 0)
          ≡ pos (update sems sem s (get_or dd.sems i 0)).sem
    at i h = elim (ℕ_discrete j i) [
      | yes p ↦ rw (← p) (
          get_or-modify_self dd.available j f (pos 0) (omega (arith, found.0, v.counters))
          ∙ ap f (v.mirrored j found.0 ∙ ap (λ a. pos (sems a).sem) found.1)
          ∙ change
          ∙ ap pos (here (get_or dd.sems j 0) found.1))
      | no p ↦
          get_or-modify_ne dd.available j i f (pos 0) p
          ∙ v.mirrored i h
          ∙ ap pos (there (get_or dd.sems i 0) (λ q. p (v.distinct j i found.0 h (found.1 ∙ q))))
    ]
      where
        here : (a : ℕ) → a ≡ sem → s.sem ≡ (update sems sem s a).sem
        here a q = ground arith

        there : (a : ℕ) → sem ≢ a → (sems a).sem ≡ (update sems sem s a).sem
        there a q = ground arith

-- A change that the table does not follow leaves the counter alone.
IsMirrored-same :
    (dd : Detector) (sems : ℕ → MateSem) (sem : ℕ) (s : MateSem) (rows : List Row)
    → IsMirrored dd sems
    → (sems sem).sem ≡ s.sem
    → IsMirrored (record dd { rows = rows }) (update sems sem s)
IsMirrored-same dd sems sem s rows v e = record {
  counters = v.counters;
  distinct = v.distinct;
  mirrored = λ i h. v.mirrored i h ∙ ap pos (kept (get_or dd.sems i 0));
}
  where
    kept : (a : ℕ) → (sems a).sem ≡ (update sems sem s a).sem
    kept a = ground arith

nothing : {A P : Type 0} {a : A} → none ≡ some a → P
nothing {A} {P} {a} h = absurd (apart h)
  where
    apart : none ≡ some a → ⊥
    apart h = cc

module _ {F D : Type 0} (lib : Lists) (dicts : Dictionaries D) (k : Kernel F D)
    (process sem : ℕ) where
  posted : ℕ → ℕ → Kernel F D
  posted j i = record k {
    mate_sems = update k.mate_sems sem (mate_sem_post (k.mate_sems sem)).1;
    dd = record k.dd {
      available = modify k.dd.available j inc;
      rows = modify k.dd.rows i (Detector.give_back j);
    };
  }

  post_on-cases :
      (post_on lib dicts k process sem ≡ none)
      ⊎ ((j i : ℕ) × (Detector.sem_index k.dd sem ≡ some j)
          × (post_on lib dicts k process sem ≡ some (posted j i)))
  unfolding post_on posted Detector.sem_release
  post_on-cases = elim (Option-cases (Detector.sem_index k.dd sem)) [
    | inl a ↦ inl (rw a)
    | inr (j, a) ↦ elim (Option-cases (Detector.proc_index k.dd process)) [
      | inl b ↦ inl (rw (a, b))
      | inr (i, b) ↦ inr (j, i, a, rw (a, b))
    ]
  ]

  -- Posting a semaphore whose value stays below 2 ^ 31, so that the detector's `int` counter does not
  -- overflow, keeps the detector's counters equal to those of the semaphores.
  pub post_on-IsMirrored :
      (k' : Kernel F D)
      → IsMirrored k.dd k.mate_sems
      → (k.mate_sems sem).sem + 1 < 2 ^ 31
      → post_on lib dicts k process sem ≡ some k'
      → IsMirrored k'.dd k'.mate_sems
  unfolding posted mate_sem_post
  post_on-IsMirrored k' v small e = elim post_on-cases [
    | inl n ↦ nothing (sym n ∙ e)
    | inr (j, i, a, p) ↦ rw (← (some_injective (sym p ∙ e))) (
        IsMirrored-step k.dd k.mate_sems sem j (mate_sem_post (k.mate_sems sem)).1 inc
          (modify k.dd.rows i (Detector.give_back j)) v a (wrapped (k.mate_sems sem).sem small))
  ]
    where
      wrapped : (n : ℕ) → n + 1 < 2 ^ 31 → inc (pos n) ≡ pos ((n + 1) % 2 ^ 32)
      wrapped n h = let e : (n + 1) % 2 ^ 32 ≡ n + 1 = omega arith in rw e (omega int_laws)

  taken : ℕ → ℕ → Kernel F D
  taken j i = record k {
    mate_sems = update k.mate_sems sem (mate_sem_wait lib (k.mate_sems sem) process).1;
    dd = record k.dd {
      available = modify k.dd.available j dec;
      rows = modify k.dd.rows i (Detector.grant j);
    };
  }

  queued : ℕ → ℕ → Kernel F D
  queued j i =
      let k1 : Kernel F D = record k {
        mate_sems = update k.mate_sems sem (mate_sem_wait lib (k.mate_sems sem) process).1;
      } in
      record (block lib dicts k1 process) {
        dd = record k.dd { rows = modify k.dd.rows i (Detector.ask j) };
      }

  data Waited : Option (Bool × Kernel F D) → Type 0 where
    fault : {r : Option (Bool × Kernel F D)} → r ≡ none → Waited r
    passed :
        {r : Option (Bool × Kernel F D)} (j i : ℕ)
        → (mate_sem_wait lib (k.mate_sems sem) process).0 ≡ false
        → Detector.sem_index k.dd sem ≡ some j
        → r ≡ some (true, reply lib dicts (taken j i) process Header.ok)
        → Waited r
    stopped :
        {r : Option (Bool × Kernel F D)} (j i : ℕ)
        → (mate_sem_wait lib (k.mate_sems sem) process).0 ≡ true
        → r ≡ some (false, queued j i)
        → Waited r

  wait_on-cases : Waited (wait_on lib dicts k process sem)
  unfolding wait_on taken queued Detector.sem_requested Detector.sem_allocated_instant
  wait_on-cases = elim (Bool-cases (mate_sem_wait lib (k.mate_sems sem) process).0) [
    | inl w ↦ elim (Option-cases (Detector.sem_index k.dd sem)) [
      | inl a ↦ fault (rw (w, a))
      | inr (j, a) ↦ elim (Option-cases (Detector.proc_index k.dd process)) [
        | inl b ↦ fault (rw (w, a, b))
        | inr (i, b) ↦ stopped j i w (rw (w, a, b))
      ]
    ]
    | inr w ↦ elim (Option-cases (Detector.sem_index k.dd sem)) [
      | inl a ↦ fault (rw (w, a))
      | inr (j, a) ↦ elim (Option-cases (Detector.proc_index k.dd process)) [
        | inl b ↦ fault (rw (w, a, b))
        | inr (i, b) ↦ passed j i w a (rw (w, a, b))
      ]
    ]
  ]

  wait_sem :
      ((mate_sem_wait lib (k.mate_sems sem) process).0 ≡ true
        → (k.mate_sems sem).sem ≡ (mate_sem_wait lib (k.mate_sems sem) process).1.sem)
      × ((mate_sem_wait lib (k.mate_sems sem) process).0 ≡ false
          → dec (pos (k.mate_sems sem).sem)
            ≡ pos (mate_sem_wait lib (k.mate_sems sem) process).1.sem)
  unfolding mate_sem_wait
  wait_sem = elim (Bool-cases (ltb (k.mate_sems sem).sem 1)) [
    | inl e ↦ rw e ((λ _. refl), (λ h. absurd (apart h)))
    | inr e ↦ rw e ((λ h. absurd (apart (sym h))), (λ _. lowered (k.mate_sems sem).sem e))
  ]
    where
      apart : true ≡ false → ⊥
      apart h = cc

      lowered : (n : ℕ) → ltb n 1 ≡ false → dec (pos n) ≡ pos (n - 1)
      lowered n h = let p : 1 ≤ n = ground arith in omega int_laws

  -- Waiting on a semaphore keeps the detector's counters equal to those of the semaphores, whether the
  -- process passes or stops.
  pub wait_on-IsMirrored :
      (go_on : Bool) (k' : Kernel F D)
      → IsMirrored k.dd k.mate_sems
      → wait_on lib dicts k process sem ≡ some (go_on, k')
      → IsMirrored k'.dd k'.mate_sems
  unfolding taken queued block
  wait_on-IsMirrored go_on k' v e = go (wait_on-cases)
    where
      second : {x y : Bool × Kernel F D} → some x ≡ some y → x.1 ≡ y.1
      second h = ap (λ p. p.1) (some_injective h)

      go : Waited (wait_on lib dicts k process sem) → IsMirrored k'.dd k'.mate_sems
      go (fault n) = nothing (sym n ∙ e)
      go (passed j i w a p) = rw (← (second (sym p ∙ e))) (
          IsMirrored-step k.dd k.mate_sems sem j (mate_sem_wait lib (k.mate_sems sem) process).1 dec
            (modify k.dd.rows i (Detector.grant j)) v a (wait_sem.1 w))
      go (stopped j i w p) = rw (← (second (sym p ∙ e))) (
          IsMirrored-same k.dd k.mate_sems sem (mate_sem_wait lib (k.mate_sems sem) process).1
            (modify k.dd.rows i (Detector.ask j)) v (wait_sem.0 w))
