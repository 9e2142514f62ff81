-- ===== src/Kernel/Resolver/Outcome.antt =====
-- When the resolver stops, and when it never does.
use sisop_2c.Prelude.{
  ℕ, zero, suc, ◌+◌, ◌≡◌, refl, sym, ap, ◌∙◌, ◌⊎◌, inl, inr, Bool, true, false, none, List, [], ◌∷◌,
  if◌then◌else◌, length, All, Bool-cases,
}
use sisop_2c.Shared.Commons.{Lists}
use sisop_2c.Kernel.Detector.{Detector}
use sisop_2c.Kernel.State.{Kernel}
use sisop_2c.Kernel.Resolver.{
  Mark, reduce, circular_wait, find_circular, bigger_pid, find_deadlocks, resolve,
}
use sisop_2c.Kernel.Resolver.Circular.{Chain, circular_wait_sound}

-- Every process is finished.
abbrev pub AllFinished : List Mark → Type 0
AllFinished = All (λ m. m.1 ≡ true)

-- Some process is not.
abbrev pub SomePending : List Mark → Type 0
SomePending [] = ⊥
SomePending ((r, f) ∷ ms) = (f ≡ false) ⊎ SomePending ms

module _ (lib : Lists) (pid : ℕ → ℕ) (dd : Detector) where
  flag_stays :
      (ms : List Mark) (i : ℕ) (found : List ℕ)
      → (find_circular lib pid dd ms i found true).0 ≡ true
  unfolding find_circular
  flag_stays [] i found = refl
  flag_stays ((r, true) ∷ ms) i found = flag_stays ms (i + 1) found
  flag_stays ((r, false) ∷ ms) i found = flag_stays ms (i + 1) _

  flag_false :
      (ms : List Mark) (i : ℕ) (found : List ℕ)
      → (find_circular lib pid dd ms i found false).0 ≡ false
      → AllFinished ms
  unfolding find_circular
  flag_false [] i found h = tt
  flag_false ((r, true) ∷ ms) i found h = (refl, flag_false ms (i + 1) found h)
  flag_false ((r, false) ∷ ms) i found h = absurd (apart (sym (flag_stays ms (i + 1) _) ∙ h))
    where
      apart : true ≡ false → ⊥
      apart h = cc

  flag_of_finished :
      (ms : List Mark) (i : ℕ) (found : List ℕ)
      → AllFinished ms
      → (find_circular lib pid dd ms i found false).0 ≡ false
  unfolding find_circular
  flag_of_finished [] i found h = refl
  flag_of_finished ((r, true) ∷ ms) i found h = flag_of_finished ms (i + 1) found h.1
  flag_of_finished ((r, false) ∷ ms) i found h = absurd (apart h.0)
    where
      apart : false ≡ true → ⊥
      apart h = cc

  flag_true :
      (ms : List Mark) (i : ℕ) (found : List ℕ) (b : Bool)
      → SomePending ms
      → (find_circular lib pid dd ms i found b).0 ≡ true
  unfolding find_circular
  flag_true [] i found b h = absurd h
  flag_true ((r, true) ∷ ms) i found b (inl h) = absurd (apart h)
    where
      apart : true ≡ false → ⊥
      apart h = cc
  flag_true ((r, true) ∷ ms) i found b (inr h) = flag_true ms (i + 1) found b h
  flag_true ((r, false) ∷ ms) i found b h = flag_stays ms (i + 1) _

  -- Where no process waits on itself, none is found in a circular wait.
  none_circular :
      (ms : List Mark) (i : ℕ) (found : List ℕ) (b : Bool)
      → ((k : ℕ) → ¬ Chain dd k k)
      → (find_circular lib pid dd ms i found b).1 ≡ found
  unfolding find_circular
  none_circular [] i found b h = refl
  none_circular ((r, true) ∷ ms) i found b h = none_circular ms (i + 1) found b h
  none_circular ((r, false) ∷ ms) i found b h =
      elim (Bool-cases (circular_wait lib pid dd i (suc (length dd.rows)) i []).0) [
        | inl e ↦ absurd (h i (circular_wait_sound lib pid dd i (suc (length dd.rows)) i [] e))
        | inr e ↦
            none_circular ms (i + 1) _ true h
            ∙ ap (λ t. if t then lib.list_add found r.proc else found) e
      ]

module _ {F D : Type 0} (lib : Lists) (memory_socket : ℕ) (k : Kernel F D) where
  abbrev pid_of : ℕ → ℕ
  pid_of p = (k.processes p).pid

  -- `findDeadlocks` answers false exactly when its reduction finishes every process, and then it
  -- changes nothing.
  pub find_deadlocks-false :
      ((find_deadlocks lib memory_socket k).0 ≡ false
        → AllFinished (reduce k.dd).0 × ((find_deadlocks lib memory_socket k).1 ≡ k))
      × (AllFinished (reduce k.dd).0 → (find_deadlocks lib memory_socket k).0 ≡ false)
  unfolding find_deadlocks
  find_deadlocks-false = (
    λ h. elim (Bool-cases (find_circular lib pid_of k.dd (reduce k.dd).0 0 [] false).0) [
      | inl e ↦ absurd (apart (rw e at h))
      | inr e ↦ (flag_false lib pid_of k.dd (reduce k.dd).0 0 [] e, rw e)
    ],
    λ h. rw (flag_of_finished lib pid_of k.dd (reduce k.dd).0 0 [] h),
  )
    where
      apart : true ≡ false → ⊥
      apart h = cc

  stalled :
      SomePending (reduce k.dd).0
      → ((i : ℕ) → ¬ Chain k.dd i i)
      → find_deadlocks lib memory_socket k ≡ (true, k)
  unfolding find_deadlocks
  stalled p c = rw (
    flag_true lib pid_of k.dd (reduce k.dd).0 0 [] false p,
    none_circular lib pid_of k.dd (reduce k.dd).0 0 [] false c,
    lib.list_get_maximum_nil (bigger_pid pid_of),
  )

  -- If some process is left unfinished and no process is in a circular wait, as when a process that
  -- holds a unit waits on a semaphore of which nobody holds one, then the loop that calls
  -- `findDeadlocks` until it answers false never ends, whatever the fuel.
  pub resolve_never_ends :
      SomePending (reduce k.dd).0
      → ((i : ℕ) → ¬ Chain k.dd i i)
      → (fuel : ℕ) → resolve lib memory_socket fuel k ≡ none
  unfolding resolve
  resolve_never_ends p c zero = refl
  resolve_never_ends p c (suc fuel) = rw (stalled p c) (resolve_never_ends p c fuel)
