-- ===== src/Prelude/Search.antt =====
-- Linear searches over an array: the first index that passes a test, and whether any does.
use Prim.Native.Nat.{ℕ, zero, suc, ◌<◌}
use mathlib.Core.Path.{◌≡◌, refl, sym, ◌∙◌}
use mathlib.Core.Logic.{◌⊎◌, inl, inr}
use mathlib.Core.Bool.{Bool, true, false}
use mathlib.Core.Option.{Option, none, some}
use mathlib.Core.Option
use mathlib.Core.List.{List, [], ◌∷◌}
use native.Mathlib.Omega.{arith}
use sisop_2c.Prelude.Tests.{if◌then◌else◌, Bool-cases, lt-or-eq-or-gt}
use sisop_2c.Prelude.Lists.{length, get_or}

module _ {ℓ} {A : Type ℓ} where
  -- `for(i = 0; i < n; i++) if(p(a[i])) return i;`
  unfoldable pub find_index : (A → Bool) → List A → Option ℕ
  find_index p [] = none
  find_index p (x ∷ xs) = if p x then some 0 else Option.map suc (find_index p xs)

  -- `for(i = 0; i < n; i++) if(p(a[i])) count++;`
  unfoldable pub count_if : (A → Bool) → List A → ℕ
  count_if p [] = 0
  count_if p (x ∷ xs) = if p x then suc (count_if p xs) else count_if p xs

  -- `i` is the first index of `xs` that passes the test `p`.
  pub record IsFirst (p : A → Bool) (xs : List A) (d : A) (i : ℕ) : Type ℓ where
    pub inside : i < length xs
    pub passes : p (get_or xs i d) ≡ true
    pub earlier : (j : ℕ) → j < i → p (get_or xs j d) ≡ false

  IsFirst-suc :
      (p : A → Bool) (x : A) (xs : List A) (d : A) (i : ℕ)
      → p x ≡ false
      → IsFirst p xs d i
      → IsFirst p (x ∷ xs) d (suc i)
  IsFirst-suc p x xs d i e f = record {
    inside = omega (arith, f.inside);
    passes = f.passes;
    earlier = before;
  }
    where
      before : (j : ℕ) → j < suc i → p (get_or (x ∷ xs) j d) ≡ false
      before zero h = e
      before (suc j) h = f.earlier j (omega arith)

  none_step :
      (p : A → Bool) (x : A) (xs : List A) (d : A)
      → p x ≡ false
      → ((i : ℕ) → i < length xs → p (get_or xs i d) ≡ false)
      → (i : ℕ) → i < suc (length xs)
      → p (get_or (x ∷ xs) i d) ≡ false
  none_step p x xs d e f zero h = e
  none_step p x xs d e f (suc i) h = f i (omega arith)

  -- The search finds the first index, or fails and no index passes.
  pub find_index-cases :
      (p : A → Bool) (xs : List A) (d : A)
      → ((find_index p xs ≡ none) × ((i : ℕ) → i < length xs → p (get_or xs i d) ≡ false))
        ⊎ ((i : ℕ) × (find_index p xs ≡ some i) × IsFirst p xs d i)
  unfolding find_index
  find_index-cases p [] d = inl (refl, λ i h. absurd (omega arith))
  find_index-cases p (x ∷ xs) d = elim (Bool-cases (p x)) [
    | inl e ↦ inr (
      0,
      rw e,
      record { inside = omega arith; passes = e; earlier = λ j h. absurd (omega arith) },
    )
    | inr e ↦ elim (find_index-cases p xs d) [
      | inl (n, f) ↦ inl (rw (e, n), none_step p x xs d e f)
      | inr (i, n, f) ↦ inr (suc i, rw (e, n), IsFirst-suc p x xs d i e f)
    ]
  ]

  -- Two first indices of one array are the same.
  pub IsFirst-unique :
      (p : A → Bool) (xs : List A) (d : A) (i j : ℕ) → IsFirst p xs d i → IsFirst p xs d j → i ≡ j
  IsFirst-unique p xs d i j f g = elim (lt-or-eq-or-gt i j) [
    | inl h ↦ cc (f.passes, g.earlier i h)
    | inr (inl e) ↦ e
    | inr (inr h) ↦ cc (g.passes, f.earlier j h)
  ]

  -- The first index is what the search returns.
  pub find_index_of_IsFirst :
      (p : A → Bool) (xs : List A) (d : A) (i : ℕ) → IsFirst p xs d i → find_index p xs ≡ some i
  find_index_of_IsFirst p xs d i f = elim (find_index-cases p xs d) [
    | inl (n, g) ↦ cc (f.passes, g i f.inside)
    | inr (j, n, g) ↦ rw (IsFirst-unique p xs d i j f g) n
  ]

  -- What the search returns is the first index.
  pub IsFirst-of_find_index :
      (p : A → Bool) (xs : List A) (d : A) (i : ℕ) → find_index p xs ≡ some i → IsFirst p xs d i
  IsFirst-of_find_index p xs d i e = elim (find_index-cases p xs d) [
    | inl (n, g) ↦ cc (e, n)
    | inr (j, n, g) ↦ rw (← (some_index j i (sym n ∙ e))) g
  ]
    where
      some_index : (j i : ℕ) → some j ≡ some i → j ≡ i
      some_index j i h = cc

  -- Where the search fails no index passes.
  pub none_of_find_index :
      (p : A → Bool) (xs : List A) (d : A)
      → find_index p xs ≡ none
      → (i : ℕ) → i < length xs
      → p (get_or xs i d) ≡ false
  none_of_find_index p xs d e = elim (find_index-cases p xs d) [
    | inl (n, g) ↦ g
    | inr (j, n, g) ↦ absurd (some≢none j (sym n ∙ e))
  ]
    where
      some≢none : (j : ℕ) → some j ≡ none → ⊥
      some≢none j h = cc
