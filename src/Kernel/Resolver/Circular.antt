-- ===== src/Kernel/Resolver/Circular.antt =====
-- What the search for a circular wait finds is one.
use sisop_2c.Prelude.{
  ℕ, zero, suc, ◌+◌, ◌≡◌, refl, sym, ap, ◌∙◌, inl, inr, Bool, true, false, List, [], ◌∷◌, ℤ, pos,
  is_nonzero, arith, ◌==◌, get_or, Bool-cases,
}
use sisop_2c.Shared.Commons.{Lists}
use sisop_2c.Kernel.Detector.{Row, Detector}
use sisop_2c.Kernel.Resolver.{
  Walk, walk_result, no_row, is_some, holders_loop, requests_loop, circular_wait,
}

-- Process `i` requests a semaphore of which process `k` holds a unit.
pub record WaitsOn (dd : Detector) (i k : ℕ) : Type 0 where
  pub sem : ℕ
  pub requested : is_nonzero (get_or (get_or dd.rows i no_row).request sem (pos 0)) ≡ true
  pub allocated : is_nonzero (get_or (get_or dd.rows k no_row).allocation sem (pos 0)) ≡ true

-- A chain of waits that ends at process `k` and starts at the index.
pub data Chain (dd : Detector) (k : ℕ) : ℕ → Type 0 where
  one : {i : ℕ} → WaitsOn dd i k → Chain dd k i
  more : {i : ℕ} (n : ℕ) → WaitsOn dd i n → Chain dd k n → Chain dd k i

-- `rest` is what is left of `xs` from index `at`.
abbrev FromIndex {ℓ} : {A : Type ℓ} → List A → A → ℕ → List A → Type ℓ
FromIndex xs d at rest = (k : ℕ) → get_or rest k d ≡ get_or xs (at + k) d

same_number : (a b : ℕ) → (a == b) ≡ true → a ≡ b
same_number a b h = ground arith

module _ (lib : Lists) (pid : ℕ → ℕ) (dd : Detector) (base : ℕ) where
  abbrev Sound : (ℕ → List ℕ → Bool × List ℕ) → Type 0
  Sound visit = (n : ℕ) (seen : List ℕ) → (visit n seen).0 ≡ true → Chain dd base n

  head_at :
      (at : ℕ) (r : Row) (rs : List Row)
      → FromIndex dd.rows no_row at (r ∷ rs)
      → r ≡ get_or dd.rows at no_row
  head_at at r rs h = h 0 ∙ ap (λ n. get_or dd.rows n no_row) (zero_right at)
    where
      zero_right : (n : ℕ) → n + 0 ≡ n
      zero_right n = omega arith

  tail_at :
      {A : Type 0} (xs : List A) (d : A) (at : ℕ) (r : A) (rs : List A)
      → FromIndex xs d at (r ∷ rs)
      → FromIndex xs d (at + 1) rs
  tail_at xs d at r rs h k = h (suc k) ∙ ap (λ n. get_or xs n d) (shift at k)
    where
      shift : (a b : ℕ) → a + suc b ≡ a + 1 + b
      shift a b = omega arith

  no_way : {P : Type 0} → false ≡ true → P
  no_way h = absurd (apart h)
    where
      apart : false ≡ true → ⊥
      apart h = cc

  waits_on :
      (i j next : ℕ) (r : Row) (rs : List Row)
      → is_nonzero (get_or (get_or dd.rows i no_row).request j (pos 0)) ≡ true
      → FromIndex dd.rows no_row next (r ∷ rs)
      → is_nonzero (get_or r.allocation j (pos 0)) ≡ true
      → WaitsOn dd i next
  waits_on i j next r rs w f e = record {
    sem = j;
    requested = w;
    allocated = rw (head_at next r rs f) at e;
  }

  holders-Sound :
      (visit : ℕ → List ℕ → Bool × List ℕ) (i j : ℕ) (rs : List Row) (next : ℕ) (found : Bool)
      (seen : List ℕ)
      → Sound visit
      → is_nonzero (get_or (get_or dd.rows i no_row).request j (pos 0)) ≡ true
      → FromIndex dd.rows no_row next rs
      → (found ≡ true → Chain dd base i)
      → (walk_result (holders_loop lib pid dd base visit j rs next found seen)).0 ≡ true
      → Chain dd base i
  unfolding holders_loop
  holders-Sound visit i j [] next found seen v w f c = c
  holders-Sound visit i j (r ∷ rs) next true seen v w f c = λ _. c refl
  holders-Sound visit i j (r ∷ rs) next false seen v w f c =
      elim (Bool-cases (is_nonzero (get_or r.allocation j (pos 0)))) [
        | inr e ↦
            rw (e, walk_result, holders_loop)
              (holders-Sound visit i j rs (next + 1) false seen v w
                (tail_at dd.rows no_row next r rs f) c)
        | inl e ↦
            rw (e, walk_result, holders_loop)
              (elim (Bool-cases (next == base)) [
                | inl b ↦
                    rw (b, walk_result, holders_loop)
                      (λ _. one (rw (same_number next base b) at (waits_on i j next r rs w f e)))
                | inr b ↦
                    rw (b, walk_result, holders_loop)
                      (elim (Bool-cases (is_some (lib.list_find (λ p. pid r.proc == pid p) seen))) [
                        | inl s ↦ rw (s, walk_result, holders_loop) (λ h. no_way h)
                        | inr s ↦
                            rw (s, walk_result, holders_loop)
                              (holders-Sound visit i j rs (next + 1)
                                (visit next (lib.list_add seen r.proc)).0
                                (visit next (lib.list_add seen r.proc)).1 v w
                                (tail_at dd.rows no_row next r rs f)
                                (λ t.
                                  more next (waits_on i j next r rs w f e)
                                    (v next (lib.list_add seen r.proc) t)))
                      ])
              ])
      ]

  requests-Sound :
      (visit : ℕ → List ℕ → Bool × List ℕ) (i : ℕ) (xs : List ℤ) (j : ℕ) (found : Bool)
      (seen : List ℕ)
      → Sound visit
      → FromIndex (get_or dd.rows i no_row).request (pos 0) j xs
      → (found ≡ true → Chain dd base i)
      → (walk_result (requests_loop lib pid dd base visit xs j found seen)).0 ≡ true
      → Chain dd base i
  unfolding requests_loop
  requests-Sound visit i [] j found seen v f c = c
  requests-Sound visit i (x ∷ xs) j found seen v f c = elim (Bool-cases (is_nonzero x)) [
    | inr e ↦
        rw (e, walk_result, requests_loop)
          (requests-Sound visit i xs (j + 1) found seen v
            (tail_at (get_or dd.rows i no_row).request (pos 0) j x xs f) c)
    | inl e ↦
        rw (e, walk_result, requests_loop)
          (by_walk (holders_loop lib pid dd base visit j dd.rows 0 found seen)
            (holders-Sound visit i j dd.rows 0 found seen v (requested e) from_start c)
            (λ found' seen' c'.
              requests-Sound visit i xs (j + 1) found' seen' v
                (tail_at (get_or dd.rows i no_row).request (pos 0) j x xs f) c'))
  ]
    where
      requested :
          is_nonzero x ≡ true
          → is_nonzero (get_or (get_or dd.rows i no_row).request j (pos 0)) ≡ true
      requested e =
          ap is_nonzero
            (sym (f 0 ∙ ap (λ n. get_or (get_or dd.rows i no_row).request n (pos 0)) (plus_zero j)))
          ∙ e
        where
          plus_zero : (n : ℕ) → n + 0 ≡ n
          plus_zero n = omega arith

      from_start : FromIndex dd.rows no_row 0 dd.rows
      from_start k = ap (λ n. get_or dd.rows n no_row) (zero_plus k)
        where
          zero_plus : (n : ℕ) → n ≡ 0 + n
          zero_plus n = omega arith

      by_walk :
          (w : Walk)
          → ((walk_result w).0 ≡ true → Chain dd base i)
          → ((found' : Bool) (seen' : List ℕ)
              → (found' ≡ true → Chain dd base i)
              → (walk_result (requests_loop lib pid dd base visit xs (j + 1) found' seen')).0 ≡ true
              → Chain dd base i)
          → (walk_result (elim w [
            | Walk.return b s ↦ Walk.return b s
            | Walk.go_on b s ↦ requests_loop lib pid dd base visit xs (j + 1) b s
          ])).0
            ≡ true
          → Chain dd base i
      by_walk (Walk.return b s) here rest = here
      by_walk (Walk.go_on b s) here rest = rest b s here

  -- If `isInCircularWait` answers true, there is a chain of waits from the process to the base, each
  -- link a semaphore that one process requests and the next one holds.
  pub circular_wait_sound :
      (fuel i : ℕ) (seen : List ℕ)
      → (circular_wait lib pid dd base fuel i seen).0 ≡ true
      → Chain dd base i
  unfolding circular_wait
  circular_wait_sound zero i seen h = no_way h
  circular_wait_sound (suc fuel) i seen h =
      requests-Sound (circular_wait lib pid dd base fuel) i (get_or dd.rows i no_row).request 0
        false seen (circular_wait_sound fuel) from_start (λ e. no_way e) h
    where
      from_start :
          FromIndex (get_or dd.rows i no_row).request (pos 0) 0 (get_or dd.rows i no_row).request
      from_start k = ap (λ n. get_or (get_or dd.rows i no_row).request n (pos 0)) (zero_plus k)
        where
          zero_plus : (n : ℕ) → n ≡ 0 + n
          zero_plus n = omega arith
