-- ===== src/Memory/Heap/Overwrites.antt =====
-- A write to pages in a row: the lists behind `heap_write` of memory/src/petitionHandlers.c.
use native.Mathlib.Nat.{suc-mul}
use sisop_2c.Prelude.{
  ℕ, zero, suc, ◌+◌, ◌*◌, ◌≤◌, ◌<◌, ◌≡◌, refl, sym, ap, ap₂, ◌∙◌, List, [], ◌∷◌, ◌++◌, arith,
  length, overwrite,
}
use sisop_2c.Memory.Heap.Pieces.{flat}

pub overwrite_none : (bs : List ℕ) (off : ℕ) → overwrite bs off [] ≡ bs
overwrite_none [] off = refl
overwrite_none (b ∷ bs) zero = refl
overwrite_none (b ∷ bs) (suc off) = ap (◌∷◌ b) (overwrite_none bs off)

-- A write that reaches the end of a list and goes on in the next one.
pub overwrite-append :
    (xs ys : List ℕ) (off : ℕ) (bs cs : List ℕ)
    → off + length bs ≡ length xs
    → overwrite (xs ++ ys) off (bs ++ cs) ≡ overwrite xs off bs ++ overwrite ys 0 cs
overwrite-append [] ys zero [] cs e = refl
overwrite-append [] ys zero (b ∷ bs) cs e = absurd (omega arith)
overwrite-append [] ys (suc off) bs cs e = absurd (omega arith)
overwrite-append (x ∷ xs) ys zero [] cs e = absurd (omega arith)
overwrite-append (x ∷ xs) ys zero (b ∷ bs) cs e =
    ap (◌∷◌ b) (overwrite-append xs ys zero bs cs (omega arith))
overwrite-append (x ∷ xs) ys (suc off) bs cs e =
    ap (◌∷◌ x) (overwrite-append xs ys off bs cs (omega arith))

-- A write that stays in a list.
pub overwrite-append_left :
    (xs ys : List ℕ) (off : ℕ) (bs : List ℕ)
    → off + length bs ≤ length xs
    → overwrite (xs ++ ys) off bs ≡ overwrite xs off bs ++ ys
overwrite-append_left [] ys zero [] h = overwrite_none ys 0
overwrite-append_left [] ys zero (b ∷ bs) h = absurd (omega arith)
overwrite-append_left [] ys (suc off) bs h = absurd (omega arith)
overwrite-append_left (x ∷ xs) ys zero [] h = refl
overwrite-append_left (x ∷ xs) ys zero (b ∷ bs) h =
    ap (◌∷◌ b) (overwrite-append_left xs ys zero bs (omega arith))
overwrite-append_left (x ∷ xs) ys (suc off) bs h =
    ap (◌∷◌ x) (overwrite-append_left xs ys off bs (omega arith))

-- A write that lies behind a list.
pub overwrite-append_right :
    (xs ys : List ℕ) (off at : ℕ) (bs : List ℕ)
    → off ≡ length xs + at
    → overwrite (xs ++ ys) off bs ≡ xs ++ overwrite ys at bs
overwrite-append_right [] ys off at bs e = ap (λ i. overwrite ys i bs) (omega arith)
overwrite-append_right (x ∷ xs) ys zero at bs e = absurd (omega arith)
overwrite-append_right (x ∷ xs) ys (suc off) at bs e =
    ap (◌∷◌ x) (overwrite-append_right xs ys off at bs (omega arith))

pub flat-same :
    (v w : ℕ → List ℕ) (i n : ℕ) → ((j : ℕ) → i ≤ j → w j ≡ v j) → flat w i n ≡ flat v i n
flat-same v w i zero e = refl
flat-same v w i (suc n) e =
    ap₂ (◌++◌) (e i (omega arith)) (flat-same v w (i + 1) n (λ j h. e j (omega arith)))

-- A write behind the first `k` pages leaves them as they are.
pub overwrite-flat :
    (page_size : ℕ) (v w : ℕ → List ℕ) (k i n at total off first : ℕ) (bs : List ℕ)
    → total ≡ k + n
    → off ≡ k * page_size + at
    → first ≡ i + k
    → ((j : ℕ) → j < i + total → length (v j) ≡ page_size)
    → ((j : ℕ) → j < first → w j ≡ v j)
    → flat w first n ≡ overwrite (flat v first n) at bs
    → flat w i total ≡ overwrite (flat v i total) off bs
overwrite-flat page_size v w zero i n at total off first bs e o g sized before h =
    ap₂ (flat w) {x = i} {y = first} {u = total} {v = n} (omega arith) (omega arith)
    ∙ h
    ∙ ap₂ (λ xs j. overwrite xs j bs) {x = flat v first n} {y = flat v i total} {u = at} {v = off}
        (ap₂ (flat v) {x = first} {y = i} {u = n} {v = total} (omega arith) (omega arith))
        (omega arith)
overwrite-flat page_size v w (suc k) i n at zero off first bs e o g sized before h =
    absurd (omega arith)
overwrite-flat page_size v w (suc k) i n at (suc total) off first bs e o g sized before h =
    ap₂ (◌++◌) (before i (omega arith)) (
      overwrite-flat page_size v w k (i + 1) n at total (k * page_size + at) first bs (omega arith)
        refl (omega arith) (λ j l. sized j (omega arith)) before h)
    ∙ sym (
        overwrite-append_right (v i) (flat v (i + 1) total) off (k * page_size + at) bs
          (omega (arith, suc-mul k page_size, sized i (omega arith))))
