-- ===== src/Shared/Queue/Order.antt =====
-- A protected queue gives its elements back in the order in which they were put.
use sisop_2c.Prelude.{
  ℕ, zero, suc, ◌≡◌, refl, sym, ap, ◌∙◌, Option, some, ◌>>=◌, List, [], ◌∷◌, ◌++◌, arith, length,
  length-append,
}
use mathlib.Core.List.{append_assoc, append-nil}
use sisop_2c.Shared.Commons.{Lists}
use sisop_2c.Shared.Queue.{Queue, put, take}

-- The semaphore counts the elements.
abbrev pub IsCounted : Queue → Type 0
IsCounted q = q.sem ≡ length q.elems

module _ (lib : Lists) where
  pub put_all : Queue → List ℕ → Queue
  put_all q [] = q
  put_all q (x ∷ xs) = put_all (put lib q x) xs

  -- `n` takes in a row; `none` if one of them waits or pops from an empty list.
  pub take_all : ℕ → Queue → Option (List ℕ × Queue)
  take_all zero q = some ([], q)
  take_all (suc n) q = do
    (elem, rest) ← take lib q
    x ← elem
    (xs, last) ← take_all n rest
    some (x ∷ xs, last)

  put-IsCounted : (q : Queue) (x : ℕ) → IsCounted q → IsCounted (put lib q x)
  unfolding put
  put-IsCounted q x c =
      rw (lib.list_add_lem q.elems x) (omega (arith, length-append q.elems (x ∷ [])))

  put_all_elems :
      (q : Queue) (xs : List ℕ)
      → IsCounted q
      → ((put_all q xs).elems ≡ q.elems ++ xs) × IsCounted (put_all q xs)
  unfolding put_all
  put_all_elems q [] c = (sym (append-nil q.elems), c)
  put_all_elems q (x ∷ xs) c =
      let (e, d) = put_all_elems (put lib q x) xs (put-IsCounted q x c) in
      (
        e
            ∙ unfold put in
              (ap (λ ys. ys ++ xs) (lib.list_add_lem q.elems x) ∙ append_assoc q.elems (x ∷ []) xs),
        d,
      )

  take_cons :
      (q : Queue) (x : ℕ) (xs : List ℕ)
      → q.elems ≡ x ∷ xs
      → IsCounted q
      → take lib q ≡ some (some x, record { elems = xs; sem = length xs })
  unfolding take
  take_cons q x xs e c = rw (c, e, lib.list_remove_first_lem x xs) (ground arith)

  drain :
      (q : Queue) (ys : List ℕ)
      → q.elems ≡ ys
      → IsCounted q
      → take_all (length ys) q ≡ some (ys, record { elems = []; sem = 0 })
  unfolding take_all
  drain q [] e c = ap (λ r. some ([], r)) (λ i. record { elems = e i; sem = (c ∙ ap length e) i })
  drain q (y ∷ ys) e c =
      rw (take_cons q y ys e c, drain (record { elems = ys; sem = length ys }) ys refl refl)

  -- Elements that were put into an empty queue are taken in the same order, no take waits, and the
  -- queue is empty again.
  pub take_all-put_all :
      (q : Queue) (xs : List ℕ)
      → q.elems ≡ []
      → IsCounted q
      → take_all (length xs) (put_all q xs) ≡ some (xs, record { elems = []; sem = 0 })
  take_all-put_all q xs e c =
      let (f, d) = put_all_elems q xs c in drain (put_all q xs) xs (f ∙ ap (λ ys. ys ++ xs) e) d
