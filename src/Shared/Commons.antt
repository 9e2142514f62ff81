-- ===== src/Shared/Commons.antt =====
-- The list functions of the so-commons library that the servers call. The library is not part of the
-- repository: it is a parameter, with its documented behaviour as laws. An element is a `void*`, so a
-- number that stands for an address, and NULL is `none`.
use sisop_2c.Prelude.{
  ℕ, suc, ◌≤◌, ◌≡◌, refl, ap, ◌∙◌, ◌⊎◌, inl, inr, Bool, true, false, Option, none, some, List, [],
  ◌∷◌, ◌++◌, if◌then◌else◌, ◌==◌, arith, length, Bool-cases,
}

-- The first element that passes a test, and the list without it.
abbrev pub first : (ℕ → Bool) → List ℕ → Option ℕ
first p [] = none
first p (x ∷ xs) = if p x then some x else first p xs

abbrev pub without_first : (ℕ → Bool) → List ℕ → List ℕ
without_first p [] = []
without_first p (x ∷ xs) = if p x then xs else x ∷ without_first p xs

-- `x` is one of the elements.
abbrev pub IsIn : ℕ → List ℕ → Type 0
IsIn a [] = ⊥
IsIn a (x ∷ xs) = (a ≡ x) ⊎ IsIn a xs

-- `list_get_maximum` with a comparator that returns the argument of the larger measure.
abbrev pub Picks : (ℕ → ℕ → ℕ) → (ℕ → ℕ) → Type 0
Picks f size =
    (a b : ℕ) → ((f a b ≡ a) ⊎ (f a b ≡ b)) × (size a ≤ size (f a b)) × (size b ≤ size (f a b))

-- How often an element occurs.
abbrev pub occurrences : ℕ → List ℕ → ℕ
occurrences a [] = 0
occurrences a (x ∷ xs) = if a == x then suc (occurrences a xs) else occurrences a xs

-- Each element may stand before the next one.
abbrev pub IsSorted : (ℕ → ℕ → Bool) → List ℕ → Type 0
IsSorted le [] = Unit
IsSorted le (x ∷ []) = Unit
IsSorted le (x ∷ y ∷ xs) = (le x y ≡ true) × IsSorted le (y ∷ xs)

-- `list_sort` with a comparator that orders any two elements.
pub record Sorts (list_sort : (ℕ → ℕ → Bool) → List ℕ → List ℕ) : Type 0 where
  pub same_items :
      (le : ℕ → ℕ → Bool) (xs : List ℕ) (a : ℕ) → occurrences a (list_sort le xs) ≡ occurrences a xs
  pub same_length : (le : ℕ → ℕ → Bool) (xs : List ℕ) → length (list_sort le xs) ≡ length xs
  pub sorted :
      (le : ℕ → ℕ → Bool)
      → ((a b : ℕ) → (le a b ≡ true) ⊎ (le b a ≡ true))
      → (xs : List ℕ) → IsSorted le (list_sort le xs)

pub record Lists : Type 0 where
  pub list_add : List ℕ → ℕ → List ℕ
  pub list_find : (ℕ → Bool) → List ℕ → Option ℕ
  pub list_remove_by_condition : (ℕ → Bool) → List ℕ → Option ℕ × List ℕ
  -- `list_remove(l, 0)` and `list_remove(l, l->elements_count - 1)`
  pub list_remove_first : List ℕ → Option ℕ × List ℕ
  pub list_remove_last : List ℕ → Option ℕ × List ℕ
  pub list_get_maximum : (ℕ → ℕ → ℕ) → List ℕ → Option ℕ
  pub list_sort : (ℕ → ℕ → Bool) → List ℕ → List ℕ
  pub list_add_lem : (xs : List ℕ) (x : ℕ) → list_add xs x ≡ xs ++ x ∷ []
  pub list_find_lem : (p : ℕ → Bool) (xs : List ℕ) → list_find p xs ≡ first p xs
  pub list_remove_by_condition_lem :
      (p : ℕ → Bool) (xs : List ℕ)
      → list_remove_by_condition p xs ≡ (first p xs, without_first p xs)
  pub list_remove_first_lem : (x : ℕ) (xs : List ℕ) → list_remove_first (x ∷ xs) ≡ (some x, xs)
  pub list_remove_first_nil : list_remove_first [] ≡ (none, [])
  pub list_remove_last_lem : (xs : List ℕ) (x : ℕ) → list_remove_last (xs ++ x ∷ []) ≡ (some x, xs)
  pub list_get_maximum_nil : (f : ℕ → ℕ → ℕ) → list_get_maximum f [] ≡ none
  pub list_get_maximum_lem :
      (f : ℕ → ℕ → ℕ) (size : ℕ → ℕ) (x : ℕ) (xs : List ℕ)
      → Picks f size
      → (m : ℕ) × (list_get_maximum f (x ∷ xs) ≡ some m)
        × IsIn m (x ∷ xs)
        × ((a : ℕ) → IsIn a (x ∷ xs) → size a ≤ size m)
  pub list_sort_lem : Sorts list_sort

insert : (ℕ → ℕ → Bool) → ℕ → List ℕ → List ℕ
insert le a [] = a ∷ []
insert le a (x ∷ xs) = if le a x then a ∷ x ∷ xs else x ∷ insert le a xs

pub insertion_sort : (ℕ → ℕ → Bool) → List ℕ → List ℕ
insertion_sort le [] = []
insertion_sort le (x ∷ xs) = insert le x (insertion_sort le xs)

insert_items :
    (le : ℕ → ℕ → Bool) (b : ℕ) (xs : List ℕ) (a : ℕ)
    → occurrences a (insert le b xs) ≡ occurrences a (b ∷ xs)
unfolding insert
insert_items le b [] a = refl
insert_items le b (x ∷ xs) a = ground (arith, insert_items le b xs a)

length-insert :
    (le : ℕ → ℕ → Bool) (b : ℕ) (xs : List ℕ) → length (insert le b xs) ≡ suc (length xs)
unfolding insert
length-insert le b [] = refl
length-insert le b (x ∷ xs) = ground (arith, length-insert le b xs)

-- What comes first after an insertion is the new element or the old head.
insert-IsSorted :
    (le : ℕ → ℕ → Bool)
    → ((a b : ℕ) → (le a b ≡ true) ⊎ (le b a ≡ true))
    → (b : ℕ) (xs : List ℕ) → IsSorted le xs
    → IsSorted le (insert le b xs)
unfolding insert
insert-IsSorted le total b [] h = tt
insert-IsSorted le total b (x ∷ []) h = elim (Bool-cases (le b x)) [
  | inl e ↦ rw e (e, tt)
  | inr e ↦ rw e (other (total b x) e, tt)
]
  where
    other : (le b x ≡ true) ⊎ (le x b ≡ true) → le b x ≡ false → le x b ≡ true
    other (inl p) q = cc
    other (inr p) q = p
insert-IsSorted le total b (x ∷ y ∷ xs) h = elim (Bool-cases (le b x)) [
  | inl e ↦ rw e (e, h)
  | inr e ↦ rw e (elim (Bool-cases (le b y)) [
    | inl f ↦ rw f (other (total b x) e, (f, h.1))
    | inr f ↦ rw f (h.0, (rw f at (insert-IsSorted le total b (y ∷ xs) h.1)))
  ])
]
  where
    other : (le b x ≡ true) ⊎ (le x b ≡ true) → le b x ≡ false → le x b ≡ true
    other (inl p) q = cc
    other (inr p) q = p

pub insertion_sort-Sorts : Sorts insertion_sort
unfolding insertion_sort
insertion_sort-Sorts = record { same_items = items; same_length = lengths; sorted = sorts }
  where
    items :
        (le : ℕ → ℕ → Bool) (xs : List ℕ) (a : ℕ)
        → occurrences a (insertion_sort le xs) ≡ occurrences a xs
    items le [] a = refl
    items le (x ∷ xs) a =
        insert_items le x (insertion_sort le xs) a
        ∙ ap (λ n. if a == x then suc n else n) (items le xs a)

    lengths : (le : ℕ → ℕ → Bool) (xs : List ℕ) → length (insertion_sort le xs) ≡ length xs
    lengths le [] = refl
    lengths le (x ∷ xs) = length-insert le x (insertion_sort le xs) ∙ ap suc (lengths le xs)

    sorts :
        (le : ℕ → ℕ → Bool)
        → ((a b : ℕ) → (le a b ≡ true) ⊎ (le b a ≡ true))
        → (xs : List ℕ) → IsSorted le (insertion_sort le xs)
    sorts le total [] = tt
    sorts le total (x ∷ xs) = insert-IsSorted le total x (insertion_sort le xs) (sorts le total xs)

-- A list library that meets the laws.
take_first : List ℕ → Option ℕ × List ℕ
take_first [] = (none, [])
take_first (x ∷ xs) = (some x, xs)

pub take_last : List ℕ → Option ℕ × List ℕ
take_last [] = (none, [])
take_last (x ∷ xs) = elim (take_last xs).0 [
  | none ↦ (some x, [])
  | some y ↦ (some y, x ∷ (take_last xs).1)
]

pub take_last-append : (xs : List ℕ) (x : ℕ) → take_last (xs ++ x ∷ []) ≡ (some x, xs)
unfolding take_last
take_last-append [] x = refl
take_last-append (y ∷ xs) x = rw (take_last-append xs x) (rw (take_last-append xs x))

greatest : (ℕ → ℕ → ℕ) → ℕ → List ℕ → ℕ
greatest f a [] = a
greatest f a (x ∷ xs) = greatest f (f a x) xs

pub maximum : (ℕ → ℕ → ℕ) → List ℕ → Option ℕ
maximum f [] = none
maximum f (x ∷ xs) = some (greatest f x xs)

greatest-IsIn :
    (f : ℕ → ℕ → ℕ) (size : ℕ → ℕ) (a : ℕ) (xs : List ℕ)
    → Picks f size
    → IsIn (greatest f a xs) (a ∷ xs)
      × (size a ≤ size (greatest f a xs))
      × ((b : ℕ) → IsIn b xs → size b ≤ size (greatest f a xs))
unfolding greatest
greatest-IsIn f size a [] p = (inl refl, omega arith, λ b h. absurd h)
greatest-IsIn f size a (x ∷ xs) p =
    let (inside, start, rest) = greatest-IsIn f size (f a x) xs p in
    let (which, left, right) = p a x in
    (located which inside, omega (arith, start, left), bound rest (omega (arith, start, right)))
  where
    located :
        (f a x ≡ a) ⊎ (f a x ≡ x)
        → IsIn (greatest f (f a x) xs) (f a x ∷ xs)
        → IsIn (greatest f (f a x) xs) (a ∷ x ∷ xs)
    located which (inr h) = inr (inr h)
    located (inl e) (inl h) = inl (cc)
    located (inr e) (inl h) = inr (inl (cc))

    bound :
        ((b : ℕ) → IsIn b xs → size b ≤ size (greatest f (f a x) xs))
        → size x ≤ size (greatest f (f a x) xs)
        → (b : ℕ) → IsIn b (x ∷ xs)
        → size b ≤ size (greatest f (f a x) xs)
    bound rest h b (inl e) = rw e h
    bound rest h b (inr k) = rest b k

pub maximum_lem :
    (f : ℕ → ℕ → ℕ) (size : ℕ → ℕ) (x : ℕ) (xs : List ℕ)
    → Picks f size
    → (m : ℕ) × (maximum f (x ∷ xs) ≡ some m)
      × IsIn m (x ∷ xs)
      × ((a : ℕ) → IsIn a (x ∷ xs) → size a ≤ size m)
unfolding maximum
maximum_lem f size x xs p =
    let (inside, start, rest) = greatest-IsIn f size x xs p in
    (greatest f x xs, refl, inside, bound start rest)
  where
    bound :
        size x ≤ size (greatest f x xs)
        → ((b : ℕ) → IsIn b xs → size b ≤ size (greatest f x xs))
        → (a : ℕ) → IsIn a (x ∷ xs)
        → size a ≤ size (greatest f x xs)
    bound start rest a (inl e) = rw e start
    bound start rest a (inr k) = rest a k

unfoldable pub plain_lists : Lists
unfolding take_first take_last maximum greatest insertion_sort insert
plain_lists = record {
  list_add = λ xs x. xs ++ x ∷ [];
  list_find = first;
  list_remove_by_condition = λ p xs. (first p xs, without_first p xs);
  list_remove_first = take_first;
  list_remove_last = take_last;
  list_get_maximum = maximum;
  list_sort = insertion_sort;
  list_add_lem = λ xs x. refl;
  list_find_lem = λ p xs. refl;
  list_remove_by_condition_lem = λ p xs. refl;
  list_remove_first_lem = λ x xs. refl;
  list_remove_first_nil = refl;
  list_remove_last_lem = take_last-append;
  list_get_maximum_nil = λ f. refl;
  list_get_maximum_lem = maximum_lem;
  list_sort_lem = insertion_sort-Sorts;
}

-- The dictionaries of the same library: keys are texts, values are addresses.
pub record Dictionaries (D : Type 0) : Type 0 where
  pub dictionary_get : D → List ℕ → Option ℕ
  pub dictionary_put : D → List ℕ → ℕ → D
  pub dictionary_remove : D → List ℕ → D
  pub dictionary_get-put_self :
      (d : D) (key : List ℕ) (v : ℕ) → dictionary_get (dictionary_put d key v) key ≡ some v
  pub dictionary_get-put_ne :
      (d : D) (key other : List ℕ) (v : ℕ)
      → (key ≡ other → ⊥)
      → dictionary_get (dictionary_put d key v) other ≡ dictionary_get d other
  pub dictionary_get-remove_self :
      (d : D) (key : List ℕ) → dictionary_get (dictionary_remove d key) key ≡ none
  pub dictionary_get-remove_ne :
      (d : D) (key other : List ℕ)
      → (key ≡ other → ⊥)
      → dictionary_get (dictionary_remove d key) other ≡ dictionary_get d other
