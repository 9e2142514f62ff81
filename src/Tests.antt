-- ===== src/Tests.antt =====
-- Concrete values: the parameters of the development as concrete functions, and in the modules below
-- each theorem at an input.
use sisop_2c.Prelude.{
  ℕ, ◌+◌, ◌-◌, ◌*◌, ◌/◌, ◌≡◌, ◌⊎◌, refl, ap, ap₂, inl, inr, Bool, true, false, ◌&&◌, Option, none,
  some, List, [], ◌∷◌, ◌==◌, leb, if◌then◌else◌, arith, ℤ, pos, Bool-cases,
}
use sisop_2c.Shared.Commons.{Dictionaries}
use sisop_2c.Shared.Queue
use sisop_2c.Kernel.Detector.{Row, Detector}
use sisop_2c.Kernel.State.{Kernel, Process, mate_sem_create, create_process, IoDevice}
use sisop_2c.Kernel.Scheduler.{Reals}
mod Shared
mod Swamp
mod Kernels
mod Memory
mod Wires
mod Heaps
mod Remotes
mod Chains
mod Sessions

abbrev pub same_key : List ℕ → List ℕ → Bool
same_key [] [] = true
same_key [] (y ∷ ys) = false
same_key (x ∷ xs) [] = false
same_key (x ∷ xs) (y ∷ ys) = x == y && same_key xs ys

pub same_key_self : (xs : List ℕ) → same_key xs xs ≡ true
same_key_self [] = refl
same_key_self (x ∷ xs) = ground (arith, same_key_self xs)

same_number : (x y : ℕ) (b : Bool) → (x == y && b) ≡ true → x ≡ y
same_number x y b h = ground arith

same_rest : (x y : ℕ) (b : Bool) → (x == y && b) ≡ true → b ≡ true
same_rest x y b h = ground arith

same_key-true : (xs ys : List ℕ) → same_key xs ys ≡ true → xs ≡ ys
same_key-true [] [] h = refl
same_key-true [] (y ∷ ys) h = cc
same_key-true (x ∷ xs) [] h = cc
same_key-true (x ∷ xs) (y ∷ ys) h =
    ap₂ (λ a as'. a ∷ as') (same_number x y _ h) (same_key-true xs ys (same_rest x y _ h))

pub other_key : (key other : List ℕ) → (key ≡ other → ⊥) → same_key key other ≡ false
other_key key other ne = elim (Bool-cases (same_key key other)) [
  | inl h ↦ absurd (ne (same_key-true key other h))
  | inr h ↦ h
]

abbrev pub Table : Type 0
Table = List ℕ → Option ℕ

abbrev pub empty_table : Table
empty_table = λ key. none

abbrev pub tables : Dictionaries Table
tables = record {
  dictionary_get = λ d key. d key;
  dictionary_put = λ d key v other. if same_key key other then some v else d other;
  dictionary_remove = λ d key other. if same_key key other then none else d other;
  dictionary_get-put_self = λ d key v. ap (λ b. if b then some v else d key) (same_key_self key);
  dictionary_get-put_ne =
      λ d key other v ne. ap (λ b. if b then some v else d other) (other_key key other ne);
  dictionary_get-remove_self = λ d key. ap (λ b. if b then none else d key) (same_key_self key);
  dictionary_get-remove_ne =
      λ d key other ne. ap (λ b. if b then none else d other) (other_key key other ne);
}

-- Natural numbers in place of `double`.
abbrev pub naturals : Reals ℕ
naturals = record {
  zero = 0;
  one = 1;
  add = λ a b. a + b;
  sub = λ a b. a - b;
  mul = λ a b. a * b;
  div = λ a b. a / b;
  leq = leb;
}

pub naturals_ordered : (a b : ℕ) → (leb a b ≡ true) ⊎ (leb b a ≡ true)
naturals_ordered a b = elim (Bool-cases (leb a b)) [ inl h ↦ inl h | inr h ↦ inr (ground arith) ]

abbrev pub digits : ℕ → List ℕ
digits n = (48 + n) ∷ []

abbrev pub from_some {ℓ} : {A : Type ℓ} → A → Option A → A
from_some a none = a
from_some a (some b) = b

abbrev pub row : ℕ → List ℤ → List ℤ → Row
row proc allocation request = record { proc = proc; allocation = allocation; request = request }

abbrev pub kernel_with : Detector → Kernel ℕ Table
kernel_with dd = record {
  new_queue = Queue.create;
  ready_queue = Queue.create;
  blocked_queue = Queue.create;
  susp_blocked_queue = Queue.create;
  susp_ready_queue = Queue.create;
  dd = dd;
  cupos_libres = pos 0;
  sem_multiprogram = 0;
  sem_new_process = 0;
  long_term_sem = 0;
  processes = λ a. create_process 0 a a 1;
  mate_sems = λ a. mate_sem_create [] 0;
  devices = λ a. record { name = []; duration = 0; waiting = Queue.create };
  sem_dict = empty_table;
  io_dict = empty_table;
  sent = [];
  closed = [];
}
