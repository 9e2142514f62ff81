-- ===== src/Shared/Stream/Laws.antt =====
-- Adding appends to what is written, and taking reads what comes next.
use sisop_2c.Prelude.{
  take-append_left, ℕ, zero, suc, ◌+◌, ◌^◌, ◌<◌, ◌≤◌, ◌≡◌, refl, ap, ◌∙◌, inl, inr, List, [], ◌∷◌,
  ◌++◌, arith, true, ltb, ltb→lt, Bool-cases, length, take, drop, overwrite, length-append,
  length-overwrite, take-length-append, drop-length-append,
}
use sisop_2c.Shared.Stream.{
  StreamBuffer, add_size, initial_stream_size, allocated, create_stream, stream_grow,
  stream_assert_fits, stream_add, stream_take,
}

-- What has been added to a buffer, and what is left to take from it.
abbrev pub written : StreamBuffer → List ℕ
written st = take st.offset st.stream

abbrev pub unread : StreamBuffer → List ℕ
unread st = drop st.offset st.stream

-- The buffer has its stated size, and the offset lies in it.
pub record IsStream (st : StreamBuffer) : Type 0 where
  pub sized : length st.stream ≡ st.malloc_size
  pub inside : st.offset ≤ st.malloc_size
  pub small : st.malloc_size < 2 ^ 33

pub length-allocated : (fresh : ℕ → ℕ) (at n : ℕ) → length (allocated fresh at n) ≡ n
length-allocated fresh at zero = refl
length-allocated fresh at (suc n) = ap suc (length-allocated fresh (at + 1) n)

take-overwrite :
    (bs : List ℕ) (off : ℕ) (src : List ℕ) (n : ℕ)
    → n ≡ off + length src
    → n ≤ length bs
    → take n (overwrite bs off src) ≡ take off bs ++ src
take-overwrite [] zero [] zero e h = refl
take-overwrite [] zero [] (suc n) e h = absurd (omega arith)
take-overwrite (b ∷ bs) zero [] zero e h = refl
take-overwrite (b ∷ bs) zero [] (suc n) e h = absurd (omega arith)
take-overwrite [] zero (x ∷ xs) n e h = absurd (omega arith)
take-overwrite (b ∷ bs) zero (x ∷ xs) zero e h = absurd (omega arith)
take-overwrite (b ∷ bs) zero (x ∷ xs) (suc n) e h =
    ap (◌∷◌ x) (take-overwrite bs zero xs n (omega arith) (omega arith))
take-overwrite [] (suc off) src n e h = absurd (omega arith)
take-overwrite (b ∷ bs) (suc off) src zero e h = absurd (omega arith)
take-overwrite (b ∷ bs) (suc off) src (suc n) e h =
    ap (◌∷◌ b) (take-overwrite bs off src n (omega arith) (omega arith))

-- What growing a buffer keeps, and what it gains.
record Grown (st : StreamBuffer) (need : ℕ) (st' : StreamBuffer) : Type 0 where
  grown : IsStream st'
  same_offset : st'.offset ≡ st.offset
  same_bytes : written st' ≡ written st
  enough : need ≤ st'.malloc_size

stream_grow-Grown :
    (fresh : ℕ → ℕ) (size rounds : ℕ) (st : StreamBuffer)
    → IsStream st
    → st.offset + size < 2 ^ 32
    → st.offset + size ≤ st.malloc_size + rounds
    → Grown st (st.offset + size) (stream_grow fresh rounds st size)
unfolding stream_grow
stream_grow-Grown fresh size zero st v h g = record {
  grown = v;
  same_offset = refl;
  same_bytes = refl;
  enough = omega arith;
}
stream_grow-Grown fresh size (suc rounds) st v h g =
    elim (Bool-cases (ltb st.malloc_size (add_size st.offset size))) [
      | inl less ↦ rw less (
          further (stream_grow-Grown fresh size rounds bigger (bigger-IsStream less) h (room less)))
      | inr more ↦
          rw more
            (record { grown = v; same_offset = refl; same_bytes = refl; enough = ground arith })
    ]
  where
    bigger : StreamBuffer
    bigger = record st {
      malloc_size = add_size st.malloc_size initial_stream_size;
      stream = st.stream ++ allocated fresh (length st.stream) initial_stream_size;
    }

    bigger-IsStream : ltb st.malloc_size (add_size st.offset size) ≡ true → IsStream bigger
    bigger-IsStream less = record {
      sized = omega (
        arith,
        length-append st.stream (allocated fresh (length st.stream) initial_stream_size),
        length-allocated fresh (length st.stream) initial_stream_size,
        v.sized,
        v.small,
      );
      inside = omega (arith, v.inside, v.small);
      small = omega (arith, ltb→lt _ _ less);
    }

    room :
        ltb st.malloc_size (add_size st.offset size) ≡ true
        → st.offset + size ≤ add_size st.malloc_size initial_stream_size + rounds
    room less = omega (arith, v.small)

    further :
        Grown bigger (st.offset + size) (stream_grow fresh rounds bigger size)
        → Grown st (st.offset + size) (stream_grow fresh rounds bigger size)
    further r = record {
      grown = r.grown;
      same_offset = r.same_offset;
      same_bytes =
          r.same_bytes ∙ take-append_left st.offset st.stream _ (omega (arith, v.sized, v.inside));
      enough = r.enough;
    }

-- `streamAssertFits` makes room for `size` more bytes and keeps what is written.
stream_assert_fits-Grown :
    (fresh : ℕ → ℕ) (st : StreamBuffer) (size : ℕ)
    → IsStream st
    → st.offset + size < 2 ^ 32
    → Grown st (st.offset + size) (stream_assert_fits fresh st size)
unfolding stream_assert_fits
stream_assert_fits-Grown fresh st size v h =
    stream_grow-Grown fresh size (add_size st.offset size) st v h (omega arith)

-- What `streamAdd` does: the new bytes follow what was written.
pub record Added (st : StreamBuffer) (source : List ℕ) (st' : StreamBuffer) : Type 0 where
  pub valid : IsStream st'
  pub appended : written st' ≡ written st ++ source
  pub advanced : st'.offset ≡ st.offset + length source

-- `streamAdd` appends its bytes, growing the buffer as needed, while the offset fits in 32 bits.
pub stream_add-Added :
    (fresh : ℕ → ℕ) (st : StreamBuffer) (source : List ℕ)
    → IsStream st
    → st.offset + length source < 2 ^ 32
    → Added st source (stream_add fresh st source)
unfolding stream_add
stream_add-Added fresh st source v h = record {
  valid = record {
    sized = length-overwrite fit.stream fit.offset source ∙ g.grown.sized;
    inside = omega (arith, g.same_offset, g.enough);
    small = g.grown.small;
  };
  appended =
      take-overwrite fit.stream fit.offset source _ (omega (arith, g.same_offset))
        (omega (arith, g.same_offset, g.enough, g.grown.sized))
      ∙ ap (λ bs. bs ++ source) g.same_bytes;
  advanced = omega (arith, g.same_offset);
}
  where
    fit : StreamBuffer
    fit = stream_assert_fits fresh st (length source)

    g : Grown st (st.offset + length source) fit
    g = stream_assert_fits-Grown fresh st (length source) v h

-- A new buffer is empty.
pub create_stream-IsStream :
    (fresh : ℕ → ℕ) (size : ℕ)
    → size < 2 ^ 33
    → IsStream (create_stream fresh size) × (written (create_stream fresh size) ≡ [])
unfolding create_stream
create_stream-IsStream fresh size h =
    (record { sized = length-allocated fresh 0 size; inside = omega arith; small = h }, refl)

drop-drop : (at n : ℕ) (bs : List ℕ) (m : ℕ) → m ≡ at + n → drop m bs ≡ drop n (drop at bs)
drop-drop zero n bs m e = rw (to_n m e) refl
  where
    to_n : (m : ℕ) → m ≡ 0 + n → m ≡ n
    to_n m e = omega arith
drop-drop (suc at) zero [] zero e = refl
drop-drop (suc at) zero [] (suc m) e = refl
drop-drop (suc at) (suc n) [] zero e = refl
drop-drop (suc at) (suc n) [] (suc m) e = refl
drop-drop (suc at) n (b ∷ bs) zero e = absurd (omega arith)
drop-drop (suc at) n (b ∷ bs) (suc m) e = drop-drop at n bs m (omega arith)

-- `streamTake` reads the bytes that come next, and goes past them.
pub stream_take_lem :
    (st : StreamBuffer) (xs ys : List ℕ)
    → unread st ≡ xs ++ ys
    → st.offset + length xs < 2 ^ 32
    → ((stream_take st (length xs)).0 ≡ xs)
      × (unread (stream_take st (length xs)).1 ≡ ys)
      × ((stream_take st (length xs)).1.offset ≡ st.offset + length xs)
unfolding stream_take
stream_take_lem st xs ys e h = (
  rw e (take-length-append xs ys),
  drop-drop st.offset (length xs) st.stream _ (omega arith)
      ∙ ap (drop (length xs)) e
      ∙ drop-length-append xs ys,
  omega arith,
)
