-- ===== src/Shared/Stream/Codec.antt =====
-- Values written to a buffer are read back: integers, strings and lists.
use mathlib.Core.List.{append_assoc, append-nil}
use sisop_2c.Prelude.{
  ℕ, ◌+◌, ◌%◌, ◌^◌, ◌<◌, ◌≡◌, ◌≢◌, refl, ap, ap₂, sym, ◌∙◌, List, [], ◌∷◌, ◌++◌, arith, length,
  length-append,
}
use sisop_2c.Shared.Stream.{
  StreamBuffer, add_u32, bytes_u32, u32_bytes, c_string, stream_add_uint32, stream_add_string,
  add_each, stream_add_list, stream_take, stream_take_uint32, stream_take_string, take_each,
  stream_take_list,
}
use sisop_2c.Shared.Stream.Laws.{
  written, unread, IsStream, Added, stream_add-Added, stream_take_lem,
}

-- `add` writes the bytes `bs`, and `take_one` reads them as the value `a`.
abbrev pub Writes : (StreamBuffer → StreamBuffer) → List ℕ → Type 0
Writes add bs =
    (st : StreamBuffer) → IsStream st → st.offset + length bs < 2 ^ 32 → Added st bs (add st)

abbrev pub Reads {ℓ} : {A : Type ℓ} → (StreamBuffer → A × StreamBuffer) → List ℕ → A → Type ℓ
Reads take_one bs a =
    (st : StreamBuffer) (ys : List ℕ)
    → unread st ≡ bs ++ ys
    → st.offset + length bs < 2 ^ 32
    → ((take_one st).0 ≡ a)
      × (unread (take_one st).1 ≡ ys)
      × ((take_one st).1.offset ≡ st.offset + length bs)

-- The four bytes of a 32-bit number give the number back.
pub u32_bytes-bytes_u32 : (v : ℕ) → v < 2 ^ 32 → u32_bytes (bytes_u32 v) ≡ v
u32_bytes-bytes_u32 v h = omega arith

pub stream_add_uint32-Writes :
    (fresh : ℕ → ℕ) (v : ℕ) → Writes (λ st. stream_add_uint32 fresh st v) (bytes_u32 v)
unfolding stream_add_uint32
stream_add_uint32-Writes fresh v st = stream_add-Added fresh st (bytes_u32 v)

pub stream_take_uint32-Reads : (v : ℕ) → v < 2 ^ 32 → Reads stream_take_uint32 (bytes_u32 v) v
unfolding stream_take_uint32
stream_take_uint32-Reads v small st ys e h =
    let (bytes, rest, at) = stream_take_lem st (bytes_u32 v) ys e h in
    (ap u32_bytes bytes ∙ u32_bytes-bytes_u32 v small, rest, at)

-- Two writes in a row write the bytes of both.
pub Added-trans :
    {s t u : StreamBuffer} {xs ys : List ℕ} → Added s xs t → Added t ys u → Added s (xs ++ ys) u
Added-trans {s} {t} {u} {xs} {ys} a b = record {
  valid = b.valid;
  appended = b.appended ∙ ap (λ ws. ws ++ ys) a.appended ∙ append_assoc (written s) xs ys;
  advanced = omega (arith, a.advanced, b.advanced, length-append xs ys);
}

abbrev pub string_bytes : List ℕ → List ℕ
string_bytes text = bytes_u32 (length text + 1) ++ (text ++ 0 ∷ [])

-- No byte of the text is the terminator.
abbrev pub IsText : List ℕ → Type 0
IsText [] = Unit {0}
IsText (b ∷ bs) = (b ≢ 0) × IsText bs

c_string-append : (text : List ℕ) → IsText text → c_string (text ++ 0 ∷ []) ≡ text
unfolding c_string
c_string-append [] h = refl
c_string-append (b ∷ bs) h = ground (arith, c_string-append bs h.1)

pub stream_add_string-Writes :
    (fresh : ℕ → ℕ) (text : List ℕ)
    → Writes (λ st. stream_add_string fresh st text) (string_bytes text)
unfolding stream_add_string
stream_add_string-Writes fresh text st v h =
    rw (no_wrap, stream_add_string)
      (Added-trans size
        (stream_add-Added fresh _ (text ++ 0 ∷ []) size.valid (omega (arith, size.advanced))))
  where
    no_wrap : add_u32 (length text) 1 ≡ length text + 1
    no_wrap = omega (arith, length-append text (0 ∷ []))

    size : Added st (bytes_u32 (length text + 1)) (stream_add_uint32 fresh st (length text + 1))
    size = stream_add_uint32-Writes fresh (length text + 1) st v (omega arith)

pub stream_take_string-Reads :
    (text : List ℕ) → IsText text → Reads stream_take_string (string_bytes text) text
unfolding stream_take_string
stream_take_string-Reads text t st ys e h = (
  rw size (ap c_string rest.0 ∙ c_string-append text t),
  rw size rest.1,
  rw size (omega (arith, rest.2, head.2)),
)
  where
    head :
        ((stream_take_uint32 st).0 ≡ length text + 1)
        × (unread (stream_take_uint32 st).1 ≡ (text ++ 0 ∷ []) ++ ys)
        × ((stream_take_uint32 st).1.offset ≡ st.offset + 4)
    head =
        stream_take_uint32-Reads (length text + 1) (omega (arith, length-append text (0 ∷ []))) st
          ((text ++ 0 ∷ []) ++ ys) e (omega arith)

    size : (stream_take_uint32 st).0 ≡ length (text ++ 0 ∷ [])
    size = omega (arith, head.0, length-append text (0 ∷ []))

    rest :
        ((stream_take (stream_take_uint32 st).1 (length (text ++ 0 ∷ []))).0 ≡ text ++ 0 ∷ [])
        × (unread (stream_take (stream_take_uint32 st).1 (length (text ++ 0 ∷ []))).1 ≡ ys)
        × ((stream_take (stream_take_uint32 st).1 (length (text ++ 0 ∷ []))).1.offset
            ≡ (stream_take_uint32 st).1.offset + length (text ++ 0 ∷ []))
    rest =
        stream_take_lem (stream_take_uint32 st).1 (text ++ 0 ∷ []) ys head.1 (omega (arith, head.2))

-- The bytes of the elements of a list, and of the list with its length.
abbrev pub elements {ℓ} : {A : Type ℓ} → (A → List ℕ) → List A → List ℕ
elements encode [] = []
elements encode (x ∷ xs) = encode x ++ elements encode xs

abbrev pub list_bytes {ℓ} : {A : Type ℓ} → (A → List ℕ) → List A → List ℕ
list_bytes encode xs = bytes_u32 (length xs) ++ elements encode xs

module _ {A : Type 0} (fresh : ℕ → ℕ) (encode : A → List ℕ) (add : StreamBuffer → A → StreamBuffer)
    (take_elem : StreamBuffer → A × StreamBuffer)
    (writes : (x : A) → Writes (λ st. add st x) (encode x))
    (reads : (x : A) → Reads take_elem (encode x) x) where
  add_each-Writes : (xs : List A) → Writes (λ st. add_each fresh add st xs) (elements encode xs)
  unfolding add_each
  add_each-Writes [] st v h = record {
    valid = v;
    appended = sym (append-nil (written st));
    advanced = omega arith;
  }
  add_each-Writes (x ∷ xs) st v h = Added-trans first (
      add_each-Writes xs (add st x) first.valid
        (omega (arith, first.advanced, length-append (encode x) (elements encode xs))))
    where
      first : Added st (encode x) (add st x)
      first = writes x st v (omega (arith, length-append (encode x) (elements encode xs)))

  take_each-Reads : (xs : List A) → Reads (take_each take_elem (length xs)) (elements encode xs) xs
  unfolding take_each
  take_each-Reads [] st ys e h = (refl, e, omega arith)
  take_each-Reads (x ∷ xs) st ys e h =
      let (same, left, at) =
        reads x st (elements encode xs ++ ys) (e ∙ append_assoc (encode x) (elements encode xs) ys)
          (omega (arith, length-append (encode x) (elements encode xs))) in
      let (sames, over, end) =
        take_each-Reads xs (take_elem st).1 ys left
          (omega (arith, at, length-append (encode x) (elements encode xs))) in
      (
        ap₂ (λ y zs. y ∷ zs) same sames,
        over,
        omega (arith, end, at, length-append (encode x) (elements encode xs)),
      )

  pub stream_add_list-Writes :
      (xs : List A)
      → length xs < 2 ^ 32
      → Writes (λ st. stream_add_list fresh add st xs) (list_bytes encode xs)
  unfolding stream_add_list
  stream_add_list-Writes xs small st v h =
      rw (no_wrap, stream_add_list)
        (Added-trans size (add_each-Writes xs _ size.valid (omega (arith, size.advanced))))
    where
      no_wrap : length xs % 2 ^ 32 ≡ length xs
      no_wrap = omega arith

      size : Added st (bytes_u32 (length xs)) (stream_add_uint32 fresh st (length xs))
      size = stream_add_uint32-Writes fresh (length xs) st v (omega arith)

  pub stream_take_list-Reads :
      (xs : List A)
      → length xs < 2 ^ 32
      → Reads (stream_take_list take_elem) (list_bytes encode xs) xs
  unfolding stream_take_list
  stream_take_list-Reads xs small st ys e h =
      rw head.0 (rest.0, rest.1, omega (arith, rest.2, head.2))
    where
      head :
          ((stream_take_uint32 st).0 ≡ length xs)
          × (unread (stream_take_uint32 st).1 ≡ elements encode xs ++ ys)
          × ((stream_take_uint32 st).1.offset ≡ st.offset + 4)
      head =
          stream_take_uint32-Reads (length xs) small st (elements encode xs ++ ys) e (omega arith)

      rest :
          ((take_each take_elem (length xs) (stream_take_uint32 st).1).0 ≡ xs)
          × (unread (take_each take_elem (length xs) (stream_take_uint32 st).1).1 ≡ ys)
          × ((take_each take_elem (length xs) (stream_take_uint32 st).1).1.offset
              ≡ (stream_take_uint32 st).1.offset + length (elements encode xs))
      rest = take_each-Reads xs (stream_take_uint32 st).1 ys head.1 (omega (arith, head.2))
