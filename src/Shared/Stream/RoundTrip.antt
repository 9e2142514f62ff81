-- ===== src/Shared/Stream/RoundTrip.antt =====
-- What was added to a buffer is taken from it again, from the place where it was added.
use mathlib.Core.List.{append_assoc}
use sisop_2c.Prelude.{
  length-take, ℕ, zero, suc, ◌+◌, ◌^◌, ◌<◌, ◌≡◌, refl, ap, sym, ◌∙◌, List, [], ◌∷◌, ◌++◌, arith,
  length, take, drop, drop-length-append,
}
use sisop_2c.Shared.Stream.{
  StreamBuffer, stream_add_string, stream_take_string, stream_add_list, stream_take_list,
}
use sisop_2c.Shared.Stream.Laws.{written, unread, IsStream, Added}
use sisop_2c.Shared.Stream.Codec.{
  Writes, Reads, IsText, string_bytes, stream_add_string-Writes, stream_take_string-Reads, elements,
  list_bytes, stream_add_list-Writes, stream_take_list-Reads,
}

-- The buffer with its offset set back, as the receiver of its bytes starts.
abbrev pub rewind : ℕ → StreamBuffer → StreamBuffer
rewind at st = record st { offset = at }

take-append-drop : (n : ℕ) (xs : List ℕ) → xs ≡ take n xs ++ drop n xs
take-append-drop zero xs = refl
take-append-drop (suc n) [] = refl
take-append-drop (suc n) (x ∷ xs) = ap (λ ys. x ∷ ys) (take-append-drop n xs)

unread-rewind :
    (st st' : StreamBuffer) (bs : List ℕ)
    → IsStream st
    → Added st bs st'
    → unread (rewind st.offset st') ≡ bs ++ unread st'
unread-rewind st st' bs v a =
    ap (drop st.offset) (
      take-append-drop st'.offset st'.stream
      ∙ ap (λ ws. ws ++ unread st') a.appended
      ∙ append_assoc (written st) bs (unread st'))
    ∙ ap (λ n. drop n (written st ++ (bs ++ unread st')))
        (sym (length-take st.offset st.stream (omega (arith, v.sized, v.inside))))
    ∙ drop-length-append (written st) (bs ++ unread st')

read_back {ℓ} :
    {A : Type ℓ} (add : StreamBuffer → StreamBuffer) (take_one : StreamBuffer → A × StreamBuffer)
    (bs : List ℕ) (a : A)
    → Writes add bs
    → Reads take_one bs a
    → (st : StreamBuffer) → IsStream st
    → st.offset + length bs < 2 ^ 32
    → ((take_one (rewind st.offset (add st))).0 ≡ a)
      × ((take_one (rewind st.offset (add st))).1.offset ≡ (add st).offset)
read_back add take_one bs a w r st v h =
    let (same, rest, at) =
      r (rewind st.offset (add st)) (unread (add st)) (unread-rewind st (add st) bs v (w st v h))
        h in
    (same, at ∙ sym (w st v h).advanced)

-- A string without a 0 byte that `streamAdd` wrote with its length, as long as the offset fits in 32
-- bits, is read back from where it was written, and the reader stands where the writer stood.
pub stream_take_string-stream_add_string :
    (fresh : ℕ → ℕ) (st : StreamBuffer) (text : List ℕ)
    → IsStream st
    → IsText text
    → st.offset + length (string_bytes text) < 2 ^ 32
    → ((stream_take_string (rewind st.offset (stream_add_string fresh st text))).0 ≡ text)
      × ((stream_take_string (rewind st.offset (stream_add_string fresh st text))).1.offset
          ≡ (stream_add_string fresh st text).offset)
stream_take_string-stream_add_string fresh st text v t h =
    read_back (λ s. stream_add_string fresh s text) stream_take_string (string_bytes text) text
      (stream_add_string-Writes fresh text) (stream_take_string-Reads text t) st v h

-- A list that was written with its length, by a function that writes the bytes of an element, is read
-- back with a function that reads them, as long as the length and the offset fit in 32 bits.
pub stream_take_list-stream_add_list :
    {A : Type 0} (fresh : ℕ → ℕ) (encode : A → List ℕ) (add : StreamBuffer → A → StreamBuffer)
    (take_elem : StreamBuffer → A × StreamBuffer)
    → ((x : A) → Writes (λ st. add st x) (encode x))
    → ((x : A) → Reads take_elem (encode x) x)
    → (st : StreamBuffer) (xs : List A) → IsStream st
    → length xs < 2 ^ 32
    → st.offset + (4 + length (elements encode xs)) < 2 ^ 32
    → ((stream_take_list take_elem (rewind st.offset (stream_add_list fresh add st xs))).0 ≡ xs)
      × ((stream_take_list take_elem (rewind st.offset (stream_add_list fresh add st xs))).1.offset
          ≡ (stream_add_list fresh add st xs).offset)
stream_take_list-stream_add_list fresh encode add take_elem writes reads st xs v small h =
    read_back (λ s. stream_add_list fresh add s xs) (stream_take_list take_elem)
      (list_bytes encode xs) xs
      (stream_add_list-Writes fresh encode add take_elem writes reads xs small)
      (stream_take_list-Reads fresh encode add take_elem writes reads xs small) st v (omega arith)
