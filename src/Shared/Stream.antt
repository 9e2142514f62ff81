-- ===== src/Shared/Stream.antt =====
-- The byte buffers that packets carry: shared/src/serialize.c, shared/include/serialize.h.
--
-- `fresh` gives the bytes of newly allocated memory, by position; nothing is assumed of them.
-- Integers are written as their bytes in memory, lowest first; an `int32_t` is its bit pattern.
pub mod Laws
pub mod Codec
pub mod RoundTrip
use sisop_2c.Prelude.{
  ℕ, zero, suc, ◌+◌, ◌*◌, ◌/◌, ◌%◌, ◌^◌, ◌≡◌, Bool, true, false, List, [], ◌∷◌, ◌++◌, if◌then◌else◌,
  ◌==◌, ltb, length, get_or, slice, overwrite,
}

-- `t_streamBuffer`
pub record StreamBuffer : Type 0 where
  pub offset : ℕ
  pub malloc_size : ℕ
  pub stream : List ℕ

abbrev pub initial_stream_size : ℕ
initial_stream_size = 64

-- `size_t` and `uint32_t` addition.
abbrev pub add_size : ℕ → ℕ → ℕ
add_size a b = (a + b) % 2 ^ 64

abbrev pub add_u32 : ℕ → ℕ → ℕ
add_u32 a b = (a + b) % 2 ^ 32

-- The `n` bytes of new memory from position `at` on.
abbrev pub allocated : (ℕ → ℕ) → ℕ → ℕ → List ℕ
allocated fresh at zero = []
allocated fresh at (suc n) = fresh at ∷ allocated fresh (at + 1) n

-- The bytes of a 32-bit integer, and the integer of four bytes.
abbrev pub bytes_u32 : ℕ → List ℕ
bytes_u32 v = v % 256 ∷ v / 2 ^ 8 % 256 ∷ v / 2 ^ 16 % 256 ∷ v / 2 ^ 24 % 256 ∷ []

abbrev pub u32_bytes : List ℕ → ℕ
u32_bytes bs =
    get_or bs 0 0 + get_or bs 1 0 * 2 ^ 8 + get_or bs 2 0 * 2 ^ 16 + get_or bs 3 0 * 2 ^ 24

-- The text of a C string: the bytes before the first 0.
unfoldable pub c_string : List ℕ → List ℕ
c_string [] = []
c_string (b ∷ bs) = if b == 0 then [] else b ∷ c_string bs

module _ (fresh : ℕ → ℕ) where
  unfoldable pub create_stream : ℕ → StreamBuffer
  create_stream size = record { offset = 0; malloc_size = size; stream = allocated fresh 0 size }

  -- The loop of `streamAssertFits` on at most `rounds` rounds; `realloc` keeps what is there.
  unfoldable pub stream_grow : ℕ → StreamBuffer → ℕ → StreamBuffer
  stream_grow zero st size = st
  stream_grow (suc rounds) st size =
      let grown =
        stream_grow rounds
          (record st {
            malloc_size = add_size st.malloc_size initial_stream_size;
            stream = st.stream ++ allocated fresh (length st.stream) initial_stream_size;
          })
          size in
      if ltb st.malloc_size (add_size st.offset size) then grown else st

  -- Each round adds 64 bytes, so `offset + size` rounds are enough.
  unfoldable pub stream_assert_fits : StreamBuffer → ℕ → StreamBuffer
  unfolding stream_grow
  stream_assert_fits st size = stream_grow (add_size st.offset size) st size

  -- `source` holds the `size` bytes behind the pointer.
  unfoldable pub stream_add : StreamBuffer → List ℕ → StreamBuffer
  stream_add st source =
      let fit = stream_assert_fits st (length source) in
      record fit {
        stream = overwrite fit.stream fit.offset source;
        offset = add_u32 fit.offset (length source);
      }

  -- `streamAdd_UINT32`
  unfoldable pub stream_add_uint32 : StreamBuffer → ℕ → StreamBuffer
  stream_add_uint32 st v = stream_add st (bytes_u32 v)

  -- An `int32_t`, as its bit pattern.
  unfoldable pub stream_add_int32 : StreamBuffer → ℕ → StreamBuffer
  unfolding stream_add
  stream_add_int32 st value = stream_add st (bytes_u32 value)

  unfoldable pub stream_add_uint8 : StreamBuffer → ℕ → StreamBuffer
  stream_add_uint8 st v = stream_add st (v % 256 ∷ [])

  -- `text` is the string without its final 0.
  unfoldable pub stream_add_string : StreamBuffer → List ℕ → StreamBuffer
  stream_add_string st text =
      stream_add (stream_add_uint32 st (add_u32 (length text) 1)) (text ++ 0 ∷ [])

  unfoldable pub add_each :
      {A : Type 0} → (StreamBuffer → A → StreamBuffer) → StreamBuffer → List A → StreamBuffer
  add_each add st [] = st
  add_each add st (x ∷ xs) = add_each add (add st x) xs

  unfoldable pub stream_add_list :
      {A : Type 0} → (StreamBuffer → A → StreamBuffer) → StreamBuffer → List A → StreamBuffer
  stream_add_list add st source =
      add_each add (stream_add_uint32 st (length source % 2 ^ 32)) source

-- The bytes that go to `*dest`. Past the end of the buffer nothing is read.
unfoldable pub stream_take : StreamBuffer → ℕ → List ℕ × StreamBuffer
stream_take st size =
    (slice st.stream st.offset size, record st { offset = add_u32 st.offset size })

unfoldable pub stream_take_uint32 : StreamBuffer → ℕ × StreamBuffer
unfolding stream_take
stream_take_uint32 st = let (bs, rest) = stream_take st 4 in (u32_bytes bs, rest)

unfoldable pub stream_take_int32 : StreamBuffer → ℕ × StreamBuffer
unfolding stream_take
stream_take_int32 st = let (bytes, st') = stream_take st 4 in (u32_bytes bytes, st')

unfoldable pub stream_take_uint8 : StreamBuffer → ℕ × StreamBuffer
unfolding stream_take
stream_take_uint8 st = let (bs, rest) = stream_take st 1 in (get_or bs 0 0, rest)

unfoldable pub stream_take_string : StreamBuffer → List ℕ × StreamBuffer
stream_take_string st =
    let (size, st') = stream_take_uint32 st in
    let (bs, rest) = stream_take st' size in (c_string bs, rest)

-- The loop of `streamTake_LIST_P` over the `n` elements that are left.
unfoldable pub take_each :
    {A : Type 0} → (StreamBuffer → A × StreamBuffer) → ℕ → StreamBuffer → List A × StreamBuffer
take_each take_elem zero st = ([], st)
take_each take_elem (suc n) st =
    let (x, st') = take_elem st in let (xs, rest) = take_each take_elem n st' in (x ∷ xs, rest)

unfoldable pub stream_take_list :
    {A : Type 0} → (StreamBuffer → A × StreamBuffer) → StreamBuffer → List A × StreamBuffer
stream_take_list take_elem st = let (n, st') = stream_take_uint32 st in take_each take_elem n st'
