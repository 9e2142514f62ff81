-- ===== src/Tests/Shared.antt =====
-- The theorems on the shared library at concrete values.
use sisop_2c.Prelude.{
  ℕ, ◌^◌, ◌<◌, ◌≡◌, refl, ap, ◌∙◌, Bool, true, false, ◌==◌, some, List, [], ◌∷◌, arith,
}
use sisop_2c.Shared.Commons.{plain_lists}
use sisop_2c.Shared.Queue
use sisop_2c.Shared.Queue.Order.{put_all, take_all, take_all-put_all}
use sisop_2c.Shared.Stream.{
  StreamBuffer, bytes_u32, create_stream, stream_add_uint32, stream_take_uint32, stream_add_string,
  stream_take_string, stream_add_list, stream_take_list,
}
use sisop_2c.Shared.Stream.Laws.{IsStream, create_stream-IsStream}
use sisop_2c.Shared.Stream.Codec.{Reads, IsText, stream_add_uint32-Writes, stream_take_uint32-Reads}
use sisop_2c.Shared.Stream.RoundTrip.{
  rewind, stream_take_string-stream_add_string, stream_take_list-stream_add_list,
}

zeros : ℕ → ℕ
zeros n = 0

two_bytes : StreamBuffer
two_bytes = create_stream zeros 2

two_bytes-IsStream : IsStream two_bytes
unfolding two_bytes
two_bytes-IsStream = (create_stream-IsStream zeros 2 (omega arith)).0

small_offset : two_bytes.offset ≡ 0
unfolding two_bytes create_stream
small_offset = refl

ab : List ℕ
ab = 97 ∷ 98 ∷ []

ab-IsText : IsText ab
unfolding ab
ab-IsText = ((λ h. omega arith), ((λ h. omega arith), tt))

stream_take_string-stream_add_string_example :
    ((stream_take_string (rewind two_bytes.offset (stream_add_string zeros two_bytes ab))).0 ≡ ab)
    × ((stream_take_string
          (rewind two_bytes.offset (stream_add_string zeros two_bytes ab))).1.offset
        ≡ (stream_add_string zeros two_bytes ab).offset)
unfolding ab
stream_take_string-stream_add_string_example =
    stream_take_string-stream_add_string zeros two_bytes ab two_bytes-IsStream ab-IsText
      (omega (arith, small_offset))

take_all-put_all_example :
    take_all plain_lists 2 (put_all plain_lists Queue.create (5 ∷ 6 ∷ []))
    ≡ some (5 ∷ 6 ∷ [], Queue.create)
take_all-put_all_example = take_all-put_all plain_lists Queue.create (5 ∷ 6 ∷ []) refl refl

-- Flags, each written as a 32-bit 0 or 1.
abbrev bit : Bool → ℕ
bit true = 1
bit false = 0

abbrev is_one : ℕ → Bool
is_one n = n == 1

abbrev add_flag : StreamBuffer → Bool → StreamBuffer
add_flag st b = stream_add_uint32 zeros st (bit b)

abbrev take_flag : StreamBuffer → Bool × StreamBuffer
take_flag st = (is_one (stream_take_uint32 st).0, (stream_take_uint32 st).1)

flag_bit : (b : Bool) → is_one (bit b) ≡ b
flag_bit true = refl
flag_bit false = refl

bit_small : (b : Bool) → bit b < 2 ^ 32
bit_small true = omega arith
bit_small false = omega arith

take_flag-Reads : (b : Bool) → Reads take_flag (bytes_u32 (bit b)) b
take_flag-Reads b st ys e h =
    let (same, rest, at) = stream_take_uint32-Reads (bit b) (bit_small b) st ys e h in
    (ap is_one same ∙ flag_bit b, rest, at)

stream_take_list-stream_add_list_example :
    ((stream_take_list take_flag
        (rewind two_bytes.offset (stream_add_list zeros add_flag two_bytes (true ∷ false ∷ [])))).0
      ≡ true ∷ false ∷ [])
    × ((stream_take_list take_flag (
          rewind two_bytes.offset
            (stream_add_list zeros add_flag two_bytes (true ∷ false ∷ [])))).1.offset
        ≡ (stream_add_list zeros add_flag two_bytes (true ∷ false ∷ [])).offset)
stream_take_list-stream_add_list_example =
    stream_take_list-stream_add_list zeros (λ b. bytes_u32 (bit b)) add_flag take_flag
      (λ b. stream_add_uint32-Writes zeros (bit b)) take_flag-Reads two_bytes (true ∷ false ∷ [])
      two_bytes-IsStream (omega arith) (omega (arith, small_offset))
