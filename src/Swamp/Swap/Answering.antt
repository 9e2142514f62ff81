-- ===== src/Swamp/Swap/Answering.antt =====
-- What the swap server reads from a request and answers: swamp/src/petitionHandlers.c and the loop of
-- `main` in swamp/src/swap.c.
use mathlib.Core.List.{append-nil}
use sisop_2c.Prelude.{
  length-take_at_most, ℕ, ◌+◌, ◌^◌, ◌<◌, ◌≡◌, refl, sym, ap, ap₂, ◌∙◌, some, List, [], ◌++◌, arith,
  length, take,
}
use sisop_2c.Shared.Commons.{Lists}
use sisop_2c.Shared.Stream.{
  StreamBuffer, bytes_u32, create_stream, stream_take, stream_take_uint32, stream_take_int32,
}
use sisop_2c.Shared.Stream.Laws.{
  written, unread, IsStream, create_stream-IsStream, stream_add-Added, stream_take_lem,
}
use sisop_2c.Shared.Stream.Codec.{stream_take_uint32-Reads}
use sisop_2c.Shared.Networking.{SwapHeader, swap_code}
use sisop_2c.Shared.Networking.Sockets.{Sockets, SocketPacket}
use sisop_2c.Shared.Networking.Delivery.{IsDelivering, IsAccepting}
use sisop_2c.Shared.Networking.Framing.{
  packet_bytes, received_packet, socket_get_packet_lem, sent-socket_send_packet,
}
use sisop_2c.Shared.Networking.Quiet.{sent-socket_get_packet}
use sisop_2c.Swamp.SwapFile.{PageMetadata}
use sisop_2c.Swamp.Swap.{
  SwapConfig, Swap, Answer, Assignment, save_page_of, save_page, read_page_of, read_page,
  destroy_page_of, destroy_page,
}
use sisop_2c.Swamp.Swap.Serving.{
  Round, answer_packet, handle, answered, handled, retried, serve_round,
}

abbrev pub request_fields : ℕ → ℕ → List ℕ → List ℕ
request_fields pid page content = bytes_u32 pid ++ (bytes_u32 page ++ content)

-- The payload of an answer, and its header.
abbrev pub answer_body : SwapConfig → Answer → List ℕ
answer_body config Answer.swap_ok = []
answer_body config Answer.swap_error = []
answer_body config (Answer.page_data bytes) = take config.page_size bytes

abbrev pub answer_code : Answer → ℕ
answer_code Answer.swap_ok = swap_code SwapHeader.swap_ok
answer_code Answer.swap_error = swap_code SwapHeader.swap_error
answer_code (Answer.page_data bytes) = swap_code SwapHeader.page

pub length-answer_body :
    (config : SwapConfig) (answer : Answer)
    → config.page_size < 2 ^ 32
    → length (answer_body config answer) < 2 ^ 32
length-answer_body config Answer.swap_ok h = omega arith
length-answer_body config Answer.swap_error h = omega arith
length-answer_body config (Answer.page_data bytes) h =
    omega (arith, length-take_at_most config.page_size bytes)

-- What every handler takes from its request first, with the place of the rest.
record Taken (st : StreamBuffer) (pid page : ℕ) (content : List ℕ) : Type 0 where
  first_field : (stream_take_uint32 st).0 ≡ pid
  second_field : (stream_take_int32 (stream_take_uint32 st).1).0 ≡ page
  left : unread (stream_take_int32 (stream_take_uint32 st).1).1 ≡ content
  at : (stream_take_int32 (stream_take_uint32 st).1).1.offset ≡ st.offset + 4 + 4

fields-Taken :
    (st : StreamBuffer) (pid page : ℕ) (content : List ℕ)
    → pid < 2 ^ 32
    → page < 2 ^ 32
    → st.offset + 8 < 2 ^ 32
    → unread st ≡ request_fields pid page content
    → Taken st pid page content
unfolding stream_take_int32 stream_take_uint32
fields-Taken st pid page content p g h e =
    let (one, rest1, at1) =
      stream_take_uint32-Reads pid p st (bytes_u32 page ++ content) e (omega arith) in
    let (two, rest2, at2) =
      stream_take_uint32-Reads page g (stream_take_uint32 st).1 content rest1
        (omega (arith, at1)) in
    record { first_field = one; second_field = two; left = rest2; at = omega (arith, at1, at2) }

module _ (beyond : ℕ → PageMetadata) (lib : Lists) (config : SwapConfig) where
  pub save_page-fields :
      (algorithm : Assignment) (s : Swap) (st : StreamBuffer) (pid page : ℕ) (content : List ℕ)
      → pid < 2 ^ 32
      → page < 2 ^ 32
      → length content ≡ config.page_size
      → st.offset + 8 + length content < 2 ^ 32
      → unread st ≡ request_fields pid page content
      → save_page beyond lib config algorithm s st
        ≡ save_page_of beyond lib config algorithm s pid page content
  unfolding save_page
  save_page-fields algorithm s st pid page content p g sized h e =
      ap
        (λ q.
          save_page_of beyond lib config algorithm s q
            (stream_take_int32 (stream_take_uint32 st).1).0 (stream_take rest config.page_size).0)
        t.first_field
      ∙ ap
          (λ q.
            save_page_of beyond lib config algorithm s pid q (stream_take rest config.page_size).0)
          t.second_field
      ∙ ap (save_page_of beyond lib config algorithm s pid page) (
          ap (λ n. (stream_take rest n).0) (sym sized)
          ∙ (stream_take_lem rest content [] (t.left ∙ sym (append-nil content))
              (omega (arith, t.at))).0)
    where
      t : Taken st pid page content
      t = fields-Taken st pid page content p g (omega arith) e

      rest : StreamBuffer
      rest = (stream_take_int32 (stream_take_uint32 st).1).1

pub read_page-fields :
    (lib : Lists) (s : Swap) (st : StreamBuffer) (pid page : ℕ)
    → pid < 2 ^ 32
    → page < 2 ^ 32
    → st.offset + 8 < 2 ^ 32
    → unread st ≡ request_fields pid page []
    → read_page lib s st ≡ (read_page_of lib s pid page, s)
unfolding read_page
read_page-fields lib s st pid page p g h e =
    let t = fields-Taken st pid page [] p g h e in
    ap (λ q. (read_page_of lib s q (stream_take_int32 (stream_take_uint32 st).1).0, s))
      t.first_field
    ∙ ap (λ q. (read_page_of lib s pid q, s)) t.second_field

pub destroy_page-fields :
    (lib : Lists) (s : Swap) (st : StreamBuffer) (pid page : ℕ)
    → pid < 2 ^ 32
    → page < 2 ^ 32
    → st.offset + 8 < 2 ^ 32
    → unread st ≡ request_fields pid page []
    → destroy_page lib s st ≡ destroy_page_of lib s pid page
unfolding destroy_page
destroy_page-fields lib s st pid page p g h e =
    let t = fields-Taken st pid page [] p g h e in
    ap (λ q. destroy_page_of lib s q (stream_take_int32 (stream_take_uint32 st).1).0) t.first_field
    ∙ ap (destroy_page_of lib s pid) t.second_field

-- The packet of an answer is well formed, and carries the header and the bytes of the answer.
record Carries (config : SwapConfig) (answer : Answer) (packet : SocketPacket) : Type 0 where
  coded : packet.header ≡ answer_code answer
  valid : IsStream packet.payload
  body : written packet.payload ≡ answer_body config answer

answer_packet-Carries :
    (fresh : ℕ → ℕ) (config : SwapConfig) (answer : Answer)
    → config.page_size < 2 ^ 32
    → Carries config answer (answer_packet fresh config answer)
unfolding answer_packet create_stream
answer_packet-Carries fresh config Answer.swap_ok h =
    let (v, e) = create_stream-IsStream fresh 0 (omega arith) in
    record { coded = refl; valid = v; body = e }
answer_packet-Carries fresh config Answer.swap_error h =
    let (v, e) = create_stream-IsStream fresh 0 (omega arith) in
    record { coded = refl; valid = v; body = e }
answer_packet-Carries fresh config (Answer.page_data bytes) h =
    let (v, e) = create_stream-IsStream fresh config.page_size (omega arith) in
    let a =
      stream_add-Added fresh (create_stream fresh config.page_size) (take config.page_size bytes) v
        (omega (arith, length-take_at_most config.page_size bytes)) in
    record {
      coded = refl;
      valid = a.valid;
      body = a.appended ∙ ap (λ ws. ws ++ take config.page_size bytes) e;
    }

module _ {L : Type 0} (sockets : Sockets L) (pending sent : L → List ℕ)
    (delivering : IsDelivering sockets pending) (accepting : IsAccepting sockets sent)
    (quiet : (l : L) (n : ℕ) → sent (sockets.recv l n).1 ≡ sent l) (fresh : ℕ → ℕ) (unset : ℕ)
    (beyond : ℕ → PageMetadata) (lib : Lists) (config : SwapConfig) where
  -- A petition that came is handled, and its answer sent.
  pub serve_round_lem :
      (algorithm : Assignment) (l : L) (s : Swap) (header : ℕ) (body : List ℕ) (answer : Answer)
      (s' : Swap)
      → config.page_size < 2 ^ 32
      → length body < 2 ^ 32
      → pending l ≡ packet_bytes header body
      → handle beyond lib config algorithm s (received_packet header body) ≡ some (answer, s')
      → (l' : L) × (serve_round beyond lib config sockets fresh unset algorithm l s
          ≡ Round.served l' s')
        × (sent l' ≡ sent l ++ packet_bytes (answer_code answer) (answer_body config answer))
  unfolding serve_round
  serve_round_lem algorithm l s header body answer s' fits small e h =
      let (l1, got, left) =
        socket_get_packet_lem sockets fresh unset pending delivering l header body [] small
          (e ∙ sym (append-nil (packet_bytes header body))) in
      let c = answer_packet-Carries fresh config answer fits in
      (
        _,
        ap
              (λ r.
                handled beyond lib config sockets fresh unset algorithm s
                  (retried beyond lib config sockets fresh unset r))
              got
            ∙ ap (answered beyond lib config sockets fresh unset l1) h,
        sent-socket_send_packet sockets sent accepting l1 (answer_packet fresh config answer)
              (coded_byte answer c.coded) c.valid
            ∙ ap₂ (λ code bs. sent l1 ++ packet_bytes code bs) c.coded c.body
            ∙ ap (λ ws. ws ++ packet_bytes (answer_code answer) (answer_body config answer))
                (sym (ap (λ r. sent r.1) got)
                  ∙ sent-socket_get_packet sockets sent quiet fresh unset l),
      )
    where
      coded_byte : (a : Answer) {n : ℕ} → n ≡ answer_code a → n < 256
      coded_byte Answer.swap_ok k = omega arith
      coded_byte Answer.swap_error k = omega arith
      coded_byte (Answer.page_data bytes) k = omega arith
