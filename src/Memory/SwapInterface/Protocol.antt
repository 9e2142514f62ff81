-- ===== src/Memory/SwapInterface/Protocol.antt =====
-- The memory and the swap server over a connection: memory/src/swapInterface.c against the loop of
-- `main` in swamp/src/swap.c and the handlers of swamp/src/petitionHandlers.c.
use mathlib.Core.List.{append-nil}
use sisop_2c.Prelude.{
  take_whole, ℕ, ◌+◌, ◌^◌, ◌<◌, ◌≡◌, sym, ap, ap₂, ◌∙◌, some, List, [], ◌++◌, arith, length, take,
}
use sisop_2c.Shared.Commons.{Lists}
use sisop_2c.Shared.Stream.{
  StreamBuffer, initial_stream_size, bytes_u32, create_stream, stream_add_uint32, stream_add_int32,
}
use sisop_2c.Shared.Stream.Laws.{written, IsStream, Added, create_stream-IsStream, stream_add-Added}
use sisop_2c.Shared.Stream.Codec.{Added-trans, stream_add_uint32-Writes}
use sisop_2c.Shared.Networking.{SwapHeader}
use sisop_2c.Shared.Networking.Sockets.{Sockets, SocketPacket, socket_send_packet}
use sisop_2c.Shared.Networking.Delivery.{IsDelivering, IsAccepting}
use sisop_2c.Shared.Networking.Framing.{
  packet_bytes, received_packet, socket_get_packet_lem, sent-socket_send_packet,
}
use sisop_2c.Swamp.SwapFile.{PageMetadata}
use sisop_2c.Swamp.Swap.{SwapConfig, Swap, Answer, Assignment}
use sisop_2c.Swamp.Swap.Serving.{Round, handle, serve_round}
use sisop_2c.Swamp.Swap.Answering.{
  request_fields, length-answer_body, answer_body, answer_code, serve_round_lem,
}
use sisop_2c.Memory.SwapInterface.{page_fields, page_request, save_request, exchange}

page_fields-Added :
    (fresh : ℕ → ℕ) (pid page : ℕ)
    → Added
        (create_stream fresh initial_stream_size)
        (request_fields pid page [])
        (page_fields fresh pid page)
unfolding create_stream stream_add_int32
page_fields-Added fresh pid page =
    Added-trans first
      (stream_add-Added fresh _ (bytes_u32 page) first.valid (omega (arith, first.advanced)))
  where
    first :
        Added
          (create_stream fresh initial_stream_size)
          (bytes_u32 pid)
          (stream_add_uint32 fresh (create_stream fresh initial_stream_size) pid)
    first =
        stream_add_uint32-Writes fresh pid _
          (create_stream-IsStream fresh initial_stream_size (omega arith)).0 (omega arith)

-- The payload of a request, and what the server finds in it.
pub record Requests (payload : StreamBuffer) (body : List ℕ) : Type 0 where
  pub valid : IsStream payload
  pub holds : written payload ≡ body
  pub small : length body < 2 ^ 32

pub save_request-Requests :
    (fresh : ℕ → ℕ) (page_size pid page : ℕ) (content : List ℕ)
    → length content ≡ page_size
    → page_size + 72 < 2 ^ 32
    → Requests
        (save_request fresh page_size pid page content).payload
        (request_fields pid page content)
unfolding create_stream
save_request-Requests fresh page_size pid page content e h =
    let f = page_fields-Added fresh pid page in
    let a =
      stream_add-Added fresh (page_fields fresh pid page) content f.valid
        (omega (arith, f.advanced)) in
    record {
      valid = rw whole a.valid;
      holds = rw whole (a.appended ∙ ap (λ ws. ws ++ content) f.appended);
      small = omega (arith, e);
    }
  where
    whole : take page_size content ≡ content
    whole = ap (λ n. take n content) (sym e) ∙ take_whole (length content) content (omega arith)

pub page_request-Requests :
    (fresh : ℕ → ℕ) (header : SwapHeader) (pid page : ℕ)
    → Requests (page_request fresh header pid page).payload (request_fields pid page [])
unfolding create_stream
page_request-Requests fresh header pid page =
    let f = page_fields-Added fresh pid page in
    record { valid = f.valid; holds = f.appended; small = omega arith }

-- An end of a connection: the calls of the system there, what they deliver, and what was sent.
pub record Endpoint (K : Type 0) : Type 0 where
  pub sockets : Sockets K
  pub pending : K → List ℕ
  pub sent : K → List ℕ
  pub delivering : IsDelivering sockets pending
  pub accepting : IsAccepting sockets sent
  pub quiet : (k : K) (n : ℕ) → sent (sockets.recv k n).1 ≡ sent k

module _ {K L : Type 0} (memory : Endpoint K) (swamp : Endpoint L) (fresh : ℕ → ℕ) (unset : ℕ)
    (beyond : ℕ → PageMetadata) (lib : Lists) (config : SwapConfig) where
  -- The memory at `k` sends a request, nothing being under way; a round of the server's loop at `l`
  -- takes it, leaves the server in `s'`, and what it sends comes back to the memory.
  pub record Exchanged (algorithm : Assignment) (k : K) (request : SocketPacket) (l : L) (s : Swap)
      (s' : Swap) : Type 0 where
    pub l' : L
    pub idle_client : memory.sent k ≡ []
    pub delivered : swamp.pending l ≡ memory.sent (socket_send_packet memory.sockets k request)
    pub idle_server : swamp.sent l ≡ []
    pub round :
        serve_round beyond lib config swamp.sockets fresh unset algorithm l s ≡ Round.served l' s'
    pub replied : memory.pending (socket_send_packet memory.sockets k request) ≡ swamp.sent l'

  pub exchange_lem :
      {algorithm : Assignment} {k : K} {l : L} {s s' : Swap} (request : SocketPacket)
      (body : List ℕ) (answer : Answer) (s1 : Swap)
      → config.page_size < 2 ^ 32
      → request.header < 256
      → Requests request.payload body
      → handle beyond lib config algorithm s (received_packet request.header body)
        ≡ some (answer, s1)
      → Exchanged algorithm k request l s s'
      → ((exchange memory.sockets fresh unset k request).0
          ≡ some (received_packet (answer_code answer) (answer_body config answer)))
        × (s' ≡ s1)
  unfolding exchange
  exchange_lem {algorithm} {k} {l} {s} {s'} request body answer s1 fits byte r h x =
      let (l1, served, replied) =
        serve_round_lem swamp.sockets swamp.pending swamp.sent swamp.delivering swamp.accepting
          swamp.quiet fresh unset beyond lib config algorithm l s request.header body answer s1 fits
          r.small
          (x.delivered
            ∙ sent-socket_send_packet memory.sockets memory.sent memory.accepting k request byte
                r.valid
            ∙ ap₂ (λ ws bs. ws ++ packet_bytes request.header bs) x.idle_client r.holds)
          h in
      let (same_end, same_swap) = both l1 x.l' (sym served ∙ x.round) in
      let (k1, got, left) =
        socket_get_packet_lem memory.sockets fresh unset memory.pending memory.delivering
          (socket_send_packet memory.sockets k request) (answer_code answer)
          (answer_body config answer) [] (length-answer_body config answer fits)
          (x.replied
            ∙ ap swamp.sent (sym same_end)
            ∙ replied
            ∙ ap (λ ws. ws ++ packet_bytes (answer_code answer) (answer_body config answer))
                x.idle_server
            ∙ sym (append-nil _)) in
      (ap (λ p. p.0) got, sym same_swap)
    where
      both : (l1 l2 : L) → Round.served l1 s1 ≡ Round.served l2 s' → (l1 ≡ l2) × (s1 ≡ s')
      both l1 l2 e = (cc, cc)
