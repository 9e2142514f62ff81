-- ===== src/Swamp/Swap/Serving.antt =====
-- The swap server on a connection: the loop of `main` in swamp/src/swap.c, the table of handlers and
-- the packets they answer with, swamp/src/petitionHandlers.c. The delay is not modelled.
use sisop_2c.Prelude.{ℕ, Option, none, some, take, if◌then◌else◌, ◌==◌}
use sisop_2c.Shared.Commons.{Lists}
use sisop_2c.Shared.Stream.{create_stream, stream_add}
use sisop_2c.Shared.Networking.{SwapHeader, swap_code}
use sisop_2c.Shared.Networking.Sockets.{
  Sockets, SocketPacket, socket_get_header, socket_send_packet, socket_get_packet, retry_get_packet,
}
use sisop_2c.Swamp.SwapFile.{PageMetadata}
use sisop_2c.Swamp.Swap.{
  SwapConfig, Swap, Answer, Assignment, save_page, read_page, destroy_page, mem_disconnect,
}

-- A round of the inner loop: it ends, goes on, or calls through `petitionHandler` out of bounds.
pub data Round (K : Type 0) : Type 0 where
  ended : K → Round K
  served : K → Swap → Round K
  stray : Round K

-- The packet that a handler sends.
unfoldable pub answer_packet : (ℕ → ℕ) → SwapConfig → Answer → SocketPacket
answer_packet fresh config Answer.swap_ok = record {
  header = swap_code SwapHeader.swap_ok;
  payload = create_stream fresh 0;
}
answer_packet fresh config Answer.swap_error = record {
  header = swap_code SwapHeader.swap_error;
  payload = create_stream fresh 0;
}
answer_packet fresh config (Answer.page_data bytes) = record {
  header = swap_code SwapHeader.page;
  payload = stream_add fresh (create_stream fresh config.page_size) (take config.page_size bytes);
}

module _ (beyond : ℕ → PageMetadata) (lib : Lists) (config : SwapConfig) where
  -- `petitionHandler[petition->header]`
  unfoldable pub handle : Assignment → Swap → SocketPacket → Option (Answer × Swap)
  handle algorithm s petition =
      if petition.header == swap_code SwapHeader.save_page
      then some (save_page beyond lib config algorithm s petition.payload)
      else if petition.header == swap_code SwapHeader.read_page
      then some (read_page lib s petition.payload)
      else if petition.header == swap_code SwapHeader.destroy_page
      then some (destroy_page lib s petition.payload)
      else if petition.header == swap_code SwapHeader.mem_disconnected
      then some (mem_disconnect s)
      else none

  module _ {K : Type 0} (sockets : Sockets K) (fresh : ℕ → ℕ) (unset : ℕ) where
    -- What the header of a new connection makes `asignacion`.
    unfoldable pub choose_assignment : Assignment → K → Assignment × K
    choose_assignment before k =
        let (header, k') = socket_get_header sockets fresh unset k in
        (
          if header == swap_code SwapHeader.asig_fija
              then Assignment.fixed
              else if header == swap_code SwapHeader.asig_global
              then Assignment.globally
              else before,
          k',
        )

    -- A petition that came, and its answer.
    abbrev pub answered : K → Option (Answer × Swap) → Round K
    answered k none = Round.stray
    answered k (some (answer, s)) =
        Round.served (socket_send_packet sockets k (answer_packet fresh config answer)) s

    abbrev pub handled : Assignment → Swap → Option SocketPacket × K → Round K
    handled algorithm s (none, k) = Round.ended k
    handled algorithm s (some petition, k) = answered k (handle algorithm s petition)

    -- The second try on a connection that gave no packet.
    abbrev pub retried : Option SocketPacket × K → Option SocketPacket × K
    retried (none, k) = retry_get_packet sockets fresh unset k none
    retried (some petition, k) = (some petition, k)

    unfoldable pub serve_round : Assignment → K → Swap → Round K
    unfolding handle
    serve_round algorithm k s =
        handled algorithm s (retried (socket_get_packet sockets fresh unset k))
