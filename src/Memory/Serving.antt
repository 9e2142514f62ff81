-- ===== src/Memory/Serving.antt =====
-- The memory on the connection of a client: `petitionHandler` of memory/src/memory.c, and the table of
-- handlers of memory/src/petitionHandlers.c.
pub mod Replies
pub mod Sessions
use sisop_2c.Prelude.{
  ℕ, zero, suc, ◌%◌, Bool, true, false, Option, none, some, ◌>>=◌, List, if◌then◌else◌, ◌==◌,
  length,
}
use sisop_2c.Shared.Commons.{Lists, Dictionaries}
use sisop_2c.Shared.Stream.{StreamBuffer, bytes_u32}
use sisop_2c.Shared.Networking.{Header, header_code, Packet}
use sisop_2c.Shared.Networking.Sockets.{
  Sockets, SocketPacket, socket_send, socket_send_header, socket_get_packet, retry_get_packet,
}
use sisop_2c.Memory.Frames.{MemoryConfig}
use sisop_2c.Memory.Paging.{SwapServer}
use sisop_2c.Memory.Access.{Assignment, Replacement, Memory}
use sisop_2c.Memory.Petitions.{
  memread_handler, memwrite_handler, suspend_handler, capi_term_handler, capi_id_handler,
  disconnected_handler,
}
use sisop_2c.Memory.Petitions.Allocator.{memalloc_handler, memfree_handler}

-- What a handler sends, and with it whether the client is served on: only not after `farewell`.
pub data Reply : Type 0 where
  nothing : Reply
  answer : Packet → Reply
  introduction : Header → Packet → Reply
  farewell : Packet → Reply

-- `keepServing`
abbrev pub keeps_serving : Reply → Bool
keeps_serving nothing = true
keeps_serving (answer packet) = true
keeps_serving (introduction header packet) = true
keeps_serving (farewell packet) = false

-- A round of the loop: the connection is closed, the client leaves, or it is served on; or a call
-- goes through a NULL or missing handler, or the handler has no result.
pub data Round (K M : Type 0) : Type 0 where
  closed : K → Round K M
  left : K → M → Round K M
  served : K → M → Round K M
  stray : Round K M

abbrev pub answered : {M : Type 0} → Option (Packet × M) → Option (Reply × M)
answered none = none
answered (some (packet, m)) = some (Reply.answer packet, m)

abbrev pub unanswered : {M : Type 0} → Option M → Option (Reply × M)
unanswered none = none
unanswered (some m) = some (Reply.nothing, m)

abbrev pub introduced : {M : Type 0} → Header × Packet × M → Option (Reply × M)
introduced (header, packet, m) = some (Reply.introduction header packet, m)

module _ {K : Type 0} (sockets : Sockets K) where
  -- `socket_sendPacket` of a packet as the handlers build it.
  unfoldable pub send_packet : K → Packet → K
  send_packet k packet =
      let k1 = socket_send_header sockets k (header_code packet.header) in
      let k2 = socket_send sockets k1 (bytes_u32 (length packet.payload)) in
      socket_send sockets k2 packet.payload

  unfoldable pub send_reply : K → Reply → K
  unfolding send_packet
  send_reply k Reply.nothing = k
  send_reply k (Reply.answer packet) = send_packet k packet
  send_reply k (Reply.introduction header packet) =
      send_packet (socket_send_header sockets k (header_code header)) packet
  send_reply k (Reply.farewell packet) = send_packet k packet

module _ {D S : Type 0} (lib : Lists) (dicts : Dictionaries D) (string_itoa : ℕ → List ℕ)
    (server : SwapServer S) (config : MemoryConfig) (assignment : Assignment)
    (replacement : Replacement) (fresh_table : Memory D S → ℕ) (alloc_rounds : ℕ) where
  -- `petitionHandlers[petition->header]`. A page table that `capiIDHandler` makes stands at
  -- `fresh_table`, and the search of memalloc runs on `alloc_rounds` blocks.
  unfoldable pub handle : Memory D S → SocketPacket → Option (Reply × Memory D S)
  handle m petition =
      if petition.header == header_code Header.capi_id
      then introduced (
          capi_id_handler lib dicts string_itoa server config assignment replacement (fresh_table m)
            m petition.payload)
      else if petition.header == header_code Header.memalloc
      then answered (
          memalloc_handler lib dicts string_itoa server config assignment replacement alloc_rounds m
            petition.payload)
      else if petition.header == header_code Header.memfree
      then answered (
          memfree_handler lib dicts string_itoa server config assignment replacement m
            petition.payload)
      else if petition.header == header_code Header.memread
      then answered (
          memread_handler lib dicts string_itoa server config assignment replacement m
            petition.payload)
      else if petition.header == header_code Header.memwrite
      then answered (
          memwrite_handler lib dicts string_itoa server config assignment replacement m
            petition.payload)
      else if petition.header == header_code Header.suspend
      then unanswered (
          suspend_handler lib dicts string_itoa server config assignment replacement m
            petition.payload)
      else if petition.header == header_code Header.capi_term
      then answered (
          capi_term_handler lib dicts string_itoa server config assignment replacement m
            petition.payload)
      else if petition.header == header_code Header.disconnected
      then some (Reply.farewell disconnected_handler.0, m)
      else none

  module _ {K : Type 0} (sockets : Sockets K) (fresh : ℕ → ℕ) (unset : ℕ) where
    -- The reply is sent.
    abbrev pub replied : K → Option (Reply × Memory D S) → Round K (Memory D S)
    replied k none = Round.stray
    replied k (some (reply, m)) =
        if keeps_serving reply
        then Round.served (send_reply sockets k reply) m
        else Round.left (send_reply sockets k reply) m

    abbrev pub handled : Memory D S → Option SocketPacket × K → Round K (Memory D S)
    handled m (none, k) = Round.closed k
    handled m (some petition, k) = replied k (handle m petition)

    -- The second try on a connection that gave no packet.
    abbrev pub retried : Option SocketPacket × K → Option SocketPacket × K
    retried (none, k) = retry_get_packet sockets fresh unset k none
    retried (some petition, k) = (some petition, k)

    unfoldable pub serve_round : K → Memory D S → Round K (Memory D S)
    unfolding handle
    serve_round k m = handled m (retried (socket_get_packet sockets fresh unset k))

    -- What follows a round, where `next` is the loop from there: the end of the loop, with the last
    -- state, or `none` after a stray call.
    abbrev pub follow :
        (K → Memory D S → Option (K × Memory D S))
        → Memory D S
        → Round K (Memory D S)
        → Option (K × Memory D S)
    follow next m (Round.closed k) = some (k, m)
    follow next m (Round.left k m') = some (k, m')
    follow next m (Round.served k m') = next k m'
    follow next m Round.stray = none

    -- The loop of `petitionHandler` on at most `rounds` petitions.
    unfoldable pub serve : ℕ → K → Memory D S → Option (K × Memory D S)
    unfolding serve_round
    serve zero k m = none
    serve (suc rounds) k m = follow (serve rounds) m (serve_round k m)
