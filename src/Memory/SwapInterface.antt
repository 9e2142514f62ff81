-- ===== src/Memory/SwapInterface.antt =====
-- The memory's connection to the swap server: memory/src/swapInterface.c.
--
-- The result is `none` where the source reads an uninitialised variable or through NULL: where no
-- answer comes, or one with a header that the function does not expect.
use sisop_2c.Prelude.{ℕ, Bool, true, false, Option, none, some, List, take, if◌then◌else◌, ◌==◌}
use sisop_2c.Shared.Stream.{
  StreamBuffer, initial_stream_size, create_stream, stream_add, stream_add_uint32, stream_add_int32,
  stream_take,
}
use sisop_2c.Shared.Networking.{SwapHeader, swap_code}
use sisop_2c.Shared.Networking.Sockets.{
  Sockets, SocketPacket, socket_send_header, socket_send_packet, socket_get_packet,
}
pub mod Protocol
pub mod Remote

module _ (fresh : ℕ → ℕ) where
  -- The payload that every request begins with.
  abbrev pub page_fields : ℕ → ℕ → StreamBuffer
  page_fields pid page =
      stream_add_int32 fresh (stream_add_uint32 fresh (create_stream fresh initial_stream_size) pid)
        page

  abbrev pub page_request : SwapHeader → ℕ → ℕ → SocketPacket
  page_request header pid page = record {
    header = swap_code header;
    payload = page_fields pid page;
  }

  abbrev pub save_request : ℕ → ℕ → ℕ → List ℕ → SocketPacket
  save_request page_size pid page content = record {
    header = swap_code SwapHeader.save_page;
    payload = stream_add fresh (page_fields pid page) (take page_size content);
  }

-- What the functions make of the answer.
abbrev pub saved : Option SocketPacket → Option Bool
saved none = none
saved (some reply) =
    if reply.header == swap_code SwapHeader.swap_ok
    then some true
    else if reply.header == swap_code SwapHeader.swap_error
    then some false
    else none

abbrev pub loaded : ℕ → Option SocketPacket → Option (Option (List ℕ))
loaded page_size none = none
loaded page_size (some reply) =
    if reply.header == swap_code SwapHeader.swap_error
    then some none
    else if reply.header == swap_code SwapHeader.page
    then some (some (stream_take reply.payload page_size).0)
    else some none

abbrev pub erased : Option SocketPacket → Option Bool
erased none = none
erased (some reply) = some (reply.header == swap_code SwapHeader.swap_ok)

module _ {K : Type 0} (sockets : Sockets K) (fresh : ℕ → ℕ) (unset : ℕ) where
  -- `swapInterface_create` announces the assignment of the memory.
  unfoldable pub announce : K → SwapHeader → K
  announce k algorithm = socket_send_header sockets k (swap_code algorithm)

  -- The request and its answer, under the mutex of the interface.
  unfoldable pub exchange : K → SocketPacket → Option SocketPacket × K
  exchange k request = socket_get_packet sockets fresh unset (socket_send_packet sockets k request)

  module _ (page_size : ℕ) where
    unfoldable pub swap_interface_save_page : K → ℕ → ℕ → List ℕ → Option Bool × K
    unfolding exchange
    swap_interface_save_page k pid page content =
        let (reply, k') = exchange k (save_request fresh page_size pid page content) in
        (saved reply, k')

    unfoldable pub swap_interface_load_page : K → ℕ → ℕ → Option (Option (List ℕ)) × K
    unfolding exchange
    swap_interface_load_page k pid page =
        let (reply, k') = exchange k (page_request fresh SwapHeader.read_page pid page) in
        (loaded page_size reply, k')

    unfoldable pub swap_interface_erase_page : K → ℕ → ℕ → Option Bool × K
    unfolding exchange
    swap_interface_erase_page k pid page =
        let (reply, k') = exchange k (page_request fresh SwapHeader.destroy_page pid page) in
        (erased reply, k')
