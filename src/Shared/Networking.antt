-- ===== src/Shared/Networking.antt =====
-- Packets over a byte connection: shared/src/networking.c, shared/include/networking.h.
pub mod Sockets
pub mod Delivery
pub mod Framing
pub mod Transport
pub mod Quiet
use sisop_2c.Prelude.{ℕ, List, []}

-- `msgHeader`, in the source's order; `MAX_PETITIONS` stands between `disconnected` and `id_kernel`.
pub data Header : Type 0 where
  capi_id sem_init sem_wait sem_post sem_destroy call_io memalloc memfree memread memwrite suspend :
      Header
  capi_term disconnected max_petitions id_kernel id_memoria ok error pointer mem_chunk : Header

-- The number of a header.
abbrev pub header_code : Header → ℕ
header_code Header.capi_id = 0
header_code Header.sem_init = 1
header_code Header.sem_wait = 2
header_code Header.sem_post = 3
header_code Header.sem_destroy = 4
header_code Header.call_io = 5
header_code Header.memalloc = 6
header_code Header.memfree = 7
header_code Header.memread = 8
header_code Header.memwrite = 9
header_code Header.suspend = 10
header_code Header.capi_term = 11
header_code Header.disconnected = 12
header_code Header.max_petitions = 13
header_code Header.id_kernel = 14
header_code Header.id_memoria = 15
header_code Header.ok = 16
header_code Header.error = 17
header_code Header.pointer = 18
header_code Header.mem_chunk = 19

-- `t_packet`: the header, and the bytes of the payload up to its offset.
pub record Packet : Type 0 where
  pub header : Header
  pub payload : List ℕ

-- `createPacket(header, 0)`
abbrev pub empty_packet : Header → Packet
empty_packet h = record { header = h; payload = [] }

-- `swapHeader`, in the source's order; `max_mem_petitions` stands behind the petitions.
pub data SwapHeader : Type 0 where
  save_page read_page destroy_page mem_disconnected max_mem_petitions : SwapHeader
  asig_fija asig_global swap_ok page swap_error : SwapHeader

-- The value of a constant of `swapHeader`.
abbrev pub swap_code : SwapHeader → ℕ
swap_code SwapHeader.save_page = 0
swap_code SwapHeader.read_page = 1
swap_code SwapHeader.destroy_page = 2
swap_code SwapHeader.mem_disconnected = 3
swap_code SwapHeader.max_mem_petitions = 4
swap_code SwapHeader.asig_fija = 5
swap_code SwapHeader.asig_global = 6
swap_code SwapHeader.swap_ok = 7
swap_code SwapHeader.page = 8
swap_code SwapHeader.swap_error = 9
