-- ===== src/Tests/Remotes.antt =====
-- The memory and the swap server over connections, at concrete inputs.
use sisop_2c.Prelude.{find_index, ◌≡◌, refl, true, some, [], ◌∷◌, arith}
use sisop_2c.Shared.Commons.{plain_lists}
use sisop_2c.Shared.Stream.{
  create_stream, stream_add, stream_assert_fits, stream_add_int32, stream_add_uint32, stream_take,
  stream_take_uint32, stream_take_int32,
}
use sisop_2c.Shared.Networking.{SwapHeader}
use sisop_2c.Shared.Networking.Sockets.{socket_send_packet, socket_get_packet}
use sisop_2c.Swamp.Swap.Serving.{serve_round, answer_packet}
use sisop_2c.Swamp.SwapFile.{
  blank, create, has_pid, get_index, is_full, find_free_index, read_at_index, register,
  write_at_index,
}
use sisop_2c.Swamp.SwapFile.Index.{create-IsValid}
use sisop_2c.Swamp.Swap.{
  SwapConfig, Swap, Assignment, global, assign, save_page, read_page, read_page_of,
}
use sisop_2c.Swamp.Swap.RoundTrip.{IsSwap}
use sisop_2c.Memory.SwapInterface.{
  page_request, save_request, swap_interface_save_page, swap_interface_load_page,
}
use sisop_2c.Memory.SwapInterface.Protocol.{Endpoint, Exchanged}
use sisop_2c.Memory.SwapInterface.Remote.{
  page_of, swap_interface_save_page-Exchanged, swap_interface_load_page-Exchanged,
  swap_interface_load_page-swap_interface_save_page,
}
use sisop_2c.Tests.Wires.{
  Wire, wires, inbox, outbox, wires-IsDelivering, wires-IsAccepting, wires-IsQuiet, zeros,
}

abbrev wire_end : Endpoint Wire
wire_end = record {
  sockets = wires;
  pending = inbox;
  sent = outbox;
  delivering = wires-IsDelivering;
  accepting = wires-IsAccepting;
  quiet = wires-IsQuiet;
}

abbrev config : SwapConfig
config = record { page_size = 2; max_frames = 3 }

-- One swap file of three pages.
abbrev one_file : Swap
one_file = record { swap_files = 0 ∷ []; store = λ a. create 6 2 }

one_file-IsSwap : IsSwap one_file 2
unfolding create
one_file-IsSwap = record { valid = λ a h. create-IsValid 6 2; sized = λ a h. refl }

-- After page 0 of process 7 was saved.
abbrev with_page : Swap
with_page = (global (λ i. blank) plain_lists config one_file 7 0 (8 ∷ 9 ∷ [])).1

saving :
    Exchanged wire_end wire_end zeros 0
      (λ i. blank)
      plain_lists
      config
      Assignment.globally
      (7 ∷ 0 ∷ 0 ∷ 0 ∷ 0 ∷ [], [])
      (save_request zeros 2 7 0 (8 ∷ 9 ∷ []))
      (0 ∷ 10 ∷ 0 ∷ 0 ∷ 0 ∷ 7 ∷ 0 ∷ 0 ∷ 0 ∷ 0 ∷ 0 ∷ 0 ∷ 0 ∷ 8 ∷ 9 ∷ [], [])
      one_file
      with_page
unfolding socket_send_packet stream_add stream_assert_fits stream_add_int32 stream_add_uint32
    create_stream serve_round socket_get_packet answer_packet global save_page plain_lists
    stream_take stream_take_uint32 stream_take_int32 has_pid find_index create get_index is_full
    find_free_index
saving = record {
  l' = ([], 7 ∷ 0 ∷ 0 ∷ 0 ∷ 0 ∷ []);
  idle_client = refl;
  delivered = refl;
  idle_server = refl;
  round = refl;
  replied = refl;
}

loading :
    Exchanged wire_end wire_end zeros 0
      (λ i. blank)
      plain_lists
      config
      Assignment.globally
      (8 ∷ 2 ∷ 0 ∷ 0 ∷ 0 ∷ 8 ∷ 9 ∷ [], [])
      (page_request zeros SwapHeader.read_page 7 0)
      (1 ∷ 8 ∷ 0 ∷ 0 ∷ 0 ∷ 7 ∷ 0 ∷ 0 ∷ 0 ∷ 0 ∷ 0 ∷ 0 ∷ 0 ∷ [], [])
      with_page
      with_page
unfolding socket_send_packet stream_add stream_assert_fits stream_add_int32 stream_add_uint32
    create_stream serve_round socket_get_packet answer_packet global read_page plain_lists
    stream_take stream_take_uint32 stream_take_int32 has_pid find_index create get_index is_full
    find_free_index read_at_index register write_at_index
loading = record {
  l' = ([], 8 ∷ 2 ∷ 0 ∷ 0 ∷ 0 ∷ 8 ∷ 9 ∷ []);
  idle_client = refl;
  delivered = refl;
  idle_server = refl;
  round = refl;
  replied = refl;
}

swap_interface_save_page-Exchanged_example :
    ((swap_interface_save_page wires zeros 0 2 (7 ∷ 0 ∷ 0 ∷ 0 ∷ 0 ∷ [], []) 7 0 (8 ∷ 9 ∷ [])).0
      ≡ some
          (assign (λ i. blank) plain_lists config Assignment.globally one_file 7 0 (8 ∷ 9 ∷ [])).0)
    × (with_page
        ≡ (assign (λ i. blank) plain_lists config Assignment.globally one_file 7 0 (8 ∷ 9 ∷ [])).1)
swap_interface_save_page-Exchanged_example =
    swap_interface_save_page-Exchanged wire_end wire_end zeros 0 (λ i. blank) plain_lists config
      Assignment.globally (7 ∷ 0 ∷ 0 ∷ 0 ∷ 0 ∷ [], [])
      (0 ∷ 10 ∷ 0 ∷ 0 ∷ 0 ∷ 7 ∷ 0 ∷ 0 ∷ 0 ∷ 0 ∷ 0 ∷ 0 ∷ 0 ∷ 8 ∷ 9 ∷ [], []) one_file with_page 7 0
      (8 ∷ 9 ∷ []) (omega arith) (omega arith) refl (omega arith) saving

swap_interface_load_page-Exchanged_example :
    ((swap_interface_load_page wires zeros 0 2 (8 ∷ 2 ∷ 0 ∷ 0 ∷ 0 ∷ 8 ∷ 9 ∷ [], []) 7 0).0
      ≡ some (page_of config (read_page_of plain_lists with_page 7 0)))
    × (with_page ≡ with_page)
swap_interface_load_page-Exchanged_example =
    swap_interface_load_page-Exchanged wire_end wire_end zeros 0 (λ i. blank) plain_lists config
      Assignment.globally (8 ∷ 2 ∷ 0 ∷ 0 ∷ 0 ∷ 8 ∷ 9 ∷ [], [])
      (1 ∷ 8 ∷ 0 ∷ 0 ∷ 0 ∷ 7 ∷ 0 ∷ 0 ∷ 0 ∷ 0 ∷ 0 ∷ 0 ∷ 0 ∷ [], []) with_page with_page 7 0
      (omega arith) (omega arith) (omega arith) loading

accepted :
    (swap_interface_save_page wires zeros 0 2 (7 ∷ 0 ∷ 0 ∷ 0 ∷ 0 ∷ [], []) 7 0 (8 ∷ 9 ∷ [])).0
    ≡ some true
unfolding socket_send_packet stream_add stream_assert_fits stream_add_int32 stream_add_uint32
    create_stream serve_round socket_get_packet answer_packet global save_page plain_lists
    stream_take stream_take_uint32 stream_take_int32 has_pid find_index create get_index is_full
    find_free_index swap_interface_save_page
accepted = refl

swap_interface_load_page-swap_interface_save_page_example :
    (swap_interface_load_page wires zeros 0 2 (8 ∷ 2 ∷ 0 ∷ 0 ∷ 0 ∷ 8 ∷ 9 ∷ [], []) 7 0).0
    ≡ some (some (8 ∷ 9 ∷ []))
swap_interface_load_page-swap_interface_save_page_example =
    swap_interface_load_page-swap_interface_save_page wire_end wire_end zeros 0 (λ i. blank)
      plain_lists config (7 ∷ 0 ∷ 0 ∷ 0 ∷ 0 ∷ [], []) (8 ∷ 2 ∷ 0 ∷ 0 ∷ 0 ∷ 8 ∷ 9 ∷ [], [])
      (0 ∷ 10 ∷ 0 ∷ 0 ∷ 0 ∷ 7 ∷ 0 ∷ 0 ∷ 0 ∷ 0 ∷ 0 ∷ 0 ∷ 0 ∷ 8 ∷ 9 ∷ [], [])
      (1 ∷ 8 ∷ 0 ∷ 0 ∷ 0 ∷ 7 ∷ 0 ∷ 0 ∷ 0 ∷ 0 ∷ 0 ∷ 0 ∷ 0 ∷ [], []) one_file with_page with_page 7 0
      (8 ∷ 9 ∷ []) (omega arith) (omega arith) refl (omega arith) one_file-IsSwap saving accepted
      loading
