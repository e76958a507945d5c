-- ===== src/Net/Packet.antt =====
-- Packets in the byte stream: `PacketHeader` and `PacketSession::OnRecvCompleted` of
-- ServerCore/Session.h and Session.cpp, and `ClientPacketHandler::MakeSendBuffer` of
-- GameServer/ClientPacketHandler.h.
pub mod Laws
pub mod Stream
use mmo_server_cpp.Base.{
  ℕ, zero, suc, ◌+◌, ◌-◌, ◌*◌, ◌/◌, ◌%◌, ◌^◌, List, [], ◌∷◌, ◌++◌, Option, none, some, ltb,
  if◌then◌else◌, length, take, drop, get_or,
}
use mmo_server_cpp.Memory.SendBuffer.{chunk_size}

pub record PacketHeader : Type 0 where
  pub size : ℕ
  pub id : ℕ

-- `*reinterpret_cast<PacketHeader*>(&buffer[at])`: two little-endian `uint16`.
abbrev pub header_at : List ℕ → ℕ → PacketHeader
header_at buffer at = record {
  size = get_or (drop at buffer) 0 0 + 256 * get_or (drop at buffer) 1 0;
  id = get_or (drop at buffer) 2 0 + 256 * get_or (drop at buffer) 3 0;
}

-- `sizeof PacketHeader`
abbrev pub header_size : ℕ
header_size = 4

-- `process_length`, and the packets handed to `OnRecvPacketProcessed`, in order.
pub record Received : Type 0 where
  pub process_length : ℕ
  pub packets : List (List ℕ)

abbrev pub hand_over : List ℕ → Option Received → Option Received
hand_over packet none = none
hand_over packet (some r) = some (record r { packets = packet ∷ r.packets })

-- The loop of `OnRecvCompleted`; `none` where the fuel runs out.
pub receive_loop : ℕ → List ℕ → ℕ → ℕ → Option Received
receive_loop zero buffer len at = none
receive_loop (suc fuel) buffer len at =
    let size = (header_at buffer at).size in
    let rest = hand_over (take size (drop at buffer)) (receive_loop fuel buffer len (at + size)) in
    if ltb (len - at) header_size
    then some (record { process_length = at; packets = [] })
    else if ltb (len - at) size
    then some (record { process_length = at; packets = [] })
    else rest

-- `buffer` is the memory from the read cursor on, `len` the length that the caller passes.
unfoldable pub on_recv_completed : ℕ → List ℕ → ℕ → Option Received
unfolding receive_loop
on_recv_completed fuel buffer len = receive_loop fuel buffer len 0

abbrev pub u16_mod : ℕ
u16_mod = 2 ^ 16

-- The bytes that `MakeSendBuffer` writes: the size and the id in front of the serialised body.
unfoldable pub write_packet : List ℕ → ℕ → List ℕ
write_packet body packet_id =
    let data_size = length body % u16_mod in
    let packet_size = (data_size + header_size) % u16_mod in
    packet_size % 256 ∷ packet_size / 256 ∷ packet_id % 256 ∷ packet_id / 256 ∷ take data_size body

-- `MakeSendBuffer`; the body is the output of protobuf's serialisation. `none` is a crash:
-- `Acquire` asserts that the packet fits a chunk, and that `SerializeToArray` succeeds is asserted,
-- which fails for a body longer than `data_size`; a size that has wrapped around gives a buffer that is
-- overrun.
unfoldable pub make_send_buffer : List ℕ → ℕ → Option (List ℕ)
make_send_buffer body packet_id =
    let data_size = length body % u16_mod in
    let packet_size = (data_size + header_size) % u16_mod in
    if ltb chunk_size packet_size
    then none
    else if ltb packet_size (data_size + header_size)
    then none
    else if ltb data_size (length body)
    then none
    else some (write_packet body packet_id)
