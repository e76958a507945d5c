-- ===== src/Net.antt =====
-- The network part of ServerCore: the receive buffer, packets in the byte stream, and the two
-- halves of a session.
pub mod RecvBuffer
pub mod Packet
pub mod Recv
pub mod Send
