-- ===== src/Packets/Eth.antt =====
-- ETHPacket: include/Packets/RawPacket.h and src/Packets/RawPacket.cpp.
-- A pool item owns the receive buffer; the headers of all layers are offsets in it.
pub mod Hash
use traffic_inspector.Base.{
  ℕ, zero, suc, ◌+◌, Option, none, some, replicate, if◌then◌else◌, ◌==◌, ◌*◌, ◌/◌, ◌%◌, ◌^◌,
}
use traffic_inspector.Packets.Types.{ControlMessageId, processing}
use traffic_inspector.Packets.Wire.{Buffer, max_packet_size, byte_at, u16_at}
use traffic_inspector.Packets.Dispatchable.{ether_header_size}

-- A null pointer is `none`; `eth_header` always points to the start of `m_data`.
pub record EthPacket : Type 0 where
  pub ctrl_message_id : ControlMessageId
  pub m_data : Option Buffer
  pub eth_header : Option ℕ
  pub m_size : ℕ
  pub m_timestamp : ℕ

unfoldable pub eth_new : EthPacket
eth_new = record {
  ctrl_message_id = processing;
  m_data = some (replicate max_packet_size 0);
  eth_header = some 0;
  m_size = 0;
  m_timestamp = 0;
}

-- What both moves leave of their source.
abbrev eth_emptied : EthPacket → EthPacket
eth_emptied p = record p { m_data = none; eth_header = none; m_size = 0; m_timestamp = 0 }

-- The move constructor: the new packet and the source. The base is built by its default
-- constructor.
unfoldable pub eth_move : EthPacket → EthPacket × EthPacket
eth_move orig = (record orig { ctrl_message_id = processing }, eth_emptied orig)

-- The move assignment: the target and the source. The base of the target is left alone.
unfoldable pub eth_assign : EthPacket → EthPacket → EthPacket × EthPacket
eth_assign dst src = (record src { ctrl_message_id = dst.ctrl_message_id }, eth_emptied src)

-- `getPayloadDataImpl`: `m_data + sizeof(HeaderType)`.
abbrev pub eth_payload : ℕ
eth_payload = ether_header_size

abbrev pub eth_set_size : ℕ → EthPacket → EthPacket
eth_set_size n p = record p { m_size = n }

-- `struct timespec`.
pub record Timespec : Type 0 where
  pub tv_sec : ℕ
  pub tv_nsec : ℕ

-- The milliseconds that `setTimestamp` stores, on a `size_t`.
abbrev pub clock_msec : Timespec → ℕ
clock_msec ts = (ts.tv_sec * 1000 + ts.tv_nsec / 1000000) % 2 ^ 64

-- `setTimestamp`; the argument is what `clock_gettime` answers.
abbrev pub eth_set_timestamp : Timespec → EthPacket → EthPacket
eth_set_timestamp ts p = record p { m_timestamp = clock_msec ts }

-- `setCtrlMessageId`.
abbrev pub eth_set_ctrl_message_id : ControlMessageId → EthPacket → EthPacket
eth_set_ctrl_message_id id p = record p { ctrl_message_id = id }

-- The loop of `getPacketSpecificHashImpl` from round `i` on, with `n` rounds left. The destination
-- address is at 0, the source address at 6. The sums stay far below 2 ^ 64.
unfoldable pub eth_hash_loop : ℕ → ℕ → Buffer → ℕ → ℕ
eth_hash_loop zero i d hash = hash
eth_hash_loop (suc n) i d hash = eth_hash_loop n (i + 1) d (hash + byte_at d (6 + i) + byte_at d i)

-- `eth_hash p d` is `getPacketSpecificHashImpl` where the packet's header points into `d`.
unfoldable pub eth_hash : EthPacket → Buffer → ℕ
unfolding eth_hash_loop
eth_hash p d = elim p.eth_header [ none ↦ 0 | some h ↦ eth_hash_loop 6 0 d 0 + u16_at d 12 ]
