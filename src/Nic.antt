-- ===== src/Nic.antt =====
-- NIC: include/NIC.h and src/NIC.cpp. The socket calls are inputs.
pub mod Receive
mod Tests
use traffic_inspector.Base.{
  ℕ, zero, suc, Bool, true, false, List, [], ◌∷◌, ◌++◌, Option, none, some, length, replicate,
  if◌then◌else◌, Outcome, ok, ◌>>=◌, deref,
}
use traffic_inspector.Packets.Wire.{Buffer}
use traffic_inspector.Packets.Eth.{EthPacket, eth_set_size, eth_set_timestamp, Timespec, eth_new}

-- The socket (`none` for -1), whether it is bound to the device, and the free pool items.
pub record Nic : Type 0 where
  pub m_sniff_socket : Option ℕ
  pub bound : Bool
  pub m_nic_recv_packets_pool : List EthPacket

-- The constructor: no socket, and a pool of new items.
unfoldable pub new_nic : ℕ → Nic
unfolding eth_new
new_nic raw_packet_pool_size = record {
  m_sniff_socket = none;
  bound = false;
  m_nic_recv_packets_pool = replicate raw_packet_pool_size eth_new;
}

-- `return`, or `exit(EXIT_FAILURE)` after the socket was closed.
pub data Initialized : Type 0 where
  returns : Bool → Nic → Initialized
  exits : Initialized

-- What `socket` and the two calls of `setsockopt` answer.
pub record SocketReplies : Type 0 where
  pub socket : Option ℕ
  pub reuse_address : Bool
  pub bind_to_device : Bool

unfoldable pub initialize : SocketReplies → Nic → Initialized
initialize os n = elim n.m_sniff_socket [
  | some fd ↦ returns true n
  | none ↦ elim os.socket [
    | none ↦ returns false n
    | some fd ↦
        if os.reuse_address
        then (if os.bind_to_device
            then returns true (record n { m_sniff_socket = some fd; bound = true })
            else exits)
        else exits
  ]
]

-- The bytes that `recvfrom` writes over the front of the buffer.
unfoldable pub overwrite : List ℕ → Buffer → Buffer
overwrite [] d = d
overwrite (b ∷ bs) [] = []
overwrite (b ∷ bs) (x ∷ d) = b ∷ overwrite bs d

-- What `recvfrom` answers: -1, or a frame of at most `getMaxPacketSize()` bytes.
pub data Received : Type 0 where
  error : Received
  frame : List ℕ → Received

-- The pool item after `recvfrom`; `now` is the clock of `setTimestamp`.
unfoldable pub fill : Received → Timespec → EthPacket → Outcome EthPacket
unfolding overwrite
fill error now p = ok (eth_set_size 0 p)
fill (frame bs) now p = do
  d ← deref p.m_data
  ok (
      eth_set_timestamp now
        (eth_set_size (length bs) (record p { m_data = some (overwrite bs d) })))

-- `receivePacket`: `none` while it waits for an item of the pool.
unfoldable pub receive_packet : Received → Timespec → Nic → Outcome (Option (EthPacket × Nic))
unfolding fill
receive_packet r now n = elim n.m_nic_recv_packets_pool [
  | [] ↦ ok none
  | p ∷ rest ↦ fill r now p >>= λ p'. ok (some (p', record n { m_nic_recv_packets_pool = rest }))
]
