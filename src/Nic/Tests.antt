-- ===== src/Nic/Tests.antt =====
-- A frame received into the front item of the pool.
use traffic_inspector.Base.{
  ℕ, ◌≡◌, refl, [], ◌∷◌, length, get_elem?, if◌then◌else◌, ltb, replicate, ok, some, true, arith,
}
use traffic_inspector.Packets.Wire.{Buffer, max_packet_size}
use traffic_inspector.Packets.Eth.{Timespec, EthPacket}
use traffic_inspector.Packets.Samples.{request_frame, item}
use traffic_inspector.Base.{false, none}
use traffic_inspector.Packets.Eth.{Timespec, eth_new}
use traffic_inspector.Nic.{Nic, frame, receive_packet, new_nic, initialize, exits}
use traffic_inspector.Nic.Receive.{receive_packet_frame}

abbrev free_buffer : Buffer
free_buffer = replicate max_packet_size 3

abbrev free_item : EthPacket
free_item = item free_buffer 69

abbrev clock : Timespec
clock = record { tv_sec = 8; tv_nsec = 1999999 }

abbrev nic : Nic
nic = record { m_sniff_socket = some 3; bound = true; m_nic_recv_packets_pool = free_item ∷ [] }

receive_packet_frame_example :
    (q : EthPacket) × (d' : Buffer) × (receive_packet (frame request_frame) clock nic
      ≡ ok (some (q, record nic { m_nic_recv_packets_pool = [] })))
    × (q.m_data ≡ some d')
    × (length d' ≡ length free_buffer)
    × ((i : ℕ)
        → get_elem? d' i ≡ (
            if ltb i (length request_frame)
            then get_elem? request_frame i
            else get_elem? free_buffer i))
    × (q.m_size ≡ length request_frame)
    × (q.m_timestamp ≡ 8001)
receive_packet_frame_example =
    receive_packet_frame request_frame clock nic free_item [] free_buffer refl refl (omega arith)

abbrev unopened : Nic
unopened = record {
  m_sniff_socket = none;
  bound = false;
  m_nic_recv_packets_pool = eth_new ∷ eth_new ∷ [];
}

new_nic_two : new_nic 2 ≡ unopened
unfolding new_nic
new_nic_two = refl

-- A failing bind ends the program.
open_without_device :
    initialize (record { socket = some 5; reuse_address = true; bind_to_device = false }) unopened
    ≡ exits
unfolding initialize
open_without_device = refl
