-- ===== src/Nic/Receive.antt =====
-- `receivePacket` of src/NIC.cpp.
use traffic_inspector.Base.{
  ℕ, zero, suc, ◌≤◌, ◌≡◌, refl, ap, List, [], ◌∷◌, some, length, get_elem?, ok, ◌<◌, arith, ltb,
  if◌then◌else◌,
}
use traffic_inspector.Packets.Wire.{Buffer}
use traffic_inspector.Packets.Eth.{EthPacket, Timespec, clock_msec}
use traffic_inspector.Nic.{Nic, error, frame, overwrite, receive_packet}

length-overwrite : (bs : List ℕ) (d : Buffer) → length (overwrite bs d) ≡ length d
unfolding overwrite
length-overwrite [] d = refl
length-overwrite (b ∷ bs) [] = refl
length-overwrite (b ∷ bs) (x ∷ d) = ap suc (length-overwrite bs d)

overwrite-front :
    (bs : List ℕ) (d : Buffer) (i : ℕ)
    → length bs ≤ length d
    → i < length bs
    → get_elem? (overwrite bs d) i ≡ get_elem? bs i
unfolding overwrite
overwrite-front [] d i h lt = absurd (omega arith)
overwrite-front (b ∷ bs) [] i h lt = absurd (omega arith)
overwrite-front (b ∷ bs) (x ∷ d) zero h lt = refl
overwrite-front (b ∷ bs) (x ∷ d) (suc i) h lt = overwrite-front bs d i (omega arith) (omega arith)

overwrite-back :
    (bs : List ℕ) (d : Buffer) (i : ℕ)
    → length bs ≤ i
    → get_elem? (overwrite bs d) i ≡ get_elem? d i
unfolding overwrite
overwrite-back [] d i h = refl
overwrite-back (b ∷ bs) [] i h = refl
overwrite-back (b ∷ bs) (x ∷ d) zero h = absurd (omega arith)
overwrite-back (b ∷ bs) (x ∷ d) (suc i) h = overwrite-back bs d i (omega arith)

get_elem?-overwrite :
    (bs : List ℕ) (d : Buffer) (i : ℕ)
    → length bs ≤ length d
    → get_elem? (overwrite bs d) i ≡ (if ltb i (length bs) then get_elem? bs i else get_elem? d i)
get_elem?-overwrite bs d i h = ground (arith, overwrite-front bs d i h, overwrite-back bs d i)

-- The pool's front item is filled with a frame that fits its buffer: the frame stands at the front
-- of its buffer, what an earlier frame left behind it stays, the size and the time are the frame's,
-- and the item has left the pool.
pub receive_packet_frame :
    (bs : List ℕ) (now : Timespec) (n : Nic) (p : EthPacket) (rest : List EthPacket) (d : Buffer)
    → n.m_nic_recv_packets_pool ≡ p ∷ rest
    → p.m_data ≡ some d
    → length bs ≤ length d
    → (q : EthPacket) × (d' : Buffer) × (receive_packet (frame bs) now n
        ≡ ok (some (q, record n { m_nic_recv_packets_pool = rest })))
      × (q.m_data ≡ some d')
      × (length d' ≡ length d)
      × ((i : ℕ) → get_elem? d' i ≡ (if ltb i (length bs) then get_elem? bs i else get_elem? d i))
      × (q.m_size ≡ length bs)
      × (q.m_timestamp ≡ clock_msec now)
unfolding receive_packet
receive_packet_frame bs now n p rest d pool data' fits = (
  record p { m_data = some (overwrite bs d); m_size = length bs; m_timestamp = clock_msec now },
  overwrite bs d,
  rw (pool, receive_packet) (rw data'),
  refl,
  length-overwrite bs d,
  λ i. get_elem?-overwrite bs d i fits,
  refl,
  refl,
)

-- After a failed `recvfrom` the item is returned all the same, with size 0, and with the bytes and
-- the time of the frame that it held before.
pub receive_packet_error :
    (now : Timespec) (n : Nic) (p : EthPacket) (rest : List EthPacket)
    → n.m_nic_recv_packets_pool ≡ p ∷ rest
    → (q : EthPacket) × (receive_packet error now n
        ≡ ok (some (q, record n { m_nic_recv_packets_pool = rest })))
      × (q.m_data ≡ p.m_data)
      × (q.m_size ≡ 0)
      × (q.m_timestamp ≡ p.m_timestamp)
unfolding receive_packet
receive_packet_error now n p rest pool =
    (record p { m_size = 0 }, rw (pool, receive_packet), refl, refl, refl)
