-- ===== src/Packets/Eth/Hash.antt =====
-- `getPacketSpecificHashImpl` of src/Packets/RawPacket.cpp on the two directions of an exchange.
use traffic_inspector.Base.{ℕ, ◌+◌, ◌≡◌, arith, All, List, [], ◌∷◌}
use traffic_inspector.Packets.Wire.{Buffer, byte_at, u16_at}
use traffic_inspector.Packets.Eth.{EthPacket, eth_hash}

abbrev octets : List ℕ
octets = 0 ∷ 1 ∷ 2 ∷ 3 ∷ 4 ∷ 5 ∷ []

-- The second frame goes back: its addresses are those of the first, exchanged.
pub record IsReply (d d' : Buffer) : Type 0 where
  pub to_source : All (λ i. byte_at d' i ≡ byte_at d (6 + i)) octets
  pub from_destination : All (λ i. byte_at d' (6 + i) ≡ byte_at d i) octets
  pub same_type : u16_at d' 12 ≡ u16_at d 12

-- A frame and its reply have the same hash.
pub eth_hash_reply :
    (p q : EthPacket) (d d' : Buffer)
    → p.eth_header ≡ q.eth_header
    → IsReply d d'
    → eth_hash q d' ≡ eth_hash p d
unfolding eth_hash
eth_hash_reply p q d d' e r = ground (arith, r.same_type, r.to_source, r.from_destination)
