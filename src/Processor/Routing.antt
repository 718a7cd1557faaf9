-- ===== src/Processor/Routing.antt =====
-- The worker that `onDispatchImpl` of include/PacketProcessor.hpp chooses, and its queue.
use traffic_inspector.Base.{
  ℕ, ◌%◌, ◌<◌, ◌≡◌, some, List, [], ◌∷◌, ◌++◌, length, get_elem?, get_or, get_elem?-set_self,
  get_elem?-set_ne, get_elem?-lt, length-set, zero, suc, ok, arith, ◌==◌, if◌then◌else◌, Bool-cases,
  ==_iff, inl, inr,
}
use traffic_inspector.Packets.Wire.{Buffer}
use traffic_inspector.Packets.Eth.{EthPacket, eth_hash}
use traffic_inspector.Packets.Eth.Hash.{IsReply, eth_hash_reply}
use traffic_inspector.Processor.{PacketProcessor, SpecificPacket, worker_id, put_packet}

-- Where there are workers, the choice is one of them, and a frame and its reply, with header
-- pointers that are equal, get the same one.
pub worker_id_reply :
    (p : PacketProcessor) (raw raw' : EthPacket) (d d' : Buffer)
    → 0 < length p.m_received_packet_queue
    → raw.eth_header ≡ raw'.eth_header
    → IsReply d d'
    → (i : ℕ) × (worker_id p raw d ≡ ok i)
      × (worker_id p raw' d' ≡ ok i)
      × (i < length p.m_received_packet_queue)
unfolding worker_id
worker_id_reply p raw raw' d d' some' e r =
    let same : eth_hash raw' d' ≡ eth_hash raw d = eth_hash_reply raw raw' d d' e r in
    (eth_hash raw d % length p.m_received_packet_queue, ground arith, ground arith, omega arith)

get_or-get_elem? {ℓ} :
    {A : Type ℓ} (xs : List A) (i : ℕ) (a b : A) → get_elem? xs i ≡ some a → get_or xs i b ≡ a
get_or-get_elem? [] i a b e = absurd (cc)
get_or-get_elem? (x ∷ xs) zero a b e = ground arith
get_or-get_elem? (x ∷ xs) (suc i) a b e = get_or-get_elem? xs i a b e

-- A packet goes to the end of its worker's queue, and no other queue changes.
pub put_packet_lem :
    (p : PacketProcessor) (i : ℕ) (q : List SpecificPacket) (x : SpecificPacket)
    → get_elem? p.m_received_packet_queue i ≡ some q
    → let p' = put_packet p i x in
      ((j : ℕ)
        → get_elem? p'.m_received_packet_queue j
          ≡ (if i == j then some (q ++ (x ∷ [])) else get_elem? p.m_received_packet_queue j))
      × (length p'.m_received_packet_queue ≡ length p.m_received_packet_queue)
unfolding put_packet
put_packet_lem p i q x e =
    let qs = p.m_received_packet_queue in
    let old : get_or qs i [] ≡ q = get_or-get_elem? qs i q [] e in
    (
      λ j. elim (Bool-cases (i == j)) [
        | inl t ↦
            let same : i ≡ j = (==_iff i j).0 t in
            rw (t, ← same, old) (get_elem?-set_self qs i (q ++ (x ∷ [])) (get_elem?-lt qs i q e))
        | inr f ↦ rw f (get_elem?-set_ne qs i j _ (λ s. ground arith))
      ],
      length-set qs i _,
    )
