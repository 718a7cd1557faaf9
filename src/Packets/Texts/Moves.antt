-- ===== src/Packets/Texts/Moves.antt =====
-- The texts of RADIUS packets that are moved (src/Packets/RADIUSPacket.cpp), and of those without a
-- pool item.
use traffic_inspector.Base.{ℕ, ◌≡◌, ◌⊎◌, inl, inr, refl, ap, none, some, Option, ok, codes, arith}
use traffic_inspector.Packets.Eth.{EthPacket}
use traffic_inspector.Packets.Ip.{ip_move, ip_assign}
use traffic_inspector.Packets.Udp.{udp_move, udp_assign}
use traffic_inspector.Packets.Radius.{RadiusPacket, radius_move, radius_assign}
use traffic_inspector.Packets.Texts.{ip_to_string, udp_to_string, radius_to_string}

-- What the text of a packet depends on.
record Printed : Type 0 where
  item : Option EthPacket
  ip_header : Option ℕ
  udp_header : Option ℕ
  radius_header : Option ℕ

abbrev printed : RadiusPacket → Printed
printed p = record {
  item = p.m_prev_layer_packet.m_prev_layer_packet.m_prev_layer_packet;
  ip_header = p.m_prev_layer_packet.m_prev_layer_packet.m_ip_header;
  udp_header = p.m_prev_layer_packet.udp_header;
  radius_header = p.radius_header;
}

-- A packet with what is printed of another.
abbrev reprint : Printed → RadiusPacket → RadiusPacket
reprint x p = record p {
  radius_header = x.radius_header;
  m_prev_layer_packet = record p.m_prev_layer_packet {
    udp_header = x.udp_header;
    m_prev_layer_packet = record p.m_prev_layer_packet.m_prev_layer_packet {
      m_ip_header = x.ip_header;
      m_prev_layer_packet = x.item;
    };
  };
}

to_string-printed :
    (p q : RadiusPacket) → printed p ≡ printed q → radius_to_string p ≡ radius_to_string q
unfolding radius_to_string udp_to_string ip_to_string
to_string-printed p q e = ap (λ x. radius_to_string (reprint x q)) e

to_string-emptied :
    (p : RadiusPacket) (h : Option ℕ)
    → printed p ≡ record { item = none; ip_header = h; udp_header = none; radius_header = none }
    → radius_to_string p ≡ ok (codes "EMPTY")
unfolding radius_to_string udp_to_string ip_to_string
to_string-emptied p h e = ap (λ x. radius_to_string (reprint x p)) e

-- What a move of either kind does to what is printed.
abbrev IsMoved : RadiusPacket → RadiusPacket → RadiusPacket → Type 0
IsMoved orig new old =
    (printed new ≡ printed orig)
    × ((h : Option ℕ) × (printed old
          ≡ record { item = none; ip_header = h; udp_header = none; radius_header = none }))

radius_move-IsMoved :
    (orig new old : RadiusPacket) → radius_move orig ≡ ok (new, old) → IsMoved orig new old
unfolding radius_move udp_move ip_move
radius_move-IsMoved orig new old e = go (printed orig).item refl
  where
    go : (o : Option EthPacket) → (printed orig).item ≡ o → IsMoved orig new old
    go none p = absurd (ground arith)
    go (some raw) p = (ground arith, ((printed orig).ip_header, ground arith))

radius_assign-IsMoved :
    (dst orig new old : RadiusPacket)
    → radius_assign dst orig ≡ ok (new, old)
    → IsMoved orig new old
unfolding radius_assign udp_assign ip_assign
radius_assign-IsMoved dst orig new old e = go (printed orig).item refl
  where
    go : (o : Option EthPacket) → (printed orig).item ≡ o → IsMoved orig new old
    go none p = absurd (ground arith)
    go (some raw) p = (ground arith, (none, ground arith))

-- A packet that was moved, by construction or by assignment, is printed as it was before, and its
-- source is printed as `EMPTY`.
pub radius_to_string-moved :
    (dst orig new old : RadiusPacket)
    → (radius_move orig ≡ ok (new, old)) ⊎ (radius_assign dst orig ≡ ok (new, old))
    → (radius_to_string new ≡ radius_to_string orig) × (radius_to_string old ≡ ok (codes "EMPTY"))
radius_to_string-moved dst orig new old h = finish (elim h [
  | inl e ↦ radius_move-IsMoved orig new old e
  | inr e ↦ radius_assign-IsMoved dst orig new old e
])
  where
    finish :
        IsMoved orig new old
        → (radius_to_string new ≡ radius_to_string orig)
          × (radius_to_string old ≡ ok (codes "EMPTY"))
    finish (e, (k, f)) = (to_string-printed new orig e, to_string-emptied old k f)
