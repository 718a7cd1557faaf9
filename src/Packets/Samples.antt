-- ===== src/Packets/Samples.antt =====
-- Frames for the tests: Ethernet, IP, UDP and RADIUS headers with a few attributes.
use traffic_inspector.Base.{
  ℕ, ◌≡◌, refl, ltb, ltb→lt, ◌&&◌, Bool, true, false, List, [], ◌∷◌, ◌++◌, All, some,
}
use traffic_inspector.Packets.Types.{processing}
use traffic_inspector.Packets.Wire.{Buffer, IsByte}
use traffic_inspector.Packets.Eth.{EthPacket}

-- The Ethernet header of an IP frame between two hosts, each the last byte of an address.
abbrev pub ether : ℕ → ℕ → List ℕ
ether dest source = 2 ∷ 0 ∷ 0 ∷ 0 ∷ 0 ∷ dest ∷ 2 ∷ 0 ∷ 0 ∷ 0 ∷ 0 ∷ source ∷ 8 ∷ 0 ∷ []

-- An IP header with the given protocol.
abbrev pub ip_header : ℕ → ℕ → ℕ → List ℕ
ip_header protocol source dest =
    69 ∷ 0 ∷ 0 ∷ 55 ∷ 0 ∷ 1 ∷ 0 ∷ 0 ∷ 64 ∷ protocol ∷ 0 ∷ 0 ∷ 10 ∷ 0 ∷ 0 ∷ source ∷ 10 ∷ 0 ∷ 0
    ∷ dest ∷ []

-- A UDP header from and to ports below 65536.
abbrev pub udp_ports : ℕ → ℕ → ℕ → ℕ → List ℕ
udp_ports s0 s1 d0 d1 = s0 ∷ s1 ∷ d0 ∷ d1 ∷ 0 ∷ 35 ∷ 0 ∷ 0 ∷ []

-- A RADIUS header with the code, the identifier and the length.
abbrev pub radius_bytes : ℕ → ℕ → ℕ → List ℕ
radius_bytes code identifier n =
    code ∷ identifier ∷ 0 ∷ n ∷ 0 ∷ 0 ∷ 0 ∷ 0 ∷ 0 ∷ 0 ∷ 0 ∷ 0 ∷ 0 ∷ 0 ∷ 0 ∷ 0 ∷ 0 ∷ 0 ∷ 0 ∷ 0 ∷ []

-- Acct-Session-Id (44) of two bytes and User-Name (1) of one.
abbrev pub attribute_bytes : List ℕ
attribute_bytes = 44 ∷ 4 ∷ 65 ∷ 66 ∷ 1 ∷ 3 ∷ 90 ∷ []

-- An Accounting-Request from port 50000 (195, 80) to port 1813 (7, 21), and its response.
abbrev pub request_frame : Buffer
request_frame =
    ether 9 7
    ++ ip_header 17 1 2
    ++ udp_ports 195 80 7 21
    ++ radius_bytes 4 77 27
    ++ attribute_bytes

abbrev pub response_frame : Buffer
response_frame =
    ether 7 9
    ++ ip_header 17 2 1
    ++ udp_ports 7 21 195 80
    ++ radius_bytes 5 77 27
    ++ attribute_bytes

-- A pool item that holds a frame.
abbrev pub item : Buffer → ℕ → EthPacket
item d n = record {
  ctrl_message_id = processing;
  m_data = some d;
  eth_header = some 0;
  m_size = n;
  m_timestamp = 5000;
}

abbrev pub are_bytes : List ℕ → Bool
are_bytes [] = true
are_bytes (x ∷ xs) = ltb x 256 && are_bytes xs

and_inv : (a b : Bool) → (a && b) ≡ true → (a ≡ true) × (b ≡ true)
and_inv true b e = (refl, e)
and_inv false b e = absurd (cc)

pub are_bytes-All : (xs : List ℕ) → are_bytes xs ≡ true → All IsByte xs
are_bytes-All [] e = tt
are_bytes-All (x ∷ xs) e =
    let (a, b) = and_inv (ltb x 256) (are_bytes xs) e in (ltb→lt x 256 a, are_bytes-All xs b)
