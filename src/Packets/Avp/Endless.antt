-- ===== src/Packets/Avp/Endless.antt =====
-- Runs of the loop of RADIUSPacket(UDPPacket &&), which tests `size > dataOffset + length - 2` and
-- has no `break` (src/Packets/RADIUSPacket.cpp).
use traffic_inspector.Base.{
  ℕ, zero, suc, ◌+◌, ◌%◌, ◌≤◌, ◌<◌, ◌≡◌, ◌≢◌, refl, List, length, Bool, ok, arith, get_elem?,
  >>=-eq-ok, min, some, Bool-cases, inl, inr, ◌==◌, Option, none, lt→ltb, ==_iff, ==_refl, [], ◌∷◌,
  subst, All,
}
use traffic_inspector.Packets.Wire.{Buffer}
use traffic_inspector.Packets.Avp.Memory.{HasAt, load, load_cases, load_bytes_cases}
use traffic_inspector.Packets.Avp.Storage.{AvpStorage}
use traffic_inspector.Packets.Avp.{
  Scan, parse_type, parse_length, take_value, udp_value, udp_round, udp_loop, parse_udp, start_scan,
  pack_length,
}

-- A byte that reads as a length which its attribute can have.
abbrev pub IsLongByte : ℕ → Type 0
IsLongByte b = (2 ≤ b) × (b < 256)

-- The bytes of a stretch of the buffer.
abbrev LongFrom : Buffer → ℕ → ℕ → Type 0
LongFrom d lo hi = (i b : ℕ) → lo ≤ i → i < hi → get_elem? d i ≡ some b → IsLongByte b

HasAt-LongFrom :
    (d : Buffer) (p : ℕ) (xs : List ℕ)
    → HasAt d p xs
    → All IsLongByte xs
    → LongFrom d p (p + length xs)
HasAt-LongFrom d p [] h a i b lo hi e = absurd (omega arith)
HasAt-LongFrom d p (x ∷ xs) h a i b lo hi e = elim (Bool-cases (p == i)) [
  | inl t ↦ ground (arith, rw (← (==_iff p i).0 t) at e)
  | inr t ↦ HasAt-LongFrom d (p + 1) xs h.1 a.1 i b (ground arith) (omega arith) e
]

-- A scan that is inside the packet whose header is at `h`.
record Inside (h size : ℕ) (s : Scan) : Type 0 where
  room : s.data_offset < size
  behind : 20 ≤ s.data_offset
  pointer : s.payload ≡ h + s.data_offset

parse_type-Inside :
    (k size : ℕ) (d : Buffer) (s s' : Scan) (o : Option ℕ)
    → size < 65536
    → Inside k size s
    → parse_type size d s ≡ ok (o, s')
    → Inside k size s'
unfolding parse_type
parse_type-Inside k size d s s' o small h e = ground (arith, load_cases d s.payload)

parse_length-Inside :
    (k size : ℕ) (d : Buffer) (o : Option ℕ) (s s' : Scan) (r : Option (ℕ × ℕ))
    → size < 65536
    → Inside k size s
    → parse_length size d o s ≡ ok (r, s')
    → Inside k size s'
unfolding parse_length
parse_length-Inside k size d none s s' r small h e = ground arith
parse_length-Inside k size d (some t) s s' r small h e = ground (arith, load_cases d s.payload)

-- The length that was read is a byte of the packet.
parse_length-read :
    (size : ℕ) (d : Buffer) (o : Option ℕ) (s s' : Scan) (t n : ℕ)
    → parse_length size d o s ≡ ok (some (t, n), s')
    → get_elem? d s.payload ≡ some n
unfolding parse_length load
parse_length-read size d none s s' t n e = absurd (cc)
parse_length-read size d (some t') s s' t n e = ground arith

udp_value-Inside :
    (k size : ℕ) (d : Buffer) (t n : ℕ) (s s' : Scan)
    → size < 65536
    → 2 ≤ n
    → n < 256
    → Inside k size s
    → udp_value size d (some (t, n)) s ≡ ok s'
    → Inside k size s'
unfolding udp_value take_value
udp_value-Inside k size d t n s s' small lo hi h e =
    ground (arith, load_bytes_cases d s.payload ((n + 254) % 256))

udp_round-Inside :
    (k size : ℕ) (d : Buffer) (s s' : Scan)
    → LongFrom d (k + 20) (k + size)
    → size < 65536
    → Inside k size s
    → udp_round size d s ≡ ok s'
    → Inside k size s'
unfolding udp_round
udp_round-Inside k size d s s' long small h e =
    let ((o, s₁), e₁, r₁) = >>=-eq-ok (parse_type size d s) _ e in
    let ((p, s₂), e₂, r₂) = >>=-eq-ok (parse_length size d o s₁) _ r₁ in
    let i₁ : Inside k size s₁ = parse_type-Inside k size d s s₁ o small h e₁ in
    let i₂ : Inside k size s₂ = parse_length-Inside k size d o s₁ s₂ p small i₁ e₂ in
    go s₁ s₂ o p e₂ i₁ i₂ r₂
  where
    go :
        (s₁ s₂ : Scan) (o : Option ℕ) (p : Option (ℕ × ℕ))
        → parse_length size d o s₁ ≡ ok (p, s₂)
        → Inside k size s₁
        → Inside k size s₂
        → udp_value size d p s₂ ≡ ok s'
        → Inside k size s'
    go s₁ s₂ o none e₂ i₁ i₂ r₂ = unfold udp_value in ground arith
    go s₁ s₂ o (some (t, n)) e₂ i₁ i₂ r₂ =
        let b =
          long s₁.payload n (omega (arith, i₁)) (omega (arith, i₁))
            (parse_length-read size d o s₁ s₂ t n e₂) in
        udp_value-Inside k size d t n s₂ s' small b.0 b.1 i₂ r₂

udp_loop-ne-ok :
    (k size : ℕ) (d : Buffer) (fuel : ℕ) (s : Scan) (m : AvpStorage)
    → LongFrom d (k + 20) (k + size)
    → size < 65536
    → Inside k size s
    → udp_loop size d fuel s ≢ ok m
unfolding udp_loop
udp_loop-ne-ok k size d zero s m long small h e = cc
udp_loop-ne-ok k size d (suc fuel) s m long small h e =
    let (s', e₁, r₁) = >>=-eq-ok (udp_round size d s) _ (rw (lt→ltb _ _ h.room, udp_loop) at e) in
    udp_loop-ne-ok k size d fuel s' m long small (udp_round-Inside k size d s s' long small h e₁) r₁

-- On a packet of less than 65536 bytes whose Length field is its size, and whose attributes are not
-- empty and hold no byte 0 or 1, the constructor returns for no amount of fuel.
pub parse_udp-ne-ok :
    (ndebug : Bool) (fuel : ℕ) (d : Buffer) (h packet_size : ℕ) (m : AvpStorage) (body : List ℕ)
    → HasAt d (h + 20) body
    → All IsLongByte body
    → packet_size ≡ 20 + length body
    → body ≢ []
    → packet_size < 65536
    → pack_length d h ≡ packet_size
    → parse_udp ndebug fuel d h packet_size ≢ ok m
unfolding parse_udp
parse_udp-ne-ok ndebug fuel d h packet_size m [] at long size some' hi len e = some' refl
parse_udp-ne-ok ndebug fuel d h packet_size m (x ∷ body) at long size some' hi len e =
    let n : min packet_size packet_size % 65536 ≡ packet_size = omega arith in
    udp_loop-ne-ok h packet_size d fuel (start_scan h) m
      (subst (LongFrom d (h + 20)) (omega arith) (HasAt-LongFrom d (h + 20) (x ∷ body) at long)) hi
      (record { room = omega arith; behind = omega arith; pointer = refl })
      (rw n at (rw (==_refl packet_size) at (rw len at e)))
