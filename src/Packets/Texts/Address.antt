-- ===== src/Packets/Texts/Address.antt =====
-- The address that `inetIpToString` prints (src/Packets/IPPacket.cpp), and a reader for it.
use traffic_inspector.Base.{
  ℕ, ◌+◌, ◌≡◌, refl, ap, ◌∙◌, [], ◌∷◌, ◌++◌, append_assoc, All, Text, codes, decimal, take_digits,
  take_digits-decimal, IsNoDigit,
}
use traffic_inspector.Packets.Wire.{Buffer, byte_at, u32_at, IsByte}
use traffic_inspector.Packets.Ip.Laws.{inet_ip_octets-u32_at}
use traffic_inspector.Packets.Texts.{octets_to_string, inet_ip_to_string}

-- A number and what follows the character behind it.
unfoldable field : Text → ℕ × Text
field s = let (n, rest) = take_digits 0 s in (n, elim rest [ [] ↦ [] | c ∷ cs ↦ cs ])

-- A number in front of a point.
read_field : (n : ℕ) (s : Text) → field (decimal n ++ (codes "." ++ s)) ≡ (n, s)
unfolding field
read_field n s = rw (take_digits-decimal n (codes "." ++ s) refl) refl

-- What is read behind the numbers so far.
abbrev from_last : ℕ → ℕ → ℕ → ℕ × Text → (ℕ × ℕ × ℕ × ℕ) × Text
from_last a b c (e, s) = ((a, b, c, e), s)

abbrev from_third : ℕ → ℕ → ℕ × Text → (ℕ × ℕ × ℕ × ℕ) × Text
from_third a b (c, s) = from_last a b c (take_digits 0 s)

from_second : ℕ → ℕ × Text → (ℕ × ℕ × ℕ × ℕ) × Text
unfolding field
from_second a (b, s) = from_third a b (field s)

from_first : ℕ × Text → (ℕ × ℕ × ℕ × ℕ) × Text
unfolding from_second
from_first (a, s) = from_second a (field s)

-- Four numbers with a character between them, and what follows.
unfoldable pub read_address : Text → (ℕ × ℕ × ℕ × ℕ) × Text
unfolding from_first
read_address s = from_first (field s)

read_fields :
    (t t₁ t₂ t₃ s : Text) (a b c e : ℕ)
    → field t ≡ (a, t₁)
    → field t₁ ≡ (b, t₂)
    → field t₂ ≡ (c, t₃)
    → take_digits 0 t₃ ≡ (e, s)
    → read_address t ≡ ((a, b, c, e), s)
unfolding read_address from_first
read_fields t t₁ t₂ t₃ s a b c e p q r u =
    ap from_first p ∙ ap (from_second a) q ∙ ap (from_third a b) r ∙ ap (from_last a b c) u

-- A text of four numbers, continued.
octets_text-append :
    (a b c e s : Text)
    → (a ++ (codes "." ++ (b ++ (codes "." ++ (c ++ (codes "." ++ e)))))) ++ s
      ≡ a ++ (codes "." ++ (b ++ (codes "." ++ (c ++ (codes "." ++ (e ++ s))))))
octets_text-append a b c e s =
    append_assoc a (codes "." ++ (b ++ (codes "." ++ (c ++ (codes "." ++ e))))) s
    ∙ ap (λ x. a ++ (codes "." ++ x)) (append_assoc b (codes "." ++ (c ++ (codes "." ++ e))) s)
    ∙ ap (λ x. a ++ (codes "." ++ (b ++ (codes "." ++ x)))) (append_assoc c (codes "." ++ e) s)

read-octets :
    (a b c e : ℕ) (s : Text)
    → IsNoDigit s
    → read_address (octets_to_string (a, b, c, e) ++ s) ≡ ((a, b, c, e), s)
unfolding octets_to_string
read-octets a b c e s h =
    let t₃ = decimal e ++ s in
    let t₂ = decimal c ++ (codes "." ++ t₃) in
    let t₁ = decimal b ++ (codes "." ++ t₂) in
    ap read_address (octets_text-append (decimal a) (decimal b) (decimal c) (decimal e) s)
    ∙ read_fields (decimal a ++ (codes "." ++ t₁)) t₁ t₂ t₃ s a b c e (read_field a t₁)
        (read_field b t₂) (read_field c t₃) (take_digits-decimal e s h)

-- An address in the frame is printed so that it can be read back: as its four bytes, in the order of
-- the frame, up to the next character that is not a digit.
pub read_address-inet_ip_to_string :
    (d : Buffer) (i : ℕ) (s : Text)
    → All IsByte d
    → IsNoDigit s
    → read_address (inet_ip_to_string (u32_at d i) ++ s)
      ≡ ((byte_at d i, byte_at d (i + 1), byte_at d (i + 2), byte_at d (i + 3)), s)
unfolding inet_ip_to_string
read_address-inet_ip_to_string d i s h t =
    ap (λ q. read_address (octets_to_string q ++ s)) (inet_ip_octets-u32_at d i h)
    ∙ read-octets (byte_at d i) (byte_at d (i + 1)) (byte_at d (i + 2)) (byte_at d (i + 3)) s t
