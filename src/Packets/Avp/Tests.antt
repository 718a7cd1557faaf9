-- ===== src/Packets/Avp/Tests.antt =====
-- Runs of the two loops, and the theorems at concrete packets.
use traffic_inspector.Base.{
  ℕ, ◌+◌, ◌≡◌, ◌≢◌, ◌⊎◌, refl, List, [], ◌∷◌, ◌++◌, length, true, false, ok, stuck, fault,
  assertion, out_of_bounds, arith, replicate, codes, decimal, digits,
}
use traffic_inspector.Packets.Wire.{Buffer}
use traffic_inspector.Packets.Avp.Storage.{AvpStorage, find, IsSorted, insert}
use traffic_inspector.Packets.Avp.Memory.{HasAt}
use traffic_inspector.Packets.Avp.Encoding.{Attribute, encode, store, first_value}
use traffic_inspector.Packets.Avp.Total.{parse_raw-ne-stuck}
use traffic_inspector.Packets.Avp.Bounds.{IsSafe, parse_raw-IsSafe}
use traffic_inspector.Packets.Avp.RoundTrip.{parse_raw-encode}
use traffic_inspector.Packets.Avp.Sound.{HasOverlong, parse_raw_sound}
use traffic_inspector.Packets.Avp.Print.{avps_to_string, read_avps, read_avps-avps_to_string}
use traffic_inspector.Packets.Avp.Endless.{parse_udp-ne-ok}
use traffic_inspector.Packets.Avp.{parse_raw, parse_udp, pack_length}

-- An Accounting-Request header of the given length.
abbrev header : ℕ → List ℕ
header n = 4 ∷ 7 ∷ 0 ∷ n ∷ 0 ∷ 0 ∷ 0 ∷ 0 ∷ 0 ∷ 0 ∷ 0 ∷ 0 ∷ 0 ∷ 0 ∷ 0 ∷ 0 ∷ 0 ∷ 0 ∷ 0 ∷ 0 ∷ []

-- Acct-Session-Id (44) of two bytes, User-Name (1) of one.
abbrev attributes : List Attribute
attributes = record { kind = 44; value = 65 ∷ 66 ∷ [] } ∷ record { kind = 1; value = 90 ∷ [] } ∷ []

abbrev packet : Buffer
packet = header 27 ++ encode attributes

parse_packet : parse_raw false packet 0 27 ≡ ok ((1, 90 ∷ []) ∷ (44, 65 ∷ 66 ∷ []) ∷ [])
unfolding parse_raw insert
parse_packet = refl

-- A length byte 0 makes the constructor copy 254 bytes from behind the packet.
parse_short_length : parse_raw false (header 23 ++ (44 ∷ 0 ∷ 9 ∷ [])) 0 23 ≡ fault out_of_bounds
unfolding parse_raw
parse_short_length = refl

parse_wrong_size : parse_raw false packet 0 26 ≡ fault assertion
unfolding parse_raw
parse_wrong_size = refl

-- An attribute with no value at the end of the packet is refused.
parse_empty_value : parse_raw false (header 22 ++ (44 ∷ 2 ∷ [])) 0 22 ≡ fault assertion
unfolding parse_raw
parse_empty_value = refl

parse_raw-encode_example :
    (m : AvpStorage) × (parse_raw false packet 0 27 ≡ ok m)
    × IsSorted m
    × ((k : ℕ) → find k m ≡ first_value k attributes)
parse_raw-encode_example =
    parse_raw-encode false packet 0 27 attributes (omega arith) (omega arith) refl refl
      (refl, (refl, (refl, (refl, (refl, (refl, (refl, tt)))))))

parse_raw_sound_example :
    (pack_length packet 0 ≡ 27)
    × ((as' : List Attribute) × HasAt packet 20 (encode as')
        × (((1, 90 ∷ []) ∷ (44, 65 ∷ 66 ∷ []) ∷ []) ≡ store as' [])
        × ((20 + length (encode as') ≡ 27) ⊎ HasOverlong as'))
parse_raw_sound_example =
    parse_raw_sound packet 0 27 ((1, 90 ∷ []) ∷ (44, 65 ∷ 66 ∷ []) ∷ []) (omega arith) (omega arith)
      (omega arith) parse_packet

parse_raw-ne-stuck_example : parse_raw true packet 0 27 ≢ stuck
parse_raw-ne-stuck_example = parse_raw-ne-stuck true packet 0 27

-- The same packet in front of free room.
abbrev roomy : Buffer
roomy = packet ++ replicate 254 0

parse_raw-IsSafe_example : IsSafe false (parse_raw false roomy 0 27)
parse_raw-IsSafe_example = parse_raw-IsSafe false roomy 0 27 (omega arith) (omega arith)

abbrev body : List ℕ
body = 44 ∷ 4 ∷ 65 ∷ 66 ∷ []

parse_udp-ne-ok_example : parse_udp false 100 (header 24 ++ body) 0 24 ≢ ok []
parse_udp-ne-ok_example =
    parse_udp-ne-ok false 100 (header 24 ++ body) 0 24 [] body (refl, (refl, (refl, (refl, tt))))
      (omega arith) refl (λ e. cc) (omega arith) refl

abbrev printed : AvpStorage
printed = (1, 65 ∷ 0 ∷ []) ∷ (44, []) ∷ []

printed_text :
    avps_to_string printed
    ≡ codes "[Type: 1, Length: 2, Value: A0], " ++ codes "[Type: 44, Length: 0, Value: ], "
unfolding avps_to_string decimal digits
printed_text = refl

-- The byte 0 comes back as the character '0'.
read_avps-avps_to_string_example :
    read_avps 2 (avps_to_string printed) ≡ (1, 65 ∷ 48 ∷ []) ∷ (44, []) ∷ []
read_avps-avps_to_string_example = read_avps-avps_to_string printed 2 (omega arith)
