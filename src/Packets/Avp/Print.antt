-- ===== src/Packets/Avp/Print.antt =====
-- `std::to_string(const AVPStorage &)` of src/Packets/RADIUSPacket.cpp, and a reader for its text.
use traffic_inspector.Base.{
  ℕ, zero, suc, ◌≡◌, ◌≤◌, refl, sym, ap, ap₂, ◌∙◌, ◌==◌, if◌then◌else◌, List, [], ◌∷◌, ◌++◌, map,
  append_assoc, length, length-map, Text, codes, decimal, take_digits, take_digits-decimal, arith,
}
use traffic_inspector.Packets.Avp.Storage.{AvpStorage}

-- The character for a byte of a value: '0' for 0.
abbrev pub shown : ℕ → ℕ
shown v = if v == 0 then b'0' else v

avp_to_string : ℕ × List ℕ → Text
avp_to_string (k, v) =
    codes "[Type: "
    ++ (decimal k
        ++ (codes ", Length: "
            ++ (decimal (length v) ++ (codes ", Value: " ++ (map shown v ++ codes "], ")))))

-- The loop over the map, in the order of its keys.
unfoldable pub avps_to_string : AvpStorage → Text
unfolding avp_to_string
avps_to_string [] = []
avps_to_string (x ∷ m) = avp_to_string x ++ avps_to_string m

abbrev drop : ℕ → Text → Text
drop zero s = s
drop (suc n) [] = []
drop (suc n) (c ∷ s) = drop n s

-- The first `n` characters, and the others.
abbrev split_at : ℕ → Text → Text × Text
split_at zero s = ([], s)
split_at (suc n) [] = ([], [])
split_at (suc n) (c ∷ s) = let (v, rest) = split_at n s in (c ∷ v, rest)

-- One item of the text: its fixed parts are skipped by their lengths, and the value's length is the
-- one that is printed in front of it.
read_avp : Text → (ℕ × List ℕ) × Text
read_avp s =
    let (k, s₁) = take_digits 0 (drop 7 s) in
    let (n, s₂) = take_digits 0 (drop 10 s₁) in
    let (v, s₃) = split_at n (drop 9 s₂) in ((k, v), drop 3 s₃)

-- The items of a text, at most as many as the fuel.
unfoldable pub read_avps : ℕ → Text → AvpStorage
unfolding read_avp
read_avps zero s = []
read_avps (suc fuel) [] = []
read_avps (suc fuel) (c ∷ s) = let (x, rest) = read_avp (c ∷ s) in x ∷ read_avps fuel rest

split_at-append : (v s : Text) → split_at (length v) (v ++ s) ≡ (v, s)
split_at-append [] s = refl
split_at-append (c ∷ v) s = rw (split_at-append v s) refl

read_steps :
    (t t₁ t₂ t₃ s : Text) (k n : ℕ) (v : List ℕ)
    → take_digits 0 (drop 7 t) ≡ (k, t₁)
    → take_digits 0 (drop 10 t₁) ≡ (n, t₂)
    → split_at n (drop 9 t₂) ≡ (v, t₃)
    → drop 3 t₃ ≡ s
    → read_avp t ≡ ((k, v), s)
unfolding read_avp
read_steps t t₁ t₂ t₃ s k n v p q r u = rw (p, q, r, u) refl

avp_to_string-append :
    (k : ℕ) (v : List ℕ) (s : Text)
    → avp_to_string (k, v) ++ s
      ≡ codes "[Type: "
        ++ (decimal k
            ++ (codes ", Length: "
                ++ (decimal (length v)
                    ++ (codes ", Value: " ++ (map shown v ++ (codes "], " ++ s))))))
unfolding avp_to_string
avp_to_string-append k v s =
    ap (λ x. codes "[Type: " ++ x)
      (append_assoc (decimal k)
          (codes ", Length: "
            ++ (decimal (length v) ++ (codes ", Value: " ++ (map shown v ++ codes "], "))))
          s
        ∙ ap (λ x. decimal k ++ (codes ", Length: " ++ x))
            (append_assoc (decimal (length v)) (codes ", Value: " ++ (map shown v ++ codes "], ")) s
              ∙ ap (λ x. decimal (length v) ++ (codes ", Value: " ++ x))
                  (append_assoc (map shown v) (codes "], ") s)))

read_avp-avp_to_string :
    (k : ℕ) (v : List ℕ) (s : Text) → read_avp (avp_to_string (k, v) ++ s) ≡ ((k, map shown v), s)
read_avp-avp_to_string k v s =
    let t₃ = codes "], " ++ s in
    let t₂ = codes ", Value: " ++ (map shown v ++ t₃) in
    let t₁ = codes ", Length: " ++ (decimal (length v) ++ t₂) in
    ap read_avp (avp_to_string-append k v s)
    ∙ read_steps (codes "[Type: " ++ (decimal k ++ t₁)) t₁ t₂ t₃ s k (length v) (map shown v)
        (take_digits-decimal k t₁ refl) (take_digits-decimal (length v) t₂ refl)
        (ap (λ n. split_at n (map shown v ++ t₃)) (sym (length-map v shown))
          ∙ split_at-append (map shown v) t₃)
        refl

-- From the text of a map every attribute can be read back, with its type and its value, but for the
-- bytes 0, which are printed as the character '0'; the fuel need only be the number of attributes.
pub read_avps-avps_to_string :
    (m : AvpStorage) (fuel : ℕ)
    → length m ≤ fuel
    → read_avps fuel (avps_to_string m) ≡ map (λ x. (x.0, map shown x.1)) m
unfolding read_avps avps_to_string
read_avps-avps_to_string [] zero h = refl
read_avps-avps_to_string [] (suc fuel) h = refl
read_avps-avps_to_string (x ∷ m) zero h = absurd (omega arith)
read_avps-avps_to_string ((k, v) ∷ m) (suc fuel) h =
    ap₂ (λ x r. x ∷ r) (ap (λ q. q.0) item)
      (ap (λ q. read_avps fuel q.1) item ∙ read_avps-avps_to_string m fuel (omega arith))
  where
    item :
        read_avp (avp_to_string (k, v) ++ avps_to_string m) ≡ ((k, map shown v), avps_to_string m)
    item = read_avp-avp_to_string k v (avps_to_string m)
