-- ===== src/Connectivity/Decode.antt =====
-- A reader of base64, and what it makes of the encoder's output.
-- The value of a character.
use power_monitoring.Base.{
  ℕ, zero, suc, ◌+◌, ◌-◌, ◌*◌, ◌/◌, ◌%◌, ◌≤◌, ◌<◌, ◌≡◌, refl, ap, ◌∙◌, true, false, not, ◌&&◌, List,
  [], ◌∷◌, arith, ltb, ◌==◌, if◌then◌else◌, ==→eq, length, set, All, for_range, all_below,
  all_below_lem,
}
use power_monitoring.Connectivity.Base64.{
  pad_char, digit, triple_of, quad, rounds, padding, pad_out, base64_encode,
}

abbrev pub value : ℕ → ℕ
value c =
    if ltb c 48
    then (if c == 43 then 62 else 63)
    else if ltb c 58
    then c + 4
    else if ltb c 91
    then c - 65
    else c - 71

-- The bytes of a text that ends with a zero.
abbrev pub decode : List ℕ → List ℕ
decode (p ∷ q ∷ r ∷ s ∷ rest) =
    let first = value p * 4 + value q / 16 in
    let second = value q % 16 * 16 + value r / 4 in
    let third = value r % 4 * 64 + value s in
    let more = decode rest in
    if r == pad_char
    then first ∷ []
    else if s == pad_char
    then first ∷ second ∷ []
    else first ∷ second ∷ third ∷ more
decode text = []

-- The table has a digit for each value, and no padding among them.
table : all_below 64 (λ n. value (digit n) == n && not (digit n == pad_char)) ≡ true
unfolding all_below digit
table = refl

value-digit : (n : ℕ) → n < 64 → value (digit n) ≡ n
value-digit n h =
    let t = all_below_lem 64 (λ n. value (digit n) == n && not (digit n == pad_char)) table n h in
    ==→eq (value (digit n)) n (ground (arith, t))

digit-no_pad : (n : ℕ) → n < 64 → (digit n == pad_char) ≡ false
digit-no_pad n h =
    let t = all_below_lem 64 (λ n. value (digit n) == n && not (digit n == pad_char)) table n h in
    ground (arith, t)

-- The octets of a triple from its digits.
first_octet :
    (a b c : ℕ)
    → a < 256
    → b < 256
    → c < 256
    → let t = triple_of a b c in (t / 262144 % 64 * 4 + t / 4096 % 64 / 16) ≡ a
unfolding triple_of
first_octet a b c h k l = omega (arith, h, k, l)

second_octet :
    (a b c : ℕ)
    → a < 256
    → b < 256
    → c < 256
    → let t = triple_of a b c in (t / 4096 % 64 % 16 * 16 + t / 64 % 64 / 4) ≡ b
unfolding triple_of
second_octet a b c h k l = omega (arith, h, k, l)

third_octet :
    (a b c : ℕ)
    → a < 256
    → b < 256
    → c < 256
    → let t = triple_of a b c in (t / 64 % 64 % 4 * 64 + t % 64) ≡ c
unfolding triple_of
third_octet a b c h k l = omega (arith, h, k, l)

third_is_pad :
    (p q : ℕ) (rest : List ℕ)
    → p < 64
    → q < 64
    → decode (digit p ∷ digit q ∷ pad_char ∷ pad_char ∷ rest) ≡ (p * 4 + q / 16) ∷ []
third_is_pad p q rest h k = cc (value-digit p h, value-digit q k)

fourth_is_pad :
    (p q r : ℕ) (rest : List ℕ)
    → p < 64
    → q < 64
    → r < 64
    → decode (digit p ∷ digit q ∷ digit r ∷ pad_char ∷ rest)
      ≡ (p * 4 + q / 16) ∷ (q % 16 * 16 + r / 4) ∷ []
fourth_is_pad p q r rest h k l =
    rw (digit-no_pad r l, value-digit p h, value-digit q k, value-digit r l) refl

no_pad :
    (p q r s : ℕ) (rest : List ℕ)
    → p < 64
    → q < 64
    → r < 64
    → s < 64
    → decode (digit p ∷ digit q ∷ digit r ∷ digit s ∷ rest)
      ≡ (p * 4 + q / 16) ∷ (q % 16 * 16 + r / 4) ∷ (r % 4 * 64 + s) ∷ decode rest
no_pad p q r s rest h k l m =
    rw
      (
        digit-no_pad r l,
        digit-no_pad s m,
        value-digit p h,
        value-digit q k,
        value-digit r l,
        value-digit s m,
      )
      refl

-- Padding changes the last characters alone.
pad_loop :
    (w x y z : ℕ) (r : List ℕ) (j k i : ℕ)
    → i + k ≤ j
    → for_range k i
        (λ n text. set text (suc (suc (suc (suc j))) - 1 - n) pad_char)
        (w ∷ x ∷ y ∷ z ∷ r)
      ≡ w ∷ x ∷ y ∷ z ∷ for_range k i (λ n text. set text (j - 1 - n) pad_char) r
unfolding for_range
pad_loop w x y z r j zero i h = refl
pad_loop w x y z r j (suc k) i h =
    let at : suc (suc (suc (suc j))) - 1 - i ≡ suc (suc (suc (suc (j - 1 - i)))) =
      omega (arith, h) in
    rw at (pad_loop w x y z (set r (j - 1 - i) pad_char) j k (suc i) (omega (arith, h)))

pad_out-quad :
    (w x y z : ℕ) (r : List ℕ) (pad : ℕ)
    → pad ≤ length r
    → pad_out pad (w ∷ x ∷ y ∷ z ∷ r) ≡ w ∷ x ∷ y ∷ z ∷ pad_out pad r
unfolding pad_out
pad_out-quad w x y z r pad h = pad_loop w x y z r (length r) pad 0 (omega (arith, h))

padding-three : (n : ℕ) → padding (suc (suc (suc n))) ≡ padding n
unfolding padding
padding-three n = omega arith

padding_le : (bytes : List ℕ) → padding (length bytes) ≤ length (rounds bytes)
unfolding padding rounds
padding_le [] = omega arith
padding_le (a ∷ []) = omega arith
padding_le (a ∷ b ∷ []) = omega arith
padding_le (a ∷ b ∷ c ∷ bytes) = omega (arith, padding_le bytes)

encode-three :
    (a b c : ℕ) (bytes : List ℕ)
    → let t = triple_of a b c in
      base64_encode (a ∷ b ∷ c ∷ bytes)
      ≡ digit (t / 262144 % 64)
        ∷ digit (t / 4096 % 64)
        ∷ digit (t / 64 % 64)
        ∷ digit (t % 64)
        ∷ base64_encode bytes
unfolding base64_encode rounds quad
encode-three a b c bytes =
    let t = triple_of a b c in
    let one = padding-three (length bytes) in
    let two =
      pad_out-quad (digit (t / 262144 % 64)) (digit (t / 4096 % 64)) (digit (t / 64 % 64))
        (digit (t % 64)) (rounds bytes) (padding (length bytes)) (padding_le bytes) in
    rw (one, two) refl

-- Bytes that are encoded in base64 come back from a reader of base64.
pub decode-base64_encode :
    (bytes : List ℕ) → All (λ b. b < 256) bytes → decode (base64_encode bytes) ≡ bytes
unfolding base64_encode rounds quad padding pad_out for_range
decode-base64_encode [] h = refl
decode-base64_encode (a ∷ []) h =
    let t = triple_of a 0 0 in
    third_is_pad (t / 262144 % 64) (t / 4096 % 64) (0 ∷ []) (omega arith) (omega arith)
    ∙ ap (λ x. x ∷ []) (first_octet a 0 0 h.0 (omega arith) (omega arith))
decode-base64_encode (a ∷ b ∷ []) h =
    let t = triple_of a b 0 in
    fourth_is_pad (t / 262144 % 64) (t / 4096 % 64) (t / 64 % 64) (0 ∷ []) (omega arith)
      (omega arith) (omega arith)
    ∙ cc (first_octet a b 0 h.0 h.1.0 (omega arith), second_octet a b 0 h.0 h.1.0 (omega arith))
decode-base64_encode (a ∷ b ∷ c ∷ bytes) h =
    let t = triple_of a b c in
    ap decode (encode-three a b c bytes)
    ∙ no_pad (t / 262144 % 64) (t / 4096 % 64) (t / 64 % 64) (t % 64) (base64_encode bytes)
        (omega arith) (omega arith) (omega arith) (omega arith)
    ∙ cc (
      first_octet a b c h.0 h.1.0 h.1.1.0,
      second_octet a b c h.0 h.1.0 h.1.1.0,
      third_octet a b c h.0 h.1.0 h.1.1.0,
      decode-base64_encode bytes h.1.1.1,
    )

pub length-base64_encode :
    (bytes : List ℕ) → length (base64_encode bytes) ≡ 4 * ((length bytes + 2) / 3) + 1
unfolding base64_encode rounds quad padding pad_out for_range
length-base64_encode [] = omega arith
length-base64_encode (a ∷ []) = omega arith
length-base64_encode (a ∷ b ∷ []) = omega arith
length-base64_encode (a ∷ b ∷ c ∷ bytes) =
    omega (arith, ap length (encode-three a b c bytes), length-base64_encode bytes)
