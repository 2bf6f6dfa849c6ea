-- ===== src/Connectivity/Base64.antt =====
-- `base64_encode`. A character is its code, and the result includes the final zero.
-- The table `b64`.
use power_monitoring.Base.{
  ℕ, zero, suc, ◌+◌, ◌-◌, ◌*◌, ◌/◌, ◌%◌, List, [], ◌∷◌, ◌++◌, length, get_or, set, u32, for_range,
}

abbrev pub codes : ℕ → ℕ → List ℕ
codes from zero = []
codes from (suc n) = from ∷ codes (suc from) n

abbrev pub b64 : List ℕ
b64 = codes 65 26 ++ (codes 97 26 ++ (codes 48 10 ++ (43 ∷ 47 ∷ [])))

abbrev pub pad_char : ℕ
pad_char = 61

unfoldable pub digit : ℕ → ℕ
digit n = get_or b64 n 0

-- A round of the loop: three octets, of which missing ones are 0.
unfoldable pub triple_of : ℕ → ℕ → ℕ → ℕ
triple_of a b c = u32 (a * 65536 + b * 256 + c)

unfoldable pub quad : ℕ → List ℕ
unfolding digit
quad triple =
    digit (triple / 262144 % 64)
    ∷ digit (triple / 4096 % 64)
    ∷ digit (triple / 64 % 64)
    ∷ digit (triple % 64)
    ∷ []

unfoldable pub rounds : List ℕ → List ℕ
unfolding quad triple_of
rounds [] = []
rounds (a ∷ []) = quad (triple_of a 0 0)
rounds (a ∷ b ∷ []) = quad (triple_of a b 0)
rounds (a ∷ b ∷ c ∷ bytes) = quad (triple_of a b c) ++ rounds bytes

unfoldable pub padding : ℕ → ℕ
padding in_len = (3 - in_len % 3) % 3

-- The loop that overwrites the last characters.
unfoldable pub pad_out : ℕ → List ℕ → List ℕ
unfolding for_range
pad_out pad out =
    let j = length out in for_range pad 0 (λ k text. set text (j - 1 - k) pad_char) out

unfoldable pub base64_encode : List ℕ → List ℕ
unfolding rounds padding pad_out
base64_encode bytes = pad_out (padding (length bytes)) (rounds bytes) ++ 0 ∷ []
