-- ===== src/Agent/ControlClient/Sha256.antt =====
-- `sha256_digest`, `hmac_sha256_hex` and the helpers around them.
use Prim.Native.Nat.{bit_and, bit_or, bit_xor}
use telemetry_fabric.Prelude.{
  ℕ, zero, suc, ◌+◌, ◌-◌, ◌*◌, ◌/◌, ◌%◌, ◌^◌, ◌≡◌, refl, List, [], ◌∷◌, ◌++◌, Bool, true, false,
  ltb, ◌==◌, if◌then◌else◌, length, take, drop,
}
use telemetry_fabric.Prelude.Words.{u32_max}
use telemetry_fabric.Std.Bytes.{Bytes}
use telemetry_fabric.Std.Text.{text}
use telemetry_fabric.Exporters.Hex.{hex_digit}

abbrev sha256_k : List ℕ
sha256_k =
    0x428a2f98 ∷ 0x71374491 ∷ 0xb5c0fbcf ∷ 0xe9b5dba5 ∷ 0x3956c25b ∷ 0x59f111f1 ∷ 0x923f82a4
    ∷ 0xab1c5ed5 ∷ 0xd807aa98 ∷ 0x12835b01 ∷ 0x243185be ∷ 0x550c7dc3 ∷ 0x72be5d74 ∷ 0x80deb1fe
    ∷ 0x9bdc06a7 ∷ 0xc19bf174 ∷ 0xe49b69c1 ∷ 0xefbe4786 ∷ 0x0fc19dc6 ∷ 0x240ca1cc ∷ 0x2de92c6f
    ∷ 0x4a7484aa ∷ 0x5cb0a9dc ∷ 0x76f988da ∷ 0x983e5152 ∷ 0xa831c66d ∷ 0xb00327c8 ∷ 0xbf597fc7
    ∷ 0xc6e00bf3 ∷ 0xd5a79147 ∷ 0x06ca6351 ∷ 0x14292967 ∷ 0x27b70a85 ∷ 0x2e1b2138 ∷ 0x4d2c6dfc
    ∷ 0x53380d13 ∷ 0x650a7354 ∷ 0x766a0abb ∷ 0x81c2c92e ∷ 0x92722c85 ∷ 0xa2bfe8a1 ∷ 0xa81a664b
    ∷ 0xc24b8b70 ∷ 0xc76c51a3 ∷ 0xd192e819 ∷ 0xd6990624 ∷ 0xf40e3585 ∷ 0x106aa070 ∷ 0x19a4c116
    ∷ 0x1e376c08 ∷ 0x2748774c ∷ 0x34b0bcb5 ∷ 0x391c0cb3 ∷ 0x4ed8aa4a ∷ 0x5b9cca4f ∷ 0x682e6ff3
    ∷ 0x748f82ee ∷ 0x78a5636f ∷ 0x84c87814 ∷ 0x8cc70208 ∷ 0x90befffa ∷ 0xa4506ceb ∷ 0xbef9a3f7
    ∷ 0xc67178f2 ∷ []

-- The variables `a` to `h` of a round, and the eight words of `state`.
record Hash : Type 0 where
  a : ℕ
  b : ℕ
  c : ℕ
  d : ℕ
  e : ℕ
  f : ℕ
  g : ℕ
  h : ℕ

abbrev initial : Hash
initial = record {
  a = 0x6a09e667;
  b = 0xbb67ae85;
  c = 0x3c6ef372;
  d = 0xa54ff53a;
  e = 0x510e527f;
  f = 0x9b05688c;
  g = 0x1f83d9ab;
  h = 0x5be0cd19;
}

abbrev add_u32 : ℕ → ℕ → ℕ
add_u32 x y = (x + y) % 2 ^ 32

-- On 32 bits, for `n` up to 32.
rotate_right : ℕ → ℕ → ℕ
rotate_right x n = x / 2 ^ n + x % 2 ^ n * 2 ^ (32 - n)

xor3 : ℕ → ℕ → ℕ → ℕ
xor3 x y z = bit_xor (bit_xor x y) z

-- `words[index]`, with the words in reverse: `back` is how far it lies behind.
word_back : ℕ → List ℕ → ℕ
word_back back [] = 0
word_back zero (w ∷ words) = w
word_back (suc back) (w ∷ words) = word_back back words

next_word : List ℕ → ℕ
unfolding rotate_right xor3
next_word words =
    let w15 = word_back 14 words in
    let w2 = word_back 1 words in
    let s0 = xor3 (rotate_right w15 7) (rotate_right w15 18) (w15 / 2 ^ 3) in
    let s1 = xor3 (rotate_right w2 17) (rotate_right w2 19) (w2 / 2 ^ 10) in
    add_u32 (add_u32 (add_u32 (word_back 15 words) s0) (word_back 6 words)) s1

extend : ℕ → List ℕ → List ℕ
unfolding next_word word_back
extend zero words = words
extend (suc rounds) words = extend rounds (next_word words ∷ words)

reverse_onto : List ℕ → List ℕ → List ℕ
reverse_onto [] acc = acc
reverse_onto (w ∷ words) acc = reverse_onto words (w ∷ acc)

-- `u32::from_be_bytes` on each four bytes, the last word first.
be_words : Bytes → List ℕ → List ℕ
be_words (p ∷ q ∷ r ∷ s ∷ rest) acc = be_words rest ((((p * 256 + q) * 256 + r) * 256 + s) ∷ acc)
be_words rest acc = acc

message_schedule : Bytes → List ℕ
unfolding extend reverse_onto be_words
message_schedule chunk = reverse_onto (extend 48 (be_words chunk [])) []

round : ℕ → ℕ → Hash → Hash
unfolding rotate_right xor3
round k word v =
    let s1 = xor3 (rotate_right v.e 6) (rotate_right v.e 11) (rotate_right v.e 25) in
    let ch = bit_xor (bit_and v.e v.f) (bit_and (u32_max - v.e) v.g) in
    let temp1 = add_u32 (add_u32 (add_u32 (add_u32 v.h s1) ch) k) word in
    let s0 = xor3 (rotate_right v.a 2) (rotate_right v.a 13) (rotate_right v.a 22) in
    let maj = xor3 (bit_and v.a v.b) (bit_and v.a v.c) (bit_and v.b v.c) in
    let temp2 = add_u32 s0 maj in
    record {
      a = add_u32 temp1 temp2;
      b = v.a;
      c = v.b;
      d = v.c;
      e = add_u32 v.d temp1;
      f = v.e;
      g = v.f;
      h = v.g;
    }

rounds_over : List ℕ → List ℕ → Hash → Hash
unfolding round
rounds_over (k ∷ ks) (word ∷ words) v = rounds_over ks words (round k word v)
rounds_over [] words v = v
rounds_over (k ∷ ks) [] v = v

compress : Bytes → Hash → Hash
unfolding rounds_over message_schedule
compress chunk s =
    let v = rounds_over sha256_k (message_schedule chunk) s in
    record {
      a = add_u32 s.a v.a;
      b = add_u32 s.b v.b;
      c = add_u32 s.c v.c;
      d = add_u32 s.d v.d;
      e = add_u32 s.e v.e;
      f = add_u32 s.f v.f;
      g = add_u32 s.g v.g;
      h = add_u32 s.h v.h;
    }

-- `chunks_exact(64)`; the fuel is the number of bytes.
blocks : ℕ → Bytes → Hash → Hash
unfolding compress
blocks zero message s = s
blocks (suc fuel) message s = elim (ltb (length message) 64) [
  | true ↦ s
  | false ↦ blocks fuel (drop 64 message) (compress (take 64 message) s)
]

-- `while message.len() % 64 != 56`: the zeros to put behind `size` bytes.
unfoldable pub zeros : ℕ → ℕ → Bytes
zeros zero size = []
zeros (suc fuel) size = elim (size % 64 == 56) [ true ↦ [] | false ↦ 0 ∷ zeros fuel (size + 1) ]

unfoldable pub be_bytes : ℕ → ℕ → Bytes
be_bytes zero v = []
be_bytes (suc k) v = (v / 256 ^ k % 256) ∷ be_bytes k v

-- The message with its padding; 64 rounds of the loop are enough.
unfoldable pub padded : Bytes → Bytes
unfolding zeros be_bytes
padded input =
    input ++ (0x80 ∷ (zeros 64 (length input + 1) ++ be_bytes 8 (length input * 8 % 2 ^ 64)))

digest_bytes : Hash → Bytes
unfolding be_bytes
digest_bytes s =
    be_bytes 4 s.a
    ++ (be_bytes 4 s.b
        ++ (be_bytes 4 s.c
            ++ (be_bytes 4 s.d
                ++ (be_bytes 4 s.e ++ (be_bytes 4 s.f ++ (be_bytes 4 s.g ++ be_bytes 4 s.h))))))

unfoldable pub sha256_digest : Bytes → Bytes
unfolding padded blocks digest_bytes
sha256_digest input =
    let message = padded input in digest_bytes (blocks (length message) message initial)

-- Each half of a byte as a digit of `0123456789abcdef`.
unfoldable pub hex_lower : Bytes → Bytes
hex_lower [] = []
hex_lower (byte ∷ bytes) = hex_digit (byte / 16) ∷ hex_digit (byte % 16) ∷ hex_lower bytes

unfoldable pub sha256_hex : Bytes → Bytes
unfolding hex_lower sha256_digest
sha256_hex input = hex_lower (sha256_digest input)

replicate : ℕ → ℕ → Bytes
replicate zero b = []
replicate (suc n) b = b ∷ replicate n b

key_block : Bytes → Bytes
unfolding replicate sha256_digest
key_block key =
    if ltb 64 (length key)
    then sha256_digest key ++ replicate 32 0
    else key ++ replicate (64 - length key) 0

xor_with : ℕ → Bytes → Bytes
xor_with pad [] = []
xor_with pad (b ∷ bytes) = bit_xor pad b ∷ xor_with pad bytes

unfoldable pub hmac_sha256_hex : Bytes → Bytes → Bytes
unfolding key_block xor_with sha256_digest hex_lower
hmac_sha256_hex key message =
    let block = key_block key in
    let inner_hash = sha256_digest (xor_with 0x36 block ++ message) in
    hex_lower (sha256_digest (xor_with 0x5c block ++ inner_hash))

-- The fold over the pairs.
unfoldable pub differences : ℕ → Bytes → Bytes → ℕ
differences acc (l ∷ left) (r ∷ right) = differences (bit_or acc (bit_xor l r)) left right
differences acc [] right = acc
differences acc (l ∷ left) [] = acc

unfoldable pub constant_time_equal : Bytes → Bytes → Bool
unfolding differences
constant_time_equal left right =
    if length left == length right then differences 0 left right == 0 else false

-- The test vectors of the source.
sha256_vector :
    sha256_hex (text "abc")
    ≡ text "ba7816bf8f01cfea414140de5dae2223b00361a396177a9cb410ff61f20015ad"
unfolding sha256_hex text hex_digit
sha256_vector = refl

hmac_vector :
    hmac_sha256_hex (text "key") (text "The quick brown fox jumps over the lazy dog")
    ≡ text "f7bc83f430538424b13298e6aa6fb143ef4d59a14946175997479dbc2d1a3cd8"
unfolding hmac_sha256_hex text hex_digit
hmac_vector = refl
