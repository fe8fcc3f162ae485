-- ===== src/Go/Sha256.antt =====
-- Go's crypto/sha256 (Sum256) and encoding/hex (EncodeToString), over the bytes of a text.
use Prim.Native.Nat.{bit_and, bit_xor}
use Prim.Native.Char.{code}
use opensearch_dataprepper_k.Common.{
  ℕ, zero, suc, ◌+◌, ◌-◌, ◌*◌, ◌/◌, ◌%◌, ◌^◌, String, ◌≡◌, refl, List, [], ◌∷◌, ◌++◌, length, ltb,
  if◌then◌else◌, ◌<>◌,
}
use opensearch_dataprepper_k.Go.Format.{hex_digit}

-- The UTF-8 bytes of a character and of a text.
utf8 : ℕ → List ℕ
utf8 c =
    if ltb c 0x80
    then c ∷ []
    else if ltb c 0x800
    then (0xc0 + c / 64) ∷ (0x80 + c % 64) ∷ []
    else if ltb c 0x10000
    then (0xe0 + c / 4096) ∷ (0x80 + c / 64 % 64) ∷ (0x80 + c % 64) ∷ []
    else (0xf0 + c / 262144) ∷ (0x80 + c / 4096 % 64) ∷ (0x80 + c / 64 % 64) ∷ (0x80 + c % 64) ∷ []

bytes : String → List ℕ
bytes String.[] = []
bytes (String.◌∷◌ c s) = utf8 (code c) ++ bytes s

add32 : ℕ → ℕ → ℕ
add32 a b = (a + b) % 2 ^ 32

rotate_right : ℕ → ℕ → ℕ
rotate_right x n = x / 2 ^ n + x % 2 ^ n * 2 ^ (32 - n)

xor3 : ℕ → ℕ → ℕ → ℕ
xor3 a b c = bit_xor (bit_xor a b) c

record Registers : Type 0 where
  a : ℕ
  b : ℕ
  c : ℕ
  d : ℕ
  e : ℕ
  f : ℕ
  g : ℕ
  h : ℕ

abbrev initial : Registers
initial = record {
  a = 0x6a09e667;
  b = 0xbb67ae85;
  c = 0x3c6ef372;
  d = 0xa54ff53a;
  e = 0x510e527f;
  f = 0x9b05688c;
  g = 0x1f83d9ab;
  h = 0x5be0cd19;
}

abbrev round_constants : List ℕ
round_constants =
    0x428a2f98 ∷ 0x71374491 ∷ 0xb5c0fbcf ∷ 0xe9b5dba5 ∷ 0x3956c25b ∷ 0x59f111f1 ∷ 0x923f82a4
    ∷ 0xab1c5ed5 ∷ 0xd807aa98 ∷ 0x12835b01 ∷ 0x243185be ∷ 0x550c7dc3 ∷ 0x72be5d74 ∷ 0x80deb1fe
    ∷ 0x9bdc06a7 ∷ 0xc19bf174 ∷ 0xe49b69c1 ∷ 0xefbe4786 ∷ 0xfc19dc6 ∷ 0x240ca1cc ∷ 0x2de92c6f
    ∷ 0x4a7484aa ∷ 0x5cb0a9dc ∷ 0x76f988da ∷ 0x983e5152 ∷ 0xa831c66d ∷ 0xb00327c8 ∷ 0xbf597fc7
    ∷ 0xc6e00bf3 ∷ 0xd5a79147 ∷ 0x6ca6351 ∷ 0x14292967 ∷ 0x27b70a85 ∷ 0x2e1b2138 ∷ 0x4d2c6dfc
    ∷ 0x53380d13 ∷ 0x650a7354 ∷ 0x766a0abb ∷ 0x81c2c92e ∷ 0x92722c85 ∷ 0xa2bfe8a1 ∷ 0xa81a664b
    ∷ 0xc24b8b70 ∷ 0xc76c51a3 ∷ 0xd192e819 ∷ 0xd6990624 ∷ 0xf40e3585 ∷ 0x106aa070 ∷ 0x19a4c116
    ∷ 0x1e376c08 ∷ 0x2748774c ∷ 0x34b0bcb5 ∷ 0x391c0cb3 ∷ 0x4ed8aa4a ∷ 0x5b9cca4f ∷ 0x682e6ff3
    ∷ 0x748f82ee ∷ 0x78a5636f ∷ 0x84c87814 ∷ 0x8cc70208 ∷ 0x90befffa ∷ 0xa4506ceb ∷ 0xbef9a3f7
    ∷ 0xc67178f2 ∷ []

-- One round, with its constant and its word of the schedule.
round : ℕ → ℕ → Registers → Registers
unfolding add32 rotate_right xor3
round k w r =
    let s1 = xor3 (rotate_right r.e 6) (rotate_right r.e 11) (rotate_right r.e 25) in
    let choice = bit_xor (bit_and r.e r.f) (bit_and (2 ^ 32 - 1 - r.e) r.g) in
    let t1 = (r.h + s1 + choice + k + w) % 2 ^ 32 in
    let s0 = xor3 (rotate_right r.a 2) (rotate_right r.a 13) (rotate_right r.a 22) in
    let majority = xor3 (bit_and r.a r.b) (bit_and r.a r.c) (bit_and r.b r.c) in
    record {
      a = (t1 + s0 + majority) % 2 ^ 32;
      b = r.a;
      c = r.b;
      d = r.c;
      e = add32 r.d t1;
      f = r.e;
      g = r.f;
      h = r.g;
    }

word_at : List ℕ → ℕ → ℕ
word_at [] i = 0
word_at (w ∷ ws) zero = w
word_at (w ∷ ws) (suc i) = word_at ws i

-- The schedule as a window of the next sixteen words.
advance : List ℕ → List ℕ
unfolding word_at add32 rotate_right xor3
advance [] = []
advance (w ∷ ws) =
    let x = word_at ws 0 in
    let y = word_at ws 13 in
    let s0 = xor3 (rotate_right x 7) (rotate_right x 18) (x / 2 ^ 3) in
    let s1 = xor3 (rotate_right y 17) (rotate_right y 19) (y / 2 ^ 10) in
    ws ++ ((w + s0 + word_at ws 8 + s1) % 2 ^ 32) ∷ []

rounds : List ℕ → List ℕ → Registers → Registers
unfolding round advance word_at
rounds [] window r = r
rounds (k ∷ ks) window r = rounds ks (advance window) (round k (word_at window 0) r)

words : List ℕ → List ℕ
words (p ∷ q ∷ r ∷ s ∷ rest) = (p * 2 ^ 24 + q * 2 ^ 16 + r * 2 ^ 8 + s) ∷ words rest
words _ = []

compress : List ℕ → Registers → Registers
unfolding rounds add32
compress block r =
    let n = rounds round_constants block r in
    record {
      a = add32 r.a n.a;
      b = add32 r.b n.b;
      c = add32 r.c n.c;
      d = add32 r.d n.d;
      e = add32 r.e n.e;
      f = add32 r.f n.f;
      g = add32 r.g n.g;
      h = add32 r.h n.h;
    }

-- Blocks of sixteen words; the words of a padded message are a multiple of sixteen.
blocks : List ℕ → Registers → Registers
unfolding compress
blocks (w0 ∷ w1 ∷ w2 ∷ w3 ∷ w4 ∷ w5 ∷ w6 ∷ w7 ∷ w8 ∷ w9 ∷ wa ∷ wb ∷ wc ∷ wd ∷ we ∷ wf ∷ rest) r =
    blocks rest (
      compress (w0 ∷ w1 ∷ w2 ∷ w3 ∷ w4 ∷ w5 ∷ w6 ∷ w7 ∷ w8 ∷ w9 ∷ wa ∷ wb ∷ wc ∷ wd ∷ we ∷ wf ∷ [])
        r)
blocks _ r = r

zeros : ℕ → List ℕ
zeros zero = []
zeros (suc n) = 0 ∷ zeros n

padded : List ℕ → List ℕ
unfolding zeros
padded message =
    let n = length message in
    message
    ++ (0x80 ∷ zeros ((119 - n % 64) % 64))
    ++ 0
      ∷ 0
      ∷ 0
      ∷ (8 * n / 2 ^ 32 % 256)
      ∷ (8 * n / 2 ^ 24 % 256)
      ∷ (8 * n / 2 ^ 16 % 256)
      ∷ (8 * n / 2 ^ 8 % 256)
      ∷ (8 * n % 256)
      ∷ []

hex_word : ℕ → ℕ → String
hex_word zero w = ""
hex_word (suc digits) w = hex_word digits (w / 16) <> hex_digit (w % 16)

-- hex.EncodeToString(sha256.Sum256([]byte(s))[:])
unfoldable pub sha256_hex : String → String
unfolding bytes utf8 padded words blocks hex_word
sha256_hex s =
    let r = blocks (words (padded (bytes s))) initial in
    hex_word 8 r.a
    <> hex_word 8 r.b
    <> hex_word 8 r.c
    <> hex_word 8 r.d
    <> hex_word 8 r.e
    <> hex_word 8 r.f
    <> hex_word 8 r.g
    <> hex_word 8 r.h

digest_of_abc :
    sha256_hex "abc" ≡ "ba7816bf8f01cfea414140de5dae2223b00361a396177a9cb410ff61f20015ad"
unfolding sha256_hex
digest_of_abc = refl
