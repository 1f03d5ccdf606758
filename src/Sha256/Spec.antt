-- ===== src/Sha256/Spec.antt =====
-- SHA-256 as FIPS 180-4 has it, from its sections 4.1.2, 4.2.2, 5.3.3 and 6.2.2.
use po_se_memory_wiping.Prelude.{
  ℕ, zero, suc, ◌+◌, ◌-◌, ◌*◌, ◌/◌, ◌%◌, ◌^◌, leb, if◌then◌else◌, List, [], ◌∷◌, ◌++◌, map, length,
  get_or, take, drop, bit_and, bit_or, bit_xor,
}
use po_se_memory_wiping.Prelude.Words.{u32, ◌<<<◌, ◌>>>◌, u32_be, u64_be, zeros}
use po_se_memory_wiping.Sha256.{Words}

-- The largest number whose power is at most `bound`, with `n` bits to find below those of `r`.
unfoldable pub root : (ℕ → ℕ) → ℕ → ℕ → ℕ → ℕ
root power bound zero r = r
root power bound (suc n) r =
    root power bound n (if leb (power (r + 2 ^ n)) bound then r + 2 ^ n else r)

abbrev pub primes : List ℕ
primes =
    2 ∷ 3 ∷ 5 ∷ 7 ∷ 11 ∷ 13 ∷ 17 ∷ 19 ∷ 23 ∷ 29 ∷ 31 ∷ 37 ∷ 41 ∷ 43 ∷ 47 ∷ 53 ∷ 59 ∷ 61 ∷ 67 ∷ 71
    ∷ 73 ∷ 79 ∷ 83 ∷ 89 ∷ 97 ∷ 101 ∷ 103 ∷ 107 ∷ 109 ∷ 113 ∷ 127 ∷ 131 ∷ 137 ∷ 139 ∷ 149 ∷ 151 ∷ 157
    ∷ 163 ∷ 167 ∷ 173 ∷ 179 ∷ 181 ∷ 191 ∷ 193 ∷ 197 ∷ 199 ∷ 211 ∷ 223 ∷ 227 ∷ 229 ∷ 233 ∷ 239 ∷ 241
    ∷ 251 ∷ 257 ∷ 263 ∷ 269 ∷ 271 ∷ 277 ∷ 281 ∷ 283 ∷ 293 ∷ 307 ∷ 311 ∷ []

-- The first 32 bits of the fractional parts of the cube roots of the first 64 primes.
abbrev pub spec_constants : List ℕ
spec_constants = map (λ p. u32 (root (λ x. x * x * x) (p * 2 ^ 96) 35 0)) primes

-- The first 32 bits of the fractional part of a square root.
abbrev pub square_root_word : ℕ → ℕ
square_root_word p = u32 (root (λ x. x * x) (p * 2 ^ 64) 35 0)

abbrev pub spec_initial : Words
spec_initial = record {
  a = square_root_word 2;
  b = square_root_word 3;
  c = square_root_word 5;
  d = square_root_word 7;
  e = square_root_word 11;
  f = square_root_word 13;
  g = square_root_word 17;
  h = square_root_word 19;
}

-- Rotation to the right.
abbrev pub rotate : ℕ → ℕ → ℕ
rotate n x = bit_or (x >>> n) (u32 (x <<< (32 - n)))

abbrev pub xor3 : ℕ → ℕ → ℕ → ℕ
xor3 x y z = bit_xor (bit_xor x y) z

abbrev pub complement : ℕ → ℕ
complement x = 2 ^ 32 - 1 - x

-- Word `t` of the message schedule from the words before it.
unfoldable pub next_word : List ℕ → ℕ → ℕ
next_word w t =
    let x = get_or w (t - 2) 0 in
    let y = get_or w (t - 15) 0 in
    u32 (
      xor3 (rotate 17 x) (rotate 19 x) (x >>> 10)
      + get_or w (t - 7) 0
      + xor3 (rotate 7 y) (rotate 18 y) (y >>> 3)
      + get_or w (t - 16) 0)

-- `n` words of the message schedule from word `t` on.
unfoldable pub spec_words : ℕ → ℕ → List ℕ → List ℕ
spec_words zero t w = w
spec_words (suc n) t w = spec_words n (t + 1) (w ++ next_word w t ∷ [])

-- The words of a block, big-endian.
unfoldable pub block_words : ℕ → List ℕ → List ℕ
block_words zero block = []
block_words (suc n) block =
    bit_or
      (bit_or (bit_or (get_or block 0 0 <<< 24) (get_or block 1 0 <<< 16)) (get_or block 2 0 <<< 8))
      (get_or block 3 0)
    ∷ block_words n (drop 4 block)

-- Step `t` on the working variables, with constant `k` and word `w`.
unfoldable pub spec_step : ℕ → ℕ → Words → Words
spec_step k w s =
    let t1 = u32 (
      s.h
      + xor3 (rotate 6 s.e) (rotate 11 s.e) (rotate 25 s.e)
      + bit_xor (bit_and s.e s.f) (bit_and (complement s.e) s.g)
      + k
      + w) in
    let t2 = u32 (
      xor3 (rotate 2 s.a) (rotate 13 s.a) (rotate 22 s.a)
      + xor3 (bit_and s.a s.b) (bit_and s.a s.c) (bit_and s.b s.c)) in
    record {
      a = u32 (t1 + t2);
      b = s.a;
      c = s.b;
      d = s.c;
      e = u32 (s.d + t1);
      f = s.e;
      g = s.f;
      h = s.g;
    }

unfoldable pub spec_steps : ℕ → ℕ → List ℕ → Words → Words
spec_steps zero t w s = s
spec_steps (suc n) t w s =
    spec_steps n (t + 1) w (spec_step (get_or spec_constants t 0) (get_or w t 0) s)

-- The next intermediate hash value.
unfoldable pub spec_block : Words → List ℕ → Words
spec_block x block =
    let s = spec_steps 64 0 (spec_words 48 16 (block_words 16 block)) x in
    record {
      a = u32 (x.a + s.a);
      b = u32 (x.b + s.b);
      c = u32 (x.c + s.c);
      d = u32 (x.d + s.d);
      e = u32 (x.e + s.e);
      f = u32 (x.f + s.f);
      g = u32 (x.g + s.g);
      h = u32 (x.h + s.h);
    }

unfoldable pub spec_blocks : ℕ → Words → List ℕ → Words
spec_blocks zero x padded = x
spec_blocks (suc n) x padded = spec_blocks n (spec_block x (take 64 padded)) (drop 64 padded)

-- The message, the bit 1, the zero bits that fill the last block, and the length in bits.
unfoldable pub padded_message : List ℕ → List ℕ
padded_message msg = msg ++ (0x80 ∷ zeros ((119 - length msg % 64) % 64) ++ u64_be (length msg * 8))

-- The bytes of the last hash value.
unfoldable pub hash_bytes_of : Words → List ℕ
hash_bytes_of x =
    u32_be x.a
    ++ u32_be x.b
    ++ u32_be x.c
    ++ u32_be x.d
    ++ u32_be x.e
    ++ u32_be x.f
    ++ u32_be x.g
    ++ u32_be x.h

-- SHA-256 of a message of whole bytes.
unfoldable pub sha256_reference : List ℕ → List ℕ
sha256_reference msg =
    hash_bytes_of (spec_blocks (length (padded_message msg) / 64) spec_initial (padded_message msg))
