-- ===== src/Sha256.antt =====
-- common/src/sha256.c: the portable `sha256_compress` and `pose_sha256`.
pub mod Spec
pub mod Rounds
pub mod Padding
use po_se_memory_wiping.Prelude.{
  ℕ, zero, suc, ◌+◌, ◌-◌, ◌*◌, ◌/◌, ◌%◌, ◌^◌, List, [], ◌∷◌, ◌++◌, length, get_or, take, drop,
  bit_and, bit_or, bit_xor,
}
use po_se_memory_wiping.Prelude.Words.{u8, u32, ◌<<<◌, ◌>>>◌, u32_be, zeros, write}

-- `K`
abbrev pub round_constants : List ℕ
round_constants =
    0x428a2f98 ∷ 0x71374491 ∷ 0xb5c0fbcf ∷ 0xe9b5dba5 ∷ 0x3956c25b ∷ 0x59f111f1 ∷ 0x923f82a4
    ∷ 0xab1c5ed5 ∷ 0xd807aa98 ∷ 0x12835b01 ∷ 0x243185be ∷ 0x550c7dc3 ∷ 0x72be5d74 ∷ 0x80deb1fe
    ∷ 0x9bdc06a7 ∷ 0xc19bf174 ∷ 0xe49b69c1 ∷ 0xefbe4786 ∷ 0x0fc19dc6 ∷ 0x240ca1cc ∷ 0x2de92c6f
    ∷ 0x4a7484aa ∷ 0x5cb0a9dc ∷ 0x76f988da ∷ 0x983e5152 ∷ 0xa831c66d ∷ 0xb00327c8 ∷ 0xbf597fc7
    ∷ 0xc6e00bf3 ∷ 0xd5a79147 ∷ 0x06ca6351 ∷ 0x14292967 ∷ 0x27b70a85 ∷ 0x2e1b2138 ∷ 0x4d2c6dfc
    ∷ 0x53380d13 ∷ 0x650a7354 ∷ 0x766a0abb ∷ 0x81c2c92e ∷ 0x92722c85 ∷ 0xa2bfe8a1 ∷ 0xa81a664b
    ∷ 0xc24b8b70 ∷ 0xc76c51a3 ∷ 0xd192e819 ∷ 0xd6990624 ∷ 0xf40e3585 ∷ 0x106aa070 ∷ 0x19a4c116
    ∷ 0x1e376c08 ∷ 0x2748774c ∷ 0x34b0bcb5 ∷ 0x391c0cb3 ∷ 0x4ed8aa4a ∷ 0x5b9cca4f ∷ 0x682e6ff3
    ∷ 0x748f82ee ∷ 0x78a5636f ∷ 0x84c87814 ∷ 0x8cc70208 ∷ 0x90befffa ∷ 0xa4506ceb ∷ 0xbef9a3f7
    ∷ 0xc67178f2 ∷ []

-- The eight words of the state, and of the working variables `a` to `h`.
pub record Words : Type 0 where
  pub a : ℕ
  pub b : ℕ
  pub c : ℕ
  pub d : ℕ
  pub e : ℕ
  pub f : ℕ
  pub g : ℕ
  pub h : ℕ

-- `H0`
abbrev pub initial_state : Words
initial_state = record {
  a = 0x6a09e667;
  b = 0xbb67ae85;
  c = 0x3c6ef372;
  d = 0xa54ff53a;
  e = 0x510e527f;
  f = 0x9b05688c;
  g = 0x1f83d9ab;
  h = 0x5be0cd19;
}

-- `~x`
abbrev pub flip32 : ℕ → ℕ
flip32 x = 2 ^ 32 - 1 - x

abbrev pub rotr32 : ℕ → ℕ → ℕ
rotr32 x n = bit_or (x >>> n) (u32 (x <<< (32 - n)))

unfoldable pub ch : ℕ → ℕ → ℕ → ℕ
ch x y z = bit_xor (bit_and x y) (bit_and (flip32 x) z)

unfoldable pub maj : ℕ → ℕ → ℕ → ℕ
maj x y z = bit_xor (bit_xor (bit_and x y) (bit_and x z)) (bit_and y z)

-- `SIG0` and `SIG1`
unfoldable pub big_sig0 : ℕ → ℕ
big_sig0 x = bit_xor (bit_xor (rotr32 x 2) (rotr32 x 13)) (rotr32 x 22)

unfoldable pub big_sig1 : ℕ → ℕ
big_sig1 x = bit_xor (bit_xor (rotr32 x 6) (rotr32 x 11)) (rotr32 x 25)

-- `sig0` and `sig1`
unfoldable pub sig0 : ℕ → ℕ
sig0 x = bit_xor (bit_xor (rotr32 x 7) (rotr32 x 18)) (x >>> 3)

unfoldable pub sig1 : ℕ → ℕ
sig1 x = bit_xor (bit_xor (rotr32 x 17) (rotr32 x 19)) (x >>> 10)

-- `w[0]` to `w[15]`, from the first `n` words of the block.
unfoldable pub load_words : ℕ → List ℕ → List ℕ
load_words zero block = []
load_words (suc n) block =
    bit_or
      (bit_or (bit_or (get_or block 0 0 <<< 24) (get_or block 1 0 <<< 16)) (get_or block 2 0 <<< 8))
      (get_or block 3 0)
    ∷ load_words n (drop 4 block)

-- `w[i]` for the next `n` values of `i`; `w` has `i` words so far.
unfoldable pub schedule : ℕ → ℕ → List ℕ → List ℕ
schedule zero i w = w
schedule (suc n) i w =
    let next = u32 (
      sig1 (get_or w (i - 2) 0)
      + get_or w (i - 7) 0
      + sig0 (get_or w (i - 15) 0)
      + get_or w (i - 16) 0) in
    schedule n (i + 1) (w ++ next ∷ [])

-- The last `n` rounds, from round `i` on.
unfoldable pub rounds : ℕ → ℕ → List ℕ → Words → Words
rounds zero i w s = s
rounds (suc n) i w s =
    let t1 =
      u32 (s.h + big_sig1 s.e + ch s.e s.f s.g + get_or round_constants i 0 + get_or w i 0) in
    let t2 = u32 (big_sig0 s.a + maj s.a s.b s.c) in
    let next : Words = record {
      a = u32 (t1 + t2);
      b = s.a;
      c = s.b;
      d = s.c;
      e = u32 (s.d + t1);
      f = s.e;
      g = s.f;
      h = s.g;
    } in
    rounds n (i + 1) w next

unfoldable pub compress : Words → List ℕ → Words
compress state block =
    let s = rounds 64 0 (schedule 48 16 (load_words 16 block)) state in
    record {
      a = u32 (state.a + s.a);
      b = u32 (state.b + s.b);
      c = u32 (state.c + s.c);
      d = u32 (state.d + s.d);
      e = u32 (state.e + s.e);
      f = u32 (state.f + s.f);
      g = u32 (state.g + s.g);
      h = u32 (state.h + s.h);
    }

-- The loop over the blocks of the padded message.
unfoldable pub compress_blocks : ℕ → Words → List ℕ → Words
compress_blocks zero state padded = state
compress_blocks (suc n) state padded =
    compress_blocks n (compress state (take 64 padded)) (drop 64 padded)

-- `for (i = 7; i >= 0; i--) { padded[248 + i] = bits & 0xff; bits >>= 8; }`, with `n` bytes to go.
unfoldable pub put_bits : ℕ → List ℕ → ℕ → List ℕ
put_bits zero padded bits = padded
put_bits (suc i) padded bits =
    put_bits i (write padded (248 + i) (bit_and bits 0xff ∷ [])) (bits >>> 8)

-- The padded message, in a buffer of 256 bytes that holds `stack` at first.
unfoldable pub pad : List ℕ → List ℕ → List ℕ
pad stack msg =
    let copied = write stack 0 msg in
    let cleared = write copied (length msg) (zeros (256 - length msg)) in
    let marked = write cleared (length msg) (0x80 ∷ []) in put_bits 8 marked (length msg * 8)

-- `out`, from the state.
unfoldable pub digest : Words → List ℕ
digest s =
    u32_be s.a
    ++ u32_be s.b
    ++ u32_be s.c
    ++ u32_be s.d
    ++ u32_be s.e
    ++ u32_be s.f
    ++ u32_be s.g
    ++ u32_be s.h

-- `pose_sha256`
unfoldable pub sha256_hash : List ℕ → List ℕ → List ℕ
sha256_hash stack msg =
    digest (compress_blocks ((length msg + 1 + 8 + 63) / 64) initial_state (pad stack msg))
