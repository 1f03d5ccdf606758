-- ===== src/Sha256/Padding.antt =====
-- The padding of `pose_sha256` against FIPS 180-4, section 5.1.1.
use po_se_memory_wiping.Prelude.{
  ℕ, zero, suc, ◌+◌, ◌-◌, ◌*◌, ◌/◌, ◌%◌, ◌≤◌, ◌≡◌, refl, sym, ap, ap₂, ◌∙◌, List, [], ◌∷◌, ◌++◌,
  length, drop, bit_and, arith, append_assoc, length-append, length-drop,
}
use po_se_memory_wiping.Prelude.Bits.{and_byte}
use po_se_memory_wiping.Prelude.Words.{
  u8, u64_be, ◌>>>◌, zeros, length-zeros, zeros-append, write, write-append, write_start, write_all,
}
use po_se_memory_wiping.Sha256.Spec.{spec_initial, spec_blocks, padded_message, sha256_reference}
use po_se_memory_wiping.Sha256.Rounds.{
  initial_state-spec_initial, compress_blocks-spec_blocks, digest-hash_bytes_of,
}
use po_se_memory_wiping.Sha256.{initial_state, compress_blocks, digest, put_bits, pad, sha256_hash}

-- The last eight bytes alone.
put_last : ℕ → List ℕ → ℕ → List ℕ
put_last zero ys bits = ys
put_last (suc i) ys bits = put_last i (write ys i (bit_and bits 0xff ∷ [])) (bits >>> 8)

put_bits-append :
    (n bits : ℕ) (xs ys : List ℕ)
    → length xs ≡ 248
    → put_bits n (xs ++ ys) bits ≡ xs ++ put_last n ys bits
unfolding put_bits put_last
put_bits-append zero bits xs ys e = refl
put_bits-append (suc i) bits xs ys e =
    ap (λ p. put_bits i p (bits >>> 8))
      (write-append xs ys i (248 + i) (bit_and bits 0xff ∷ []) (omega (arith, e)))
    ∙ put_bits-append i (bits >>> 8) xs (write ys i (bit_and bits 0xff ∷ [])) e

put_last-u64_be : (bits : ℕ) → put_last 8 (zeros 8) bits ≡ u64_be bits
unfolding put_last write
put_last-u64_be bits =
    ap₂ ◌∷◌ (byte (bits >>> 8 >>> 8 >>> 8 >>> 8 >>> 8 >>> 8 >>> 8) (bits >>> 56) (omega arith)) (
      ap₂ ◌∷◌ (byte (bits >>> 8 >>> 8 >>> 8 >>> 8 >>> 8 >>> 8) (bits >>> 48) (omega arith)) (
        ap₂ ◌∷◌ (byte (bits >>> 8 >>> 8 >>> 8 >>> 8 >>> 8) (bits >>> 40) (omega arith)) (
          ap₂ ◌∷◌ (byte (bits >>> 8 >>> 8 >>> 8 >>> 8) (bits >>> 32) (omega arith)) (
            ap₂ ◌∷◌ (byte (bits >>> 8 >>> 8 >>> 8) (bits >>> 24) (omega arith)) (
              ap₂ ◌∷◌ (byte (bits >>> 8 >>> 8) (bits >>> 16) (omega arith)) (
                ap₂ ◌∷◌ (byte (bits >>> 8) (bits >>> 8) (omega arith))
                  (ap₂ ◌∷◌ (byte bits bits (omega arith)) refl)))))))
  where
    byte : (m n : ℕ) → m ≡ n → bit_and m 0xff ≡ u8 n
    byte m n e = and_byte m ∙ ap u8 e

-- For a message of 184 to 247 bytes, whatever the buffer held, its 256 bytes are the padded message.
pub pad-padded_message :
    (stack msg : List ℕ)
    → length stack ≡ 256
    → 184 ≤ length msg
    → length msg ≤ 247
    → pad stack msg ≡ padded_message msg
unfolding pad padded_message
pad-padded_message stack msg room low high =
    ap (λ b. put_bits 8 (write b len (0x80 ∷ [])) (len * 8)) cleared
    ∙ ap (λ b. put_bits 8 b (len * 8)) marked
    ∙ ap (λ b. put_bits 8 b (len * 8)) split
    ∙ put_bits-append 8 (len * 8) (msg ++ (0x80 ∷ zeros (247 - len))) (zeros 8) front
    ∙ ap (λ e. (msg ++ (0x80 ∷ zeros (247 - len))) ++ e) (put_last-u64_be (len * 8))
    ∙ append_assoc msg (0x80 ∷ zeros (247 - len)) (u64_be (len * 8))
    ∙ ap (λ k. msg ++ (0x80 ∷ zeros k ++ u64_be (len * 8))) fill
  where
    len : ℕ
    len = length msg

    cleared : write (write stack 0 msg) len (zeros (256 - len)) ≡ msg ++ zeros (256 - len)
    cleared =
        ap (λ b. write b len (zeros (256 - len))) (write_start stack msg (omega arith))
        ∙ write-append msg (drop len stack) 0 len (zeros (256 - len)) (omega arith)
        ∙ ap (λ b. msg ++ b)
            (write_all (drop len stack) (zeros (256 - len))
              (omega (arith, length-zeros (256 - len), length-drop len stack)))

    one_more : 256 - len ≡ suc (255 - len)
    one_more = omega arith

    marked : write (msg ++ zeros (256 - len)) len (0x80 ∷ []) ≡ msg ++ (0x80 ∷ zeros (255 - len))
    marked =
        ap (λ k. write (msg ++ zeros k) len (0x80 ∷ [])) one_more
        ∙ write-append msg (zeros (suc (255 - len))) 0 len (0x80 ∷ []) (omega arith)
        ∙ ap (λ b. msg ++ b) (write_start (zeros (suc (255 - len))) (0x80 ∷ []) (omega arith))

    eight_more : 255 - len ≡ 247 - len + 8
    eight_more = omega arith

    split : msg ++ (0x80 ∷ zeros (255 - len)) ≡ (msg ++ (0x80 ∷ zeros (247 - len))) ++ zeros 8
    split =
        ap (λ k. msg ++ (0x80 ∷ zeros k)) eight_more
        ∙ ap (λ z. msg ++ (0x80 ∷ z)) (zeros-append (247 - len) 8)
        ∙ sym (append_assoc msg (0x80 ∷ zeros (247 - len)) (zeros 8))

    front : length (msg ++ (0x80 ∷ zeros (247 - len))) ≡ 248
    front = omega (arith, length-append msg (0x80 ∷ zeros (247 - len)), length-zeros (247 - len))

    fill : 247 - len ≡ (119 - len % 64) % 64
    fill = omega arith

-- For a message of 184 to 247 bytes, such as the 192 bytes of a node, the portable code of `pose_sha256`
-- computes the SHA-256 of FIPS 180-4, whatever its buffer on the stack held.
pub sha256_hash-eq-sha256_reference :
    (stack msg : List ℕ)
    → length stack ≡ 256
    → 184 ≤ length msg
    → length msg ≤ 247
    → sha256_hash stack msg ≡ sha256_reference msg
unfolding sha256_hash sha256_reference padded_message
sha256_hash-eq-sha256_reference stack msg room low high =
    ap (λ p. digest (compress_blocks ((length msg + 1 + 8 + 63) / 64) initial_state p)) same
    ∙ ap (λ n. digest (compress_blocks n initial_state (padded_message msg))) blocks
    ∙ ap (λ x. digest (compress_blocks size64 x (padded_message msg))) initial_state-spec_initial
    ∙ ap digest (compress_blocks-spec_blocks size64 spec_initial (padded_message msg))
    ∙ digest-hash_bytes_of (spec_blocks size64 spec_initial (padded_message msg))
  where
    size64 : ℕ
    size64 = length (padded_message msg) / 64

    same : pad stack msg ≡ padded_message msg
    same = pad-padded_message stack msg room low high

    size : length (padded_message msg) ≡ 256
    size = omega (
      arith,
      length-append msg (0x80 ∷ zeros ((119 - length msg % 64) % 64) ++ u64_be (length msg * 8)),
      length-append (zeros ((119 - length msg % 64) % 64)) (u64_be (length msg * 8)),
      length-zeros ((119 - length msg % 64) % 64),
    )

    blocks : (length msg + 1 + 8 + 63) / 64 ≡ length (padded_message msg) / 64
    blocks = omega (arith, size)
