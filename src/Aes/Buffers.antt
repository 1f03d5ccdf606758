-- ===== src/Aes/Buffers.antt =====
-- The buffer that `build_aes_msg` writes into, and the layout of the message in it.
use po_se_memory_wiping.Prelude.{
  ℕ, ◌≤◌, ◌≡◌, refl, sym, ap, ◌∙◌, Option, none, some, [], ◌∷◌, ◌++◌, length, drop, arith,
  append_assoc, append-nil, length-append, length-take, length-drop,
}
use po_se_memory_wiping.Prelude.Words.{
  Buffer, u64_be, zeros, length-zeros, write, write-append, write_start,
}
use po_se_memory_wiping.Label.{Bytes}
use po_se_memory_wiping.Aes.{aes_msg_bytes, load32, field_or_zeros, build_aes_msg}

-- The message of a node: its index in 16 bytes, the labels of two predecessors or zeros, and the
-- descriptor.
unfoldable pub aes_message : ℕ → Option Bytes → Option Bytes → Bytes → Bytes
aes_message id p0 p1 desc =
    (((u64_be id ++ zeros 8) ++ field_or_zeros p0) ++ field_or_zeros p1) ++ load32 desc

length-load32 : (p : Bytes) → length (load32 p) ≡ 32
length-load32 p =
    omega (arith, length-take 32 (p ++ zeros 32), length-append p (zeros 32), length-zeros 32)

length-field_or_zeros : (p : Option Bytes) → length (field_or_zeros p) ≡ 32
length-field_or_zeros none = refl
length-field_or_zeros (some p) = length-load32 p

-- A write where the first part of the buffer ends.
write_next :
    (front back bs : Bytes) (at : ℕ)
    → at ≡ length front
    → length bs ≤ length back
    → write (front ++ back) at bs ≡ (front ++ bs) ++ drop (length bs) back
write_next front back bs at e fits =
    write-append front back 0 at bs (omega (arith, e))
    ∙ ap (λ z. front ++ z) (write_start back bs fits)
    ∙ sym (append_assoc front bs (drop (length bs) back))

none_left : (xs : Bytes) → length xs ≡ 0 → xs ≡ []
none_left [] e = refl
none_left (x ∷ xs) e = absurd (omega (arith, e))

-- Whatever the buffer held, it holds the message of the node.
pub build_aes_msg-aes_message :
    (stack : Buffer aes_msg_bytes) (id : ℕ) (p0 p1 : Option Bytes) (desc : Bytes)
    → build_aes_msg stack.0 id p0 p1 desc ≡ aes_message id p0 p1 desc
unfolding build_aes_msg aes_message
build_aes_msg-aes_message stack id p0 p1 desc =
    ap (λ b. fields (write b 8 (zeros 8)))
      (write_start stack.0 (u64_be id) (omega (arith, stack.1)))
    ∙ ap fields (write_next (u64_be id) b0 (zeros 8) 8 refl (omega (arith, l0)))
    ∙ ap (λ b. write (write b 48 f1) 80 d) (write_next h1 b1 f0 16 refl (omega (arith, l1, lf0)))
    ∙ ap (λ b. write b 80 d) (write_next h2 b2 f1 48 (omega (arith, lh2)) (omega (arith, l2, lf1)))
    ∙ write_next h3 b3 d 80 (omega (arith, lh3)) (omega (arith, l3, ld))
    ∙ ap (λ z. (h3 ++ d) ++ z)
        (none_left (drop (length d) b3) (omega (arith, length-drop (length d) b3, l3, ld)))
    ∙ append-nil (h3 ++ d)
  where
    f0 : Bytes
    f0 = field_or_zeros p0

    f1 : Bytes
    f1 = field_or_zeros p1

    d : Bytes
    d = load32 desc

    fields : Bytes → Bytes
    fields b = write (write (write b 16 f0) 48 f1) 80 d

    h1 : Bytes
    h1 = u64_be id ++ zeros 8

    h2 : Bytes
    h2 = h1 ++ f0

    h3 : Bytes
    h3 = h2 ++ f1

    b0 : Bytes
    b0 = drop 8 stack.0

    b1 : Bytes
    b1 = drop 8 b0

    b2 : Bytes
    b2 = drop (length f0) b1

    b3 : Bytes
    b3 = drop (length f1) b2

    lf0 : length f0 ≡ 32
    lf0 = length-field_or_zeros p0

    lf1 : length f1 ≡ 32
    lf1 = length-field_or_zeros p1

    ld : length d ≡ 32
    ld = length-load32 desc

    lh2 : length h2 ≡ 48
    lh2 = omega (arith, length-append h1 f0, lf0)

    lh3 : length h3 ≡ 80
    lh3 = omega (arith, length-append h2 f1, lf1, lh2)

    l0 : length b0 ≡ 104
    l0 = omega (arith, length-drop 8 stack.0, stack.1)

    l1 : length b1 ≡ 96
    l1 = omega (arith, length-drop 8 b0, l0)

    l2 : length b2 ≡ 64
    l2 = omega (arith, length-drop (length f0) b1, l1, lf0)

    l3 : length b3 ≡ 32
    l3 = omega (arith, length-drop (length f1) b2, l2, lf1)
