-- ===== src/Hash/Message.antt =====
-- The 192-byte message of a node: its layout, and that its fields can be read back.
use po_se_memory_wiping.Prelude.{
  ℕ, zero, suc, ◌+◌, ◌%◌, ◌^◌, ◌≤◌, ◌≡◌, refl, sym, ap, ◌∙◌, Option, none, some, [], ◌∷◌, ◌++◌,
  length, take, drop, arith, length-append, length-take, append_assoc, append-nil, drop-append,
  take_all,
}
use po_se_memory_wiping.Prelude.Words.{
  u64_be, of_be, of_be-u64_be, zeros, length-zeros, zeros-append, write, length-write, write-append,
  write_start,
}
use po_se_memory_wiping.Label.{Bytes, hash_bytes}
use po_se_memory_wiping.Hash.{build_node_msg, write_pred}

-- Either no predecessor or at least 32 bytes.
abbrev pub IsPred : Option Bytes → Type 0
IsPred none = Unit
IsPred (some p) = hash_bytes ≤ length p

-- The field of a predecessor.
abbrev pub pred_field : Option Bytes → Bytes
pred_field none = zeros 32
pred_field (some p) = take 32 p

length-pred_field : (p : Option Bytes) → IsPred p → length (pred_field p) ≡ 32
length-pred_field none is = refl
length-pred_field (some p) is = omega (arith, length-take 32 p)

-- A message with its last `32 + k` bytes still 0: the next field goes there.
next_field :
    (front : Bytes) (k at : ℕ) (p : Option Bytes)
    → at ≡ length front
    → IsPred p
    → write_pred (front ++ zeros (32 + k)) at p ≡ (front ++ pred_field p) ++ zeros k
unfolding write
next_field front k at none e is =
    ap (λ z. front ++ z) (zeros-append 32 k) ∙ sym (append_assoc front (zeros 32) (zeros k))
next_field front k at (some p) e is =
    write-append front (zeros (32 + k)) 0 at (take 32 p) (omega (arith, e))
    ∙ ap (λ z. front ++ z)
        (write_start (zeros (32 + k)) (take 32 p)
          (omega (arith, length-take 32 p, length-zeros (32 + k))))
    ∙ ap (λ z. front ++ (take 32 p ++ z)) rest
    ∙ sym (append_assoc front (take 32 p) (zeros k))
  where
    rest : drop (length (take 32 p)) (zeros (32 + k)) ≡ zeros k
    rest =
        ap (drop (length (take 32 p))) (zeros-append 32 k)
        ∙ drop-append (length (take 32 p)) (zeros 32) (zeros k)
            (omega (arith, length-take 32 p, length-zeros 32))

abbrev node_head : ℕ → Bytes
node_head index = u64_be index ++ zeros 56

-- The layout of the message, as hash.h documents it.
abbrev node_layout : ℕ → Option Bytes → Option Bytes → Bytes → Bytes → Bytes
node_layout index p0 p1 seed desc =
    (((node_head index ++ pred_field p0) ++ pred_field p1) ++ take 32 seed) ++ take 32 desc

build_node_msg-node_layout :
    (index : ℕ) (p0 p1 : Option Bytes) (seed desc : Bytes)
    → IsPred p0
    → IsPred p1
    → hash_bytes ≤ length seed
    → hash_bytes ≤ length desc
    → build_node_msg index p0 p1 seed desc ≡ node_layout index p0 p1 seed desc
unfolding build_node_msg write
build_node_msg-node_layout index p0 p1 seed desc is0 is1 is_seed is_desc =
    ap (λ m. write (write (write_pred m 96 p1) 128 (take 32 seed)) 160 (take 32 desc))
      (next_field (node_head index) 96 64 p0 refl is0)
    ∙ ap (λ m. write (write m 128 (take 32 seed)) 160 (take 32 desc))
        (next_field (node_head index ++ pred_field p0) 64 96 p1 (sym len0) is1)
    ∙ ap (λ m. write m 160 (take 32 desc))
        (next_field two_preds 32 128 (some seed) (sym len1) is_seed)
    ∙ next_field (two_preds ++ take 32 seed) 0 160 (some desc) (sym len2) is_desc
    ∙ append-nil ((two_preds ++ take 32 seed) ++ take 32 desc)
  where
    two_preds : Bytes
    two_preds = (node_head index ++ pred_field p0) ++ pred_field p1

    len0 : length (node_head index ++ pred_field p0) ≡ 96
    len0 = omega (arith, length-append (node_head index) (pred_field p0), length-pred_field p0 is0)

    len1 : length ((node_head index ++ pred_field p0) ++ pred_field p1) ≡ 128
    len1 = omega (
      arith,
      len0,
      length-append (node_head index ++ pred_field p0) (pred_field p1),
      length-pred_field p1 is1,
    )

    len2 : length (two_preds ++ take 32 seed) ≡ 160
    len2 = omega (arith, len1, length-append two_preds (take 32 seed), length-take 32 seed)

-- The fields of a message, read where hash.h says they are.
pub record NodeFields : Type 0 where
  pub index : ℕ
  pub pred0 : Bytes
  pub pred1 : Bytes
  pub seed : Bytes
  pub descriptor : Bytes

unfoldable pub parse_node_msg : Bytes → NodeFields
parse_node_msg msg = record {
  index = of_be 0 (take 8 msg);
  pred0 = take 32 (drop 64 msg);
  pred1 = take 32 (drop 96 msg);
  seed = take 32 (drop 128 msg);
  descriptor = take 32 (drop 160 msg);
}

take-left : (n : ℕ) (xs ys : Bytes) → n ≤ length xs → take n (xs ++ ys) ≡ take n xs
take-left zero xs ys le = refl
take-left (suc n) [] ys le = absurd (omega arith)
take-left (suc n) (x ∷ xs) ys le = ap (λ l. x ∷ l) (take-left n xs ys (omega arith))

slice_left :
    (n at : ℕ) (xs ys : Bytes)
    → at + n ≤ length xs
    → take n (drop at (xs ++ ys)) ≡ take n (drop at xs)
slice_left n zero xs ys le = take-left n xs ys (omega arith)
slice_left n (suc at) [] ys le = absurd (omega arith)
slice_left n (suc at) (x ∷ xs) ys le = slice_left n at xs ys (omega arith)

slice_end :
    (n at : ℕ) (xs ys : Bytes) → at ≡ length xs → length ys ≡ n → take n (drop at (xs ++ ys)) ≡ ys
slice_end n at xs ys e f =
    ap (take n) (drop-append at xs ys (sym e)) ∙ take_all n ys (omega (arith, f))

-- If the predecessors that are there, the seed and the descriptor have at least 32 bytes, the fields that hash.h
-- documents can be read back from the message of `build_node_msg`: the index modulo 2^64, the first 32 bytes
-- of each predecessor, or zeros if there is none, of the seed and of the descriptor.
pub parse_node_msg-build_node_msg :
    (index : ℕ) (p0 p1 : Option Bytes) (seed desc : Bytes)
    → IsPred p0
    → IsPred p1
    → hash_bytes ≤ length seed
    → hash_bytes ≤ length desc
    → parse_node_msg (build_node_msg index p0 p1 seed desc) ≡ record {
      index = index % 2 ^ 64;
      pred0 = pred_field p0;
      pred1 = pred_field p1;
      seed = take 32 seed;
      descriptor = take 32 desc;
    }
unfolding parse_node_msg
parse_node_msg-build_node_msg index p0 p1 seed desc is0 is1 is_seed is_desc =
    ap parse_node_msg (build_node_msg-node_layout index p0 p1 seed desc is0 is1 is_seed is_desc)
    ∙ (λ i. record {
      index = of_be-u64_be index i;
      pred0 = read0 i;
      pred1 = read1 i;
      seed = read_seed i;
      descriptor = read_desc i;
    })
  where
    m0 : Bytes
    m0 = node_head index ++ pred_field p0

    m1 : Bytes
    m1 = m0 ++ pred_field p1

    m2 : Bytes
    m2 = m1 ++ take 32 seed

    len0 : length m0 ≡ 96
    len0 = omega (arith, length-append (node_head index) (pred_field p0), length-pred_field p0 is0)

    len1 : length m1 ≡ 128
    len1 = omega (arith, len0, length-append m0 (pred_field p1), length-pred_field p1 is1)

    len_seed : length (take 32 seed) ≡ 32
    len_seed = omega (arith, length-take 32 seed)

    len2 : length m2 ≡ 160
    len2 = omega (arith, len1, len_seed, length-append m1 (take 32 seed))

    read0 : take 32 (drop 64 (m2 ++ take 32 desc)) ≡ pred_field p0
    read0 =
        slice_left 32 64 m2 (take 32 desc) (omega (arith, len2))
        ∙ slice_left 32 64 m1 (take 32 seed) (omega (arith, len1))
        ∙ slice_left 32 64 m0 (pred_field p1) (omega (arith, len0))
        ∙ slice_end 32 64 (node_head index) (pred_field p0) refl (length-pred_field p0 is0)

    read1 : take 32 (drop 96 (m2 ++ take 32 desc)) ≡ pred_field p1
    read1 =
        slice_left 32 96 m2 (take 32 desc) (omega (arith, len2))
        ∙ slice_left 32 96 m1 (take 32 seed) (omega (arith, len1))
        ∙ slice_end 32 96 m0 (pred_field p1) (sym len0) (length-pred_field p1 is1)

    read_seed : take 32 (drop 128 (m2 ++ take 32 desc)) ≡ take 32 seed
    read_seed =
        slice_left 32 128 m2 (take 32 desc) (omega (arith, len2))
        ∙ slice_end 32 128 m1 (take 32 seed) (sym len1) len_seed

    read_desc : take 32 (drop 160 (m2 ++ take 32 desc)) ≡ take 32 desc
    read_desc = slice_end 32 160 m2 (take 32 desc) (sym len2) (omega (arith, length-take 32 desc))

pub length-write_pred :
    (xs : Bytes) (off : ℕ) (p : Option Bytes) → length (write_pred xs off p) ≡ length xs
length-write_pred xs off none = refl
length-write_pred xs off (some p) = length-write xs off (take 32 p)

pub length-build_node_msg :
    (id : ℕ) (p0 p1 : Option Bytes) (seed desc : Bytes)
    → length (build_node_msg id p0 p1 seed desc) ≡ 192
unfolding build_node_msg
length-build_node_msg id p0 p1 seed desc =
    length-write _ 160 (take 32 desc)
    ∙ length-write _ 128 (take 32 seed)
    ∙ length-write_pred _ 96 p1
    ∙ length-write_pred _ 64 p0
    ∙ length-write (zeros 192) 0 (u64_be id)
    ∙ length-zeros 192
