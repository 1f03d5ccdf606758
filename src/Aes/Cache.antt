-- ===== src/Aes/Cache.antt =====
-- The round-key cache of a thread: whatever seed it was filled for, a call uses the keys of its own seed.
use po_se_memory_wiping.Prelude.{
  ℕ, ◌≤◌, ◌≡◌, refl, sym, ap, ◌∙◌, true, take, drop, arith, map, range', Bool-cases, inl, inr, ◌*◌,
  take-take, drop-take,
}
use po_se_memory_wiping.Prelude.Words.{same_bytes, same_bytes_lem}
use po_se_memory_wiping.Label.{Bytes}
use po_se_memory_wiping.Aes.{
  KeyCache, schedule_words, aes128_schedule_bytes, aes128_expand, get_round_keys,
}

-- A cache that is valid holds the keys of its seed.
abbrev pub IsCache : KeyCache → Type 0
IsCache c =
    c.valid ≡ true → (c.rk_hi ≡ aes128_expand c.seed) × (c.rk_lo ≡ aes128_expand (drop 16 c.seed))

-- The schedule reads 16 bytes of the key.
expand-take : (key : Bytes) (n : ℕ) → 16 ≤ n → aes128_expand (take n key) ≡ aes128_expand key
unfolding aes128_expand aes128_schedule_bytes
expand-take key n le =
    ap (λ k. map (λ i. take 16 (drop (i * 16) (schedule_words 40 4 k))) (range' 0 11))
      (take-take 16 n key le)

keys_of_seed :
    (seed : Bytes)
    → (aes128_expand (take 32 seed) ≡ aes128_expand seed)
      × (aes128_expand (drop 16 (take 32 seed)) ≡ aes128_expand (drop 16 seed))
keys_of_seed seed = (
  expand-take seed 32 (omega arith),
  ap aes128_expand (drop-take 16 32 seed) ∙ expand-take (drop 16 seed) 16 (omega arith),
)

-- If the cache holds the keys of its seed where it is valid, then `get_round_keys` gives the keys of the
-- two halves of the seed asked for, and the cache is again so.
pub get_round_keys-IsCache :
    (seed : Bytes) (cache : KeyCache)
    → IsCache cache
    → ((get_round_keys seed cache).rk_hi ≡ aes128_expand seed)
      × ((get_round_keys seed cache).rk_lo ≡ aes128_expand (drop 16 seed))
      × IsCache (get_round_keys seed cache)
unfolding get_round_keys
get_round_keys-IsCache seed cache holds = elim (Bool-cases cache.valid) [
  | inr stale ↦ rw stale (refl, refl, fresh)
  | inl kept ↦ elim (Bool-cases (same_bytes cache.seed (take 32 seed))) [
    | inr other ↦ rw (kept, other) (refl, refl, fresh)
    | inl hit ↦
        let same : cache.seed ≡ take 32 seed = same_bytes_lem cache.seed (take 32 seed) hit in
        rw (kept, hit)
          (
            (holds kept).0 ∙ ap aes128_expand same ∙ (keys_of_seed seed).0,
            (holds kept).1 ∙ ap (λ k. aes128_expand (drop 16 k)) same ∙ (keys_of_seed seed).1,
            λ p. holds kept,
          )
  ]
]
  where
    fresh :
        true ≡ true
        → (aes128_expand seed ≡ aes128_expand (take 32 seed))
          × (aes128_expand (drop 16 seed) ≡ aes128_expand (drop 16 (take 32 seed)))
    fresh p = (sym (keys_of_seed seed).0, sym (keys_of_seed seed).1)
