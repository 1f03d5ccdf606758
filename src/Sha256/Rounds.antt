-- ===== src/Sha256/Rounds.antt =====
-- The compression function of sha256.c beside that of FIPS 180-4.
use po_se_memory_wiping.Prelude.{
  ℕ, zero, suc, ◌+◌, ◌≡◌, refl, ap, ap₂, ◌∙◌, List, ◌∷◌, [], ◌++◌, get_or, take, drop,
}
use po_se_memory_wiping.Prelude.Words.{u32}
use po_se_memory_wiping.Sha256.{
  Words, round_constants, initial_state, ch, maj, big_sig0, big_sig1, sig0, sig1, load_words,
  schedule, rounds, compress, compress_blocks, digest,
}
use po_se_memory_wiping.Sha256.Spec.{
  root, spec_constants, spec_initial, next_word, spec_words, block_words, spec_step, spec_steps,
  spec_block, spec_blocks, hash_bytes_of,
}

pub round_constants-spec_constants : round_constants ≡ spec_constants
unfolding root
round_constants-spec_constants = refl

pub initial_state-spec_initial : initial_state ≡ spec_initial
unfolding root
initial_state-spec_initial = refl

load_words-block_words : (n : ℕ) (block : List ℕ) → load_words n block ≡ block_words n block
unfolding load_words block_words
load_words-block_words zero block = refl
load_words-block_words (suc n) block = ap₂ ◌∷◌ refl (load_words-block_words n (drop 4 block))

schedule-spec_words : (n t : ℕ) (w : List ℕ) → schedule n t w ≡ spec_words n t w
unfolding schedule spec_words next_word sig0 sig1
schedule-spec_words zero t w = refl
schedule-spec_words (suc n) t w = schedule-spec_words n (t + 1) (w ++ next_word w t ∷ [])

rounds-spec_steps : (n t : ℕ) (w : List ℕ) (s : Words) → rounds n t w s ≡ spec_steps n t w s
unfolding rounds spec_steps spec_step ch maj big_sig0 big_sig1
rounds-spec_steps zero t w s = refl
rounds-spec_steps (suc n) t w s =
    ap (λ (ks : List ℕ). rounds n (t + 1) w (spec_step (get_or ks t 0) (get_or w t 0) s))
      round_constants-spec_constants
    ∙ rounds-spec_steps n (t + 1) w (spec_step (get_or spec_constants t 0) (get_or w t 0) s)

compress-spec_block : (x : Words) (block : List ℕ) → compress x block ≡ spec_block x block
unfolding compress spec_block
compress-spec_block x block =
    ap
      (λ (s : Words). record {
        a = u32 (x.a + s.a);
        b = u32 (x.b + s.b);
        c = u32 (x.c + s.c);
        d = u32 (x.d + s.d);
        e = u32 (x.e + s.e);
        f = u32 (x.f + s.f);
        g = u32 (x.g + s.g);
        h = u32 (x.h + s.h);
      })
      (ap (λ w. rounds 64 0 w x)
          (ap (schedule 48 16) (load_words-block_words 16 block)
            ∙ schedule-spec_words 48 16 (block_words 16 block))
        ∙ rounds-spec_steps 64 0 (spec_words 48 16 (block_words 16 block)) x)

pub compress_blocks-spec_blocks :
    (n : ℕ) (x : Words) (padded : List ℕ) → compress_blocks n x padded ≡ spec_blocks n x padded
unfolding compress_blocks spec_blocks
compress_blocks-spec_blocks zero x padded = refl
compress_blocks-spec_blocks (suc n) x padded =
    ap (λ y. compress_blocks n y (drop 64 padded)) (compress-spec_block x (take 64 padded))
    ∙ compress_blocks-spec_blocks n (spec_block x (take 64 padded)) (drop 64 padded)

pub digest-hash_bytes_of : (x : Words) → digest x ≡ hash_bytes_of x
unfolding digest hash_bytes_of
digest-hash_bytes_of x = refl
