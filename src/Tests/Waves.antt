-- ===== src/Tests/Waves.antt =====
-- A wave of three super-chunks of two blocks, whose sink refuses the second one.
use po_se_memory_wiping.Prelude.{
  ℕ, ◌+◌, ◌*◌, ◌/◌, ◌≡◌, refl, Bool, true, false, ◌==◌, if◌then◌else◌, List, [], ◌∷◌, get_or,
  length, arith,
}
use po_se_memory_wiping.Label.{Bytes, blake3, NodeHash, label_each}
use po_se_memory_wiping.Graph.Counts.{resolve_chunk_blocks}
use po_se_memory_wiping.Graph.Chunk.{done, failed, graph_challenge}
use po_se_memory_wiping.Graph.Wave.{
  SinkCall, Wave, super_chunk_blocks, challenge_node_ids, label_disk_wave,
}
use po_se_memory_wiping.Graph.Wave.Committed.{
  all_accepted, label_disk_wave-all_accepted, graph_challenge-label_disk_wave,
}

abbrev hash : NodeHash
hash = record {
  label_node = λ source id p0 p1 seed desc algo. id ∷ [];
  label_node_many = label_each (λ source id p0 p1 seed desc algo. id ∷ []);
  graph_descriptor = λ m n. m ∷ n ∷ [];
  chunk_seed = λ seed i. i ∷ seed;
  label_node_many-eq-label_each = λ source ids p0s p1s seed desc algo le. refl;
}

abbrev sink : List SinkCall → SinkCall → Bool
sink earlier call = if length earlier == 1 then false else true

abbrev zeroed : ℕ → ℕ → Bytes
zeroed slot b = []

abbrev third_wave : Wave
third_wave = label_disk_wave hash [] 10 blake3 sink true 2 3 6 320 64 zeroed

label_disk_wave-all_accepted_example :
    (length third_wave.calls ≡ 3)
    × (third_wave.rc ≡ (if all_accepted sink [] third_wave.calls then done tt else failed))
unfolding super_chunk_blocks resolve_chunk_blocks
label_disk_wave-all_accepted_example =
    label_disk_wave-all_accepted hash [] 10 blake3 sink 2 6 320 64 (omega arith) (omega arith) 3
      zeroed (omega arith) (omega arith)

abbrev no_call : SinkCall
no_call = record { buf = λ b. []; len = 0; off = 0 }

graph_challenge-label_disk_wave_example :
    ((get_or third_wave.calls 2 no_call).off ≡ 320 + (6 + 2) * 64)
    × ((get_or third_wave.calls 2 no_call).len ≡ 64)
    × (graph_challenge hash true
          (((10 + (6 + 2) * super_chunk_blocks 2) / super_chunk_blocks 2) ∷ [])
          (super_chunk_blocks 2)
          1
          (λ id. [])
          blake3
        ≡ done ((get_or third_wave.calls 2 no_call).buf (challenge_node_ids 2 (λ i. 0) 1)))
unfolding super_chunk_blocks resolve_chunk_blocks
graph_challenge-label_disk_wave_example =
    graph_challenge-label_disk_wave hash [] 10 blake3 sink 2 6 320 64 (omega arith) (omega arith) 3
      zeroed (omega arith) (omega arith) 2 1 (λ i. 0) (λ id. []) no_call (omega arith) (omega arith)
