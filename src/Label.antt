-- ===== src/Label.antt =====
-- What graph.c takes from common/include/hash.h: the label of a node, of a batch of nodes, the
-- graph descriptor and the seed of a chunk. Hash.Instance fills it with the code of hash.c.
use po_se_memory_wiping.Prelude.{ℕ, ◌≤◌, ◌≡◌, Bool, Option, none, some, List, [], ◌∷◌, length}

abbrev pub Bytes : Type 0
Bytes = List ℕ

-- `pose_hash_algo_t`
pub data Algo : Type 0 where
  blake3 sha256 aes_prf : Algo

-- `POSE_HASH_BYTES`
abbrev pub hash_bytes : ℕ
hash_bytes = 32

-- `POSE_LABEL_BATCH`
abbrev pub label_batch : ℕ
label_batch = 16

-- `const uint8_t *const *`: no array at all, or an array of pointers that may be NULL.
abbrev pub PredArray : Type 0
PredArray = Option (List (Option Bytes))

abbrev pub head_pred : PredArray → Option Bytes
head_pred none = none
head_pred (some []) = none
head_pred (some (p ∷ ps)) = p

abbrev pub tail_preds : PredArray → PredArray
tail_preds none = none
tail_preds (some []) = some []
tail_preds (some (p ∷ ps)) = some ps

-- The type of `pose_label_node`: is_source, node_index, pred0, pred1, seed, descriptor, algo.
abbrev pub LabelNode : Type 0
LabelNode = Bool → ℕ → Option Bytes → Option Bytes → Bytes → Bytes → Algo → Bytes

-- The labels of a batch, node by node.
unfoldable pub label_each :
    LabelNode → Bool → List ℕ → PredArray → PredArray → Bytes → Bytes → Algo → List Bytes
label_each label_node source [] p0s p1s seed desc algo = []
label_each label_node source (id ∷ ids) p0s p1s seed desc algo =
    label_node source id (head_pred p0s) (head_pred p1s) seed desc algo
    ∷ label_each label_node source ids (tail_preds p0s) (tail_preds p1s) seed desc algo

-- hash.h as graph.c sees it, with the promise that a batch changes no label.
pub record NodeHash : Type 0 where
  pub label_node : LabelNode
  pub label_node_many : Bool → List ℕ → PredArray → PredArray → Bytes → Bytes → Algo → List Bytes
  pub graph_descriptor : ℕ → ℕ → Bytes
  pub chunk_seed : Bytes → ℕ → Bytes
  pub label_node_many-eq-label_each :
      (source : Bool) (ids : List ℕ) (p0s p1s : PredArray) (seed desc : Bytes) (algo : Algo)
      → length ids ≤ label_batch
      → label_node_many source ids p0s p1s seed desc algo
        ≡ label_each label_node source ids p0s p1s seed desc algo
