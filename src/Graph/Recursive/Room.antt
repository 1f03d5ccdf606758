-- ===== src/Graph/Recursive/Room.antt =====
-- The slots of the arena that the recursive components need at the same time, in either emitter.
use po_se_memory_wiping.Prelude.{ℕ, zero, suc, ◌+◌, ◌*◌, ◌^◌, ◌≤◌, max, arith}
use po_se_memory_wiping.Graph.Connector.Nodes.{merged_room}

unfoldable pub connected_room : ℕ → ℕ
connected_room zero = 0
connected_room (suc level) = 3 * 2 ^ level + max (connected_room level) (merged_room level)

unfoldable pub standalone_room : ℕ → ℕ
standalone_room zero = 0
standalone_room (suc level) =
    3 * 2 ^ level + max (standalone_room level) (max (2 * 2 ^ level) (connected_room level))

merged_room-le : (level : ℕ) → merged_room level ≤ 4 * 2 ^ level
merged_room-le zero = omega arith
merged_room-le (suc level) = omega arith

connected_room-le : (level : ℕ) → 2 * connected_room level ≤ 7 * 2 ^ level
unfolding connected_room
connected_room-le zero = omega arith
connected_room-le (suc level) = omega (arith, connected_room-le level, merged_room-le level)

standalone_room-le' : (level : ℕ) → 2 * standalone_room level ≤ 7 * 2 ^ level
unfolding standalone_room
standalone_room-le' zero = omega arith
standalone_room-le' (suc level) = omega (arith, standalone_room-le' level, connected_room-le level)

-- At most 6.5 times half the base width.
pub standalone_room-le : (n : ℕ) → 2 * standalone_room (suc n) ≤ 13 * 2 ^ n
unfolding standalone_room
standalone_room-le n = omega (arith, standalone_room-le' n, connected_room-le n)
