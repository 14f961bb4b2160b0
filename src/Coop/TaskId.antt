-- ===== src/Coop/TaskId.antt =====
-- `rivet/src/task.rs`, `TaskId`: a priority and an index in sixteen bits.
use rivet_rtos.Base.{ℕ, ◌+◌, ◌*◌, ◌/◌, ◌%◌, ◌^◌, ◌<◌, ◌≡◌, arith}

abbrev pub TaskId : Type 0
TaskId = ℕ

-- The fields are bytes, and do not overlap: `|` is `+`.
unfoldable pub new : ℕ → ℕ → TaskId
new priority index = priority % 2 ^ 8 * 2 ^ 8 + index % 2 ^ 8

unfoldable pub priority : TaskId → ℕ
priority id = id / 2 ^ 8 % 2 ^ 8

unfoldable pub index : TaskId → ℕ
index id = id % 2 ^ 8

unfoldable pub as_u16 : TaskId → ℕ
as_u16 id = id

unfoldable pub from_u16 : ℕ → TaskId
from_u16 v = v

-- Packing and unpacking are inverse: every pair of bytes, and every sixteen-bit word.
pub priority-new : (p i : ℕ) → p < 2 ^ 8 → (priority (new p i) ≡ p)
unfolding priority new
priority-new p i h = omega arith

pub index-new : (p i : ℕ) → i < 2 ^ 8 → (index (new p i) ≡ i)
unfolding index new
index-new p i h = omega arith

-- Every sixteen-bit task identity is the one that is packed from its priority and its index.
pub new-priority-index : (id : TaskId) → id < 2 ^ 16 → new (priority id) (index id) ≡ id
unfolding new priority index
new-priority-index id h = omega arith
