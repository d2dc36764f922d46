-- ===== src/Common/Filter/Sizes.antt =====
-- The size helpers of src/common/filter.h, on 64-bit sizes.
use temp_files.Base.{ℕ, ◌-◌, ◌%◌, ltb, if◌then◌else◌, add_size, sub_size}

unfoldable pub size_min : ℕ → ℕ → ℕ
size_min a b = if ltb a b then a else b

unfoldable pub size_max : ℕ → ℕ → ℕ
size_max a b = if ltb b a then a else b

-- The difference cannot wrap: `size % factor` is at most `size`.
-- A factor of 0 divides by zero in C; the callers here exclude it.
unfoldable pub size_round_down : ℕ → ℕ → ℕ
size_round_down size factor = size - size % factor

unfoldable pub size_round_up : ℕ → ℕ → ℕ
size_round_up size factor = size_round_down (sub_size (add_size size factor) 1) factor
