-- ===== src/Float.antt =====
-- The `f32` values of the source (src/router.rs, src/state_machine.rs), and std's `Duration`.
-- Each is a whole number of seconds or a multiple of 1/256 s below 2 ^ 24 / 256, where f32 is
-- exact, so a value is its count of 1/256 s.
use failover.Base.{ℕ, ◌+◌, ◌-◌, ◌*◌, ◌/◌}

abbrev pub F32 : Type 0
F32 = ℕ

-- `n as f32`
abbrev pub as_f32 : ℕ → F32
as_f32 n = n * 256

abbrev pub f32_add : F32 → F32 → F32
f32_add a b = a + b

-- The source subtracts no larger number from a smaller one.
abbrev pub f32_sub : F32 → F32 → F32
f32_sub a b = a - b

abbrev pub f32_mul : F32 → F32 → F32
f32_mul a b = a * b / 256

abbrev pub f32_div : F32 → F32 → F32
f32_div a b = a * 256 / b

-- `Duration::from_secs_f32`, in nanoseconds: 1/256 s is 3906250 ns.
abbrev pub from_secs_f32 : F32 → ℕ
from_secs_f32 d = d * 3906250
