-- ===== src/Support/Word.antt =====
-- The unsigned integers of the library: `uint64_t` and `size_t` are 64 bits wide. A value is a
-- number below the modulus, and every operation that can wrap is written with its remainder.
use libvfn.Base.{ℕ, ◌+◌, ◌-◌, ◌%◌, ◌^◌}

abbrev pub u64 : ℕ
u64 = 2 ^ 64

abbrev pub add64 : ℕ → ℕ → ℕ
add64 a b = (a + b) % u64

abbrev pub sub64 : ℕ → ℕ → ℕ
sub64 a b = (a + u64 - b) % u64

abbrev pub not64 : ℕ → ℕ
not64 a = u64 - 1 - a
