-- ===== src/Net/Word.antt =====
-- `size_t` arithmetic of the 64-bit target, as net/CBuffer.cpp uses it: it wraps.
use neconet.Prelude.{ℕ, ◌+◌, ◌-◌, ◌%◌, ◌^◌}

abbrev pub size_mod : ℕ
size_mod = 2 ^ 64

-- `std::vector<char>::max_size()`, which is PTRDIFF_MAX; no object is larger.
abbrev pub max_size : ℕ
max_size = 2 ^ 63 - 1

abbrev pub add_size : ℕ → ℕ → ℕ
add_size a b = (a + b) % size_mod

abbrev pub sub_size : ℕ → ℕ → ℕ
sub_size a b = (a + size_mod - b) % size_mod
