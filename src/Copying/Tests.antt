-- ===== src/Copying/Tests.antt =====
-- Runs of memmove on buffers that overlap.
use petrel_os.Base.{ℕ, ◌%◌, ◌≡◌, refl}
use petrel_os.Copying.{with_copy, copy_up, copy_down, memcpy, memmove, memmove-with_copy}

abbrev bytes : ℕ → ℕ
bytes a = a % 256

up_by_bytes : memmove bytes 100 103 10 105 ≡ 108
unfolding memmove memcpy copy_up
up_by_bytes = refl

down_by_words : memmove bytes 108 100 16 117 ≡ 109
unfolding memmove copy_down
down_by_words = refl

memmove-with_copy_example : memmove bytes 108 100 16 117 ≡ with_copy bytes 108 100 16 117
memmove-with_copy_example = memmove-with_copy bytes 108 100 16 117
