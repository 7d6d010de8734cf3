-- ===== src/Strings/Tests.antt =====
-- The string functions on short buffers.
use cs537pair.Prelude.{◌≡◌, arith}
use cs537pair.Strings.{memmove}
use cs537pair.Strings.Move.{memmove_lem}

memmove_lem_example : memmove 12 10 5 (λ a. a) 13 ≡ 11
memmove_lem_example = (memmove_lem 12 10 5 (λ a. a)).0 1 (omega arith)
