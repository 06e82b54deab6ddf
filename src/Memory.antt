-- ===== src/Memory.antt =====
-- Pointers to packet bytes, and views of a part of them (`const uint8_t*`, `std::span<const uint8_t>`).
use vrtio.Common.{ℕ, ◌+◌, ◌≤◌, List, [], length, Bool, true, false}

-- A pointer is null or points to the first of some bytes that may be read.
pub data Pointer : Type 0 where
  null : Pointer
  to : List ℕ → Pointer

unfoldable pub is_null : Pointer → Bool
is_null null = true
is_null (to bytes) = false

-- What may be read through the pointer: through a null pointer, nothing.
abbrev pub memory : Pointer → List ℕ
memory null = []
memory (to bytes) = bytes

-- `std::span<const uint8_t>(buffer_ + offset, size)`; `{}` has size 0.
pub record Span : Type 0 where
  pub offset : ℕ
  pub size : ℕ

abbrev pub empty_span : Span
empty_span = record { offset = 0; size = 0 }

-- The span lies in the bytes that may be read.
abbrev pub IsWithin : Span → Pointer → Type 0
IsWithin s p = s.offset + s.size ≤ length (memory p)
