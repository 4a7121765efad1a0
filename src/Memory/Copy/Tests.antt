-- ===== src/Memory/Copy/Tests.antt =====
-- memmove.c and memset.c on a memory whose bytes are their addresses.
use ferrite_c.Common.{ℕ, ◌≡◌, refl}
use ferrite_c.Memory.Copy.{memmove}
use ferrite_c.Memory.Copy.Move.{IsMoved, memmove-IsMoved}

abbrev addresses : ℕ → ℕ
addresses a = a

-- Four bytes, two addresses up: the regions overlap.
memmove-IsMoved_example : IsMoved addresses 12 10 4 (memmove addresses 12 10 4)
memmove-IsMoved_example = memmove-IsMoved addresses 12 10 4

overlapping : memmove addresses 12 10 4 15 ≡ 13
unfolding memmove
overlapping = refl
