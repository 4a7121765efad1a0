-- ===== src/Memory/Copy.antt =====
-- kernel/src/arch/x86/lib/string/memmove.c and memset.c: moving and filling bytes.
--
-- The memory is a function from addresses to bytes. The string instructions of the assembly are
-- functions on it: `rep movsb` after `cld` and after `std`, and `rep stosb`. Addresses are taken not to
-- wrap around: an object ends below 2 ^ 32.
pub mod Move
mod Tests
use ferrite_c.Common.{ℕ, zero, suc, ◌+◌, ◌-◌, ◌%◌, ◌||◌, ltb, ◌==◌, if◌then◌else◌, update}

-- `cld; rep movsb`: n bytes from esi to edi, upwards.
pub movsb_up : (n : ℕ) → (ℕ → ℕ) → (esi edi : ℕ) → ℕ → ℕ
movsb_up zero m esi edi = m
movsb_up (suc n) m esi edi = movsb_up n (update m edi (m esi)) (esi + 1) (edi + 1)

-- `std; rep movsb`: downwards.
pub movsb_down : (n : ℕ) → (ℕ → ℕ) → (esi edi : ℕ) → ℕ → ℕ
movsb_down zero m esi edi = m
movsb_down (suc n) m esi edi = movsb_down n (update m edi (m esi)) (esi - 1) (edi - 1)

-- The memory after `memmove(dest, src, len)`.
pub memmove : (ℕ → ℕ) → (dest src len : ℕ) → ℕ → ℕ
unfolding movsb_up movsb_down
memmove m dest src len =
    if dest == src || len == 0
    then m
    else if ltb dest src
    then movsb_up len m src dest
    else movsb_down len m (src + len - 1) (dest + len - 1)

-- `cld; rep stosb`.
pub stosb_up : (n : ℕ) → (ℕ → ℕ) → (al edi : ℕ) → ℕ → ℕ
stosb_up zero m al edi = m
stosb_up (suc n) m al edi = stosb_up n (update m edi al) al (edi + 1)

-- The memory after `memset(str, c, len)`: the low byte of c is stored.
pub memset : (ℕ → ℕ) → (str c len : ℕ) → ℕ → ℕ
unfolding stosb_up
memset m str c len = stosb_up len m (c % 0x100) str
