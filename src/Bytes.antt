-- ===== src/Bytes.antt =====
-- xv6/string.c, over a memory that is a function from addresses to bytes. Addresses do not wrap.
pub mod Move
pub mod Compare
pub mod Copy
pub mod Pad
mod Tests
use oslab.Common.{
  ℕ, zero, suc, ◌+◌, ◌-◌, ◌*◌, ◌/◌, ◌%◌, ◌^◌, Bool, true, false, ◌&&◌, not, ltb, ◌==◌,
  if◌then◌else◌,
}
use oslab.Common.Int.{ℤ, pos, sub_ℕ}

abbrev pub Memory : Type 0
Memory = ℕ → ℕ

abbrev pub write : Memory → ℕ → ℕ → Memory
write m a x b = if a == b then x else m b

-- `stosb` of xv6/x86.h: `cnt` bytes from `addr` on.
unfoldable pub stosb : Memory → ℕ → ℕ → ℕ → Memory
stosb m addr c zero = m
stosb m addr c (suc cnt) = stosb (write m addr (c % 2 ^ 8)) (addr + 1) c cnt

-- Byte `i` of a 32-bit number, the lowest first.
abbrev pub byte_of : ℕ → ℕ → ℕ
byte_of w i = w / 2 ^ (8 * i) % 2 ^ 8

abbrev pub write_long : Memory → ℕ → ℕ → Memory
write_long m a w =
    write (write (write (write m a (byte_of w 0)) (a + 1) (byte_of w 1)) (a + 2) (byte_of w 2))
      (a + 3) (byte_of w 3)

-- `stosl` of xv6/x86.h: `cnt` words of 32 bits from `addr` on.
unfoldable pub stosl : Memory → ℕ → ℕ → ℕ → Memory
stosl m addr w zero = m
stosl m addr w (suc cnt) = stosl (write_long m addr w) (addr + 4) w cnt

-- `memset`; the four bytes of the word do not overlap, so `|` is a sum.
unfoldable pub memset : Memory → ℕ → ℕ → ℕ → Memory
unfolding stosb stosl
memset m dst c n =
    if dst % 4 == 0 && n % 4 == 0
    then (let b = c % 2 ^ 8 in stosl m dst (b * 2 ^ 24 + b * 2 ^ 16 + b * 2 ^ 8 + b) (n / 4))
    else stosb m dst c n

-- The two loops of `memmove`.
unfoldable pub move_down : ℕ → ℕ → ℕ → Memory → Memory
move_down zero d s m = m
move_down (suc n) d s m = move_down n (d - 1) (s - 1) (write m (d - 1) (m (s - 1)))

unfoldable pub move_up : ℕ → ℕ → ℕ → Memory → Memory
move_up zero d s m = m
move_up (suc n) d s m = move_up n (d + 1) (s + 1) (write m d (m s))

-- `memmove`
unfoldable pub memmove : Memory → ℕ → ℕ → ℕ → Memory
unfolding move_down move_up
memmove m dst src n =
    if ltb src dst && ltb dst (src + n)
    then move_down n (dst + n) (src + n) m
    else move_up n dst src m

-- `memcmp`
unfoldable pub memcmp : Memory → ℕ → ℕ → ℕ → ℤ
memcmp m v1 v2 zero = pos 0
memcmp m v1 v2 (suc n) =
    let rest = memcmp m (v1 + 1) (v2 + 1) n in if m v1 == m v2 then rest else sub_ℕ (m v1) (m v2)

-- `strncmp`
unfoldable pub strncmp : Memory → ℕ → ℕ → ℕ → ℤ
strncmp m p q zero = pos 0
strncmp m p q (suc n) =
    let rest = strncmp m (p + 1) (q + 1) n in
    if not (m p == 0) && m p == m q then rest else sub_ℕ (m p) (m q)

-- The second loop of `strncpy`.
unfoldable pub fill_zero : ℕ → ℕ → Memory → Memory
fill_zero zero s m = m
fill_zero (suc n) s m = fill_zero n (s + 1) (write m s 0)

-- `strncpy` for a count that is not negative.
unfoldable pub strncpy : ℕ → ℕ → ℕ → Memory → Memory
unfolding fill_zero
strncpy zero s t m = m
strncpy (suc n) s t m =
    let m' = write m s (m t) in
    let rest = strncpy n (s + 1) (t + 1) m' in if m t == 0 then fill_zero n (s + 1) m' else rest

-- The loop of `safestrcpy` and its last write, for at most `n` characters.
unfoldable pub safe_loop : ℕ → ℕ → ℕ → Memory → Memory
safe_loop zero s t m = write m s 0
safe_loop (suc n) s t m =
    let m' = write m s (m t) in
    let rest = safe_loop n (s + 1) (t + 1) m' in if m t == 0 then write m' (s + 1) 0 else rest

-- `safestrcpy` for a count that is not negative.
unfoldable pub safestrcpy : Memory → ℕ → ℕ → ℕ → Memory
unfolding safe_loop
safestrcpy m s t zero = m
safestrcpy m s t (suc n) = safe_loop n s t m
