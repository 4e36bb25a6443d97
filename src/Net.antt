-- ===== src/Net.antt =====
-- xv6/eth.c, xv6/ipv4.c and xv6/icmp.c: byte order and checksums. Memory is a function from
-- addresses to bytes.
pub mod Order
pub mod Checksum
pub mod Arp
use oslab.Common.{ℕ, zero, suc, ◌+◌, ◌-◌, ◌*◌, ◌/◌, ◌%◌, ◌^◌, ltb, ◌==◌, if◌then◌else◌}

-- `value & mask` for a mask of `width` bits from bit `low` on.
abbrev pub masked : ℕ → ℕ → ℕ → ℕ
masked value low width = value / 2 ^ low % 2 ^ width * 2 ^ low

-- `H2N_ushort`, and `N2H_ushort`, which is the same; the result is cut to a `ushort`.
unfoldable pub h2n_ushort : ℕ → ℕ
h2n_ushort value = (value % 2 ^ 8 * 2 ^ 8 + value / 2 ^ 8) % 2 ^ 16

-- `N2H_uint`
unfoldable pub n2h_uint : ℕ → ℕ
n2h_uint value =
    (masked value 0 8 * 2 ^ 24
      + masked value 8 8 * 2 ^ 8
      + masked value 16 8 / 2 ^ 8
      + masked value 24 8 / 2 ^ 24)
    % 2 ^ 32

-- `H2N_uint`, with the masks 0xF, 0xF0, 0xF00 and 0xF000 of the source.
unfoldable pub h2n_uint : ℕ → ℕ
h2n_uint value =
    (masked value 0 4 * 2 ^ 24
      + masked value 4 4 * 2 ^ 8
      + masked value 8 4 / 2 ^ 8
      + masked value 12 4 / 2 ^ 24)
    % 2 ^ 32

-- `(bin[i*2]<<8)+bin[i*2+1]`
abbrev pub word : (ℕ → ℕ) → ℕ → ℕ
word bin i = bin (i * 2) * 2 ^ 8 + bin (i * 2 + 1)

-- One round of the loops of `ipv4_chksum` and `icmp_chksum`.
abbrev pub add_word : ℕ → ℕ → ℕ
add_word chk_sum w = let c = chk_sum + w in if ltb (2 ^ 16 - 1) c then c % 2 ^ 16 + 1 else c

unfoldable pub sum_words : (ℕ → ℕ) → ℕ → ℕ → ℕ → ℕ
sum_words bin zero i chk_sum = chk_sum
sum_words bin (suc rounds) i chk_sum = sum_words bin rounds (suc i) (add_word chk_sum (word bin i))

-- `~chk_sum` as a `ushort`.
abbrev pub complement : ℕ → ℕ
complement chk_sum = 2 ^ 16 - 1 - chk_sum % 2 ^ 16

-- `ipv4_chksum`
unfoldable pub ipv4_chksum : (ℕ → ℕ) → ℕ
unfolding sum_words
ipv4_chksum bin = complement (sum_words bin (bin 0 % 2 ^ 4 * 2 % 2 ^ 8) 0 0)

-- `icmp_chksum`
unfoldable pub icmp_chksum : (ℕ → ℕ) → ℕ
unfolding sum_words
icmp_chksum bin = complement (sum_words bin 32 0 0)

-- `bin->field = H2N_ushort(value)` for a field of two bytes at word `f`, in a little-endian machine.
unfoldable pub store_ushort : (ℕ → ℕ) → ℕ → ℕ → ℕ → ℕ
unfolding h2n_ushort
store_ushort bin f value a =
    if a == f * 2
    then h2n_ushort value % 2 ^ 8
    else if a == f * 2 + 1
    then h2n_ushort value / 2 ^ 8
    else bin a
