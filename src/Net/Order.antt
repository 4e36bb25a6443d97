-- ===== src/Net/Order.antt =====
-- The byte order functions of xv6/eth.c.
use oslab.Common.{ℕ, ◌^◌, ◌<◌, ◌≡◌, ◌↔◌, arith}
use oslab.Net.{h2n_ushort, n2h_uint, h2n_uint}

-- Swapping the bytes of a 16-bit number twice gives the number.
pub h2n_ushort_twice : (v : ℕ) → v < 2 ^ 16 → h2n_ushort (h2n_ushort v) ≡ v
unfolding h2n_ushort
h2n_ushort_twice v lt = omega arith

-- `N2H_uint` is its own inverse on 32-bit numbers.
pub n2h_uint_twice : (v : ℕ) → v < 2 ^ 32 → n2h_uint (n2h_uint v) ≡ v
unfolding n2h_uint
n2h_uint_twice v lt = omega arith

-- `N2H_uint` undoes `H2N_uint` on the 32-bit numbers below 16, and on no others.
pub n2h_uint-h2n_uint : (v : ℕ) → v < 2 ^ 32 → (n2h_uint (h2n_uint v) ≡ v) ↔ (v < 16)
unfolding n2h_uint h2n_uint
n2h_uint-h2n_uint v lt = (λ e. omega arith, λ small. omega arith)
