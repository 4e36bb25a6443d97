-- ===== src/Kalloc.antt =====
-- xv6/kalloc.c: the allocator of physical pages, its free list threaded through the free pages.
-- Each call stands for the critical section of `kmem.lock`; `end` is the linker's symbol.
pub mod Spec
pub mod Range
pub mod Owners
mod Tests
use oslab.Common.{
  ℕ, zero, suc, ◌+◌, ◌-◌, ◌*◌, ◌/◌, ◌%◌, ◌^◌, Bool, true, false, ◌&&◌, ◌||◌, not, Option, none,
  some, ◌==◌, ltb, leb, if◌then◌else◌,
}

abbrev pub pgsize : ℕ
pgsize = 4096

abbrev pub kernbase : ℕ
kernbase = 0x80000000

abbrev pub phystop : ℕ
phystop = 0x20000000

-- `PGROUNDUP(sz)`, that is `(sz + PGSIZE - 1) & ~(PGSIZE - 1)` on 32 bits.
abbrev pub pgroundup : ℕ → ℕ
pgroundup sz = (sz + pgsize - 1) % 2 ^ 32 / pgsize * pgsize

-- `V2P(a)`, on 32 bits.
abbrev pub v2p : ℕ → ℕ
v2p a = (a + 2 ^ 32 - kernbase) % 2 ^ 32

-- `kmem`, with the 32-bit words of memory by address. The word at the start of a free page is the
-- `next` of its `struct run`.
pub record Kmem : Type 0 where
  pub use_lock : ℕ
  pub freelist : ℕ
  pub memory : ℕ → ℕ

-- `memset(v, 1, PGSIZE)` on words.
abbrev pub junk : (ℕ → ℕ) → ℕ → ℕ → ℕ
junk memory v a = if leb v a && ltb a (v + pgsize) then 0x01010101 else memory a

-- The test of `kfree` on its argument.
abbrev pub bad_page : ℕ → ℕ → Bool
bad_page end v = not (v % pgsize == 0) || ltb v end || leb phystop (v2p v)

-- `none` is the panic.
unfoldable pub kfree : ℕ → ℕ → Kmem → Option Kmem
kfree end v k =
    if bad_page end v
    then none
    else some
        (record k { freelist = v; memory = λ a. if a == v then k.freelist else junk k.memory v a })

-- The page, or 0, and the new state.
unfoldable pub kalloc : Kmem → ℕ × Kmem
kalloc k = let r = k.freelist in (r, if r == 0 then k else record k { freelist = k.memory r })

-- The loop of `freerange`, from `p` on.
pub free_from : ℕ → ℕ → ℕ → ℕ → Kmem → Option Kmem
unfolding kfree
free_from zero end vend p k = none
free_from (suc fuel) end vend p k = elim (leb (p + pgsize) vend) [
  | true ↦ elim (kfree end p k) [ none ↦ none | some k' ↦ free_from fuel end vend (p + pgsize) k' ]
  | false ↦ some k
]

pub freerange : ℕ → ℕ → ℕ → Kmem → Option Kmem
unfolding free_from
freerange end vstart vend k = free_from (vend / pgsize + 1) end vend (pgroundup vstart) k

unfoldable pub kinit1 : ℕ → ℕ → ℕ → Kmem → Option Kmem
unfolding freerange
kinit1 end vstart vend k = freerange end vstart vend (record k { use_lock = 0 })

pub kinit2 : ℕ → ℕ → ℕ → Kmem → Option Kmem
unfolding freerange
kinit2 end vstart vend k = elim (freerange end vstart vend k) [
  | none ↦ none
  | some k' ↦ some (record k' { use_lock = 1 })
]
