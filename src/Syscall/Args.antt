-- ===== src/Syscall/Args.antt =====
-- The arguments that xv6/syscall.c lets through lie in the memory of the process.
use oslab.Common.{
  ℕ, zero, suc, ◌+◌, ◌-◌, ◌*◌, ◌%◌, ◌^◌, ◌≤◌, ◌<◌, ◌≡◌, ◌≢◌, ◌⊎◌, ◌∙◌, refl, sym, ap, arith, ◌||◌,
  Option, none, some, ltb, leb, if◌then◌else◌, ==_ne, Bool-cases, inl, inr, ℕ_discrete,
}
use oslab.Common.Int.{pos}
use oslab.Syscall.{Caller, uint_max, fetchint, string_from, fetchstr, argint, argptr, argstr}

-- The ends of a scan for a string: its length, or no zero byte before the end.
abbrev pub Strings : ℕ → ℕ → Caller → Option ℕ → Type 0
Strings addr s p none = (i : ℕ) → s ≤ i → i < p.sz → p.mem i ≢ 0
Strings addr s p (some len) =
    (s ≤ addr + len)
    × (addr + len < p.sz)
    × (p.mem (addr + len) ≡ 0)
    × ((i : ℕ) → s ≤ i → i < addr + len → p.mem i ≢ 0)

Strings-next :
    (addr s : ℕ) (p : Caller) (r : Option ℕ)
    → p.mem s ≢ 0
    → Strings addr (suc s) p r
    → Strings addr s p r
Strings-next addr s p none ne h = λ i lo hi. elim (ℕ_discrete i s) [
  | yes e ↦ λ z. ne (ap p.mem (sym e) ∙ z)
  | no far ↦ h i (omega arith) hi
]
Strings-next addr s p (some len) ne h = (
  omega (arith, h.0),
  h.1,
  h.2,
  λ i lo hi. elim (ℕ_discrete i s) [
    | yes e ↦ λ z. ne (ap p.mem (sym e) ∙ z)
    | no far ↦ h.3 i (omega arith) hi
  ],
)

string_from-Strings :
    (rounds s addr : ℕ) (p : Caller)
    → addr ≤ s
    → s + rounds ≡ p.sz
    → Strings addr s p (string_from rounds s addr p)
unfolding string_from
string_from-Strings zero s addr p le e = λ i lo hi. absurd (omega arith)
string_from-Strings (suc rounds) s addr p le e =
    let rest = string_from-Strings rounds (suc s) addr p (omega arith) (omega arith) in
    elim (ℕ_discrete (p.mem s) 0) [
      | no ne ↦
          rw (==_ne (p.mem s) 0 ne)
            (Strings-next addr s p (string_from rounds (suc s) addr p) ne rest)
      | yes z ↦
          let at : addr + (s - addr) ≡ s = omega arith in
          rw z (omega arith, omega arith, ap p.mem at ∙ z, λ i lo hi. absurd (omega arith))
    ]

-- `fetchstr` of an address of the process stops at the first zero byte and returns its distance,
-- which lies in the memory of the process; it fails if there is none up to the end, or if the address
-- is past it.
fetchstr-Strings :
    (addr : ℕ) (p : Caller)
    → ((p.sz ≤ addr) × (fetchstr addr p ≡ none))
      ⊎ ((addr < p.sz) × Strings addr addr p (fetchstr addr p))
unfolding fetchstr
fetchstr-Strings addr p = elim (Bool-cases (leb p.sz addr)) [
  | inl past ↦ rw past (inl (ground (arith, past), refl))
  | inr inside ↦
      let lt : addr < p.sz = ground (arith, inside) in
      rw inside
        (inr (lt, string_from-Strings (p.sz - addr) addr addr p (omega arith) (omega arith)))
]

-- A call's argument block: it is there, and it lies in the memory of the process.
abbrev pub IsBlock : ℕ → ℕ → Caller → Option ℕ → Type 0
IsBlock n size p none =
    (argint n p ≡ none) ⊎ ((i : ℕ) × (argint n p ≡ some i) × ((p.sz ≤ i) ⊎ (p.sz < i + size)))
IsBlock n size p (some i) = (argint n p ≡ some i) × (i < p.sz) × (i + size ≤ p.sz)

-- The memory of a process ends at or below 2 ^ 31, where the kernel starts. Then `argptr` of a block of
-- `size` bytes, not more than an `int` holds, gives the argument exactly if the block lies inside the
-- memory: the sum that it tests does not wrap.
pub argptr-IsBlock :
    (n size : ℕ) (p : Caller)
    → p.sz ≤ 2 ^ 31
    → size < 2 ^ 31
    → IsBlock n size p (argptr n (pos size) p)
unfolding argptr
argptr-IsBlock n size p sz_le size_lt = go (argint n p) refl
  where
    go :
        (r : Option ℕ)
        → argint n p ≡ r
        → IsBlock n size p (elim r [
          | none ↦ none
          | some i ↦ if leb p.sz i || ltb p.sz ((i + size) % uint_max) then none else some i
        ])
    go none e = inl e
    go (some i) e = elim (Bool-cases (leb p.sz i || ltb p.sz ((i + size) % uint_max))) [
      | inl bad ↦ rw bad (inr (i, e, ground (arith, bad)))
      | inr ok ↦ rw ok (e, ground (arith, ok), ground (arith, ok))
    ]

-- What `argstr` gives: the argument, which lies in the memory of the process, and the distance of the
-- first zero byte from it, which lies there too.
abbrev pub IsString : ℕ → Caller → Option (ℕ × ℕ) → Type 0
IsString n p none =
    (argint n p ≡ none)
    ⊎ ((addr : ℕ) × (argint n p ≡ some addr)
        × ((p.sz ≤ addr) ⊎ ((i : ℕ) → addr ≤ i → i < p.sz → p.mem i ≢ 0)))
IsString n p (some r) =
    (argint n p ≡ some r.0)
    × (r.0 + r.1 < p.sz)
    × (p.mem (r.0 + r.1) ≡ 0)
    × ((i : ℕ) → r.0 ≤ i → i < r.0 + r.1 → p.mem i ≢ 0)

-- `argstr` gives a string exactly if the argument can be read and a zero byte follows it in the memory
-- of the process: the string ends at the first one. Else it fails.
pub argstr-IsString : (n : ℕ) (p : Caller) → IsString n p (argstr n p)
unfolding argstr
argstr-IsString n p = go (argint n p) refl
  where
    found :
        (addr : ℕ) (r : Option ℕ)
        → argint n p ≡ some addr
        → Strings addr addr p r
        → IsString n p (elim r [ none ↦ none | some len ↦ some (addr, len) ])
    found addr none e h = inr (addr, e, inr h)
    found addr (some len) e h = (e, h.1, h.2, h.3)

    go :
        (r : Option ℕ)
        → argint n p ≡ r
        → IsString n p (elim r [
          | none ↦ none
          | some addr ↦ elim (fetchstr addr p) [ none ↦ none | some len ↦ some (addr, len) ]
        ])
    go none e = inl e
    go (some addr) e = elim (fetchstr-Strings addr p) [
      | inl (past, gone) ↦ rw gone (inr (addr, e, inl past))
      | inr (inside, h) ↦ found addr (fetchstr addr p) e h
    ]

-- `argint` reads a whole `int` of the process: 4 bytes below its end. The stack pointer and the
-- arguments are below the end of the memory of the process, or the call fails.
pub argint_inside :
    (n : ℕ) (p : Caller) (v : ℕ)
    → p.sz ≤ 2 ^ 31
    → argint n p ≡ some v
    → (p.esp + 4 + 4 * n) % uint_max + 4 ≤ p.sz
unfolding argint fetchint
argint_inside n p v sz_le e = ground (arith, e)
