-- ===== src/Pipe/Window.antt =====
-- The bytes that a pipe of xv6/pipe.c holds, oldest first, and the invariant of its counters.
use oslab.Common.{
  ℕ, zero, suc, ◌+◌, ◌-◌, ◌%◌, ◌^◌, ◌≤◌, ◌<◌, ◌≡◌, refl, ap, ap₂, arith, List, [], ◌∷◌, ◌++◌,
  length, get_or, set, get_or-set_self, get_or-set_ne,
}
use oslab.Pipe.{Pipe, pipesize, u32}

pub record IsValid (p : Pipe) : Type 0 where
  pub storage : length p.buf ≡ pipesize
  pub nread_fits : p.nread < 2 ^ 32
  pub nwrite_fits : p.nwrite < 2 ^ 32
  pub held : u32 (p.nwrite + 2 ^ 32 - p.nread) ≤ pipesize

-- The number of bytes in the pipe.
abbrev pub size : Pipe → ℕ
size p = u32 (p.nwrite + 2 ^ 32 - p.nread)

-- `k` bytes from counter `r` on.
abbrev pub window : List ℕ → ℕ → ℕ → List ℕ
window buf r zero = []
window buf r (suc k) = get_or buf (r % pipesize) 0 ∷ window buf (u32 (r + 1)) k

abbrev pub contents : Pipe → List ℕ
contents p = window p.buf p.nread (size p)

pub length-window : (buf : List ℕ) (r k : ℕ) → length (window buf r k) ≡ k
length-window buf r zero = refl
length-window buf r (suc k) = ap suc (length-window buf (u32 (r + 1)) k)

-- A byte written behind a window that is not full extends it.
pub window-set :
    (buf : List ℕ) (x k r i : ℕ)
    → length buf ≡ pipesize
    → r < 2 ^ 32
    → k < pipesize
    → i ≡ u32 (r + k) % pipesize
    → window (set buf i x) r (suc k) ≡ window buf r k ++ (x ∷ [])
window-set buf x zero r i l h hk e =
    let same : i ≡ r % pipesize = omega arith in
    rw same (ap (λ y. y ∷ []) (get_or-set_self buf (r % pipesize) x 0 (omega arith)))
window-set buf x (suc k) r i l h hk e =
    ap₂ ◌∷◌ (get_or-set_ne buf i (r % pipesize) x 0 (omega arith))
      (window-set buf x k (u32 (r + 1)) i l (omega arith) (omega arith) (omega arith))
