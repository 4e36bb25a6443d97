-- ===== src/Pipe.antt =====
-- xv6/pipe.c: a circular buffer between a writer and a reader, with 32-bit counters.
-- Each call stands for one critical section of `p->lock`; a call that sleeps gives what is left to
-- do, and is resumed by the same function when it wakes up, which may be at any time. The calls of
-- `wakeup` are not results of the functions, since the outcome tells them: `pipewrite` wakes the
-- readers when it returns its count or sleeps, `piperead` the writers when it returns its count,
-- `pipeclose` the other end.
pub mod Window
pub mod Write
pub mod Read
pub mod Stream
mod Tests
use oslab.Common.{
  ℕ, zero, suc, ◌+◌, ◌%◌, ◌^◌, Bool, true, false, ◌&&◌, ◌||◌, Option, none, some, List, [], ◌∷◌,
  ◌==◌, if◌then◌else◌, get_or, set, replicate,
}

abbrev pub pipesize : ℕ
pipesize = 512

-- `uint` arithmetic.
abbrev pub u32 : ℕ → ℕ
u32 n = n % 2 ^ 32

-- `struct pipe` without its lock; `buf` is its array `data`.
pub record Pipe : Type 0 where
  pub buf : List ℕ
  pub nread : ℕ
  pub nwrite : ℕ
  pub readopen : ℕ
  pub writeopen : ℕ

-- The fields that `pipealloc` sets in a page from `kalloc`, whose bytes are `page`.
unfoldable pub pipe_init : List ℕ → Pipe
pipe_init page = record { buf = page; nread = 0; nwrite = 0; readopen = 1; writeopen = 1 }

-- What a call comes to: it returns its count, returns -1, or sleeps.
pub data Outcome : Type 0 where
  returned : Outcome
  failed : Outcome
  sleeping : List ℕ → Outcome

-- `p->data[p->nwrite++ % PIPESIZE] = x`
abbrev pub put : Pipe → ℕ → Pipe
put p x = record p { buf = set p.buf (p.nwrite % pipesize) x; nwrite = u32 (p.nwrite + 1) }

abbrev pub is_full : Pipe → Bool
is_full p = p.nwrite == u32 (p.nread + pipesize)

-- The loop of `pipewrite` with the bytes that are still to be written; `killed` is the flag of the
-- process. A sleeping writer starts again at the test of the inner loop.
unfoldable pub pipewrite : List ℕ → Bool → Pipe → Outcome × Pipe
pipewrite [] killed p = (returned, p)
pipewrite (x ∷ xs) killed p =
    let rest = pipewrite xs killed (put p x) in
    if is_full p
    then (if p.readopen == 0 || killed then (failed, p) else (sleeping (x ∷ xs), p))
    else rest

-- The copying loop of `piperead`, for at most `n` bytes: the bytes read, and the pipe.
unfoldable pub read_loop : ℕ → Pipe → List ℕ × Pipe
read_loop zero p = ([], p)
read_loop (suc n) p =
    let (xs, p') = read_loop n (record p { nread = u32 (p.nread + 1) }) in
    if p.nread == p.nwrite then ([], p) else (get_or p.buf (p.nread % pipesize) 0 ∷ xs, p')

-- `piperead`: the outcome, the bytes copied to `addr`, and the pipe.
unfoldable pub piperead : ℕ → Bool → Pipe → Outcome × List ℕ × Pipe
unfolding read_loop
piperead n killed p =
    if p.nread == p.nwrite && (if p.writeopen == 0 then false else true)
    then (if killed then (failed, [], p) else (sleeping [], [], p))
    else (let (xs, p') = read_loop n p in (returned, xs, p'))

-- `pipeclose`: the pipe, or `none` when its page is freed.
pub pipeclose : Bool → Pipe → Option Pipe
pipeclose writable p =
    let p' = if writable then record p { writeopen = 0 } else record p { readopen = 0 } in
    if p'.readopen == 0 && p'.writeopen == 0 then none else some p'
