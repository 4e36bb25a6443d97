-- ===== src/Pipe/Stream.antt =====
-- The calls of a reader and a writer on one pipe of xv6/pipe.c, in any order.
use oslab.Common.{
  ℕ, ◌≡◌, refl, ap, ap₂, sym, ◌∙◌, arith, Bool, List, [], ◌∷◌, ◌++◌, length, take, drop,
  take-append-drop, if◌then◌else◌, Bool-cases, inl, inr,
}
use mathlib.Core.List.{append_assoc}
use oslab.Pipe.{Pipe, Outcome, pipewrite, piperead, pipe_init, pipesize}
use oslab.Pipe.Window.{IsValid, contents}
use oslab.Pipe.Write.{room, pipewrite-Wrote}
use oslab.Pipe.Read.{Did, waits, piperead-Did}

-- A call, or the resumption of a call that slept.
pub data Call : Type 0 where
  writes : List ℕ → Bool → Call
  reads : ℕ → Bool → Call

-- The pipe, all bytes that writers put in so far, and all bytes that readers took out.
pub record Stream : Type 0 where
  pub pipe : Pipe
  pub written : List ℕ
  pub read : List ℕ

pub step : Stream → Call → Stream
step s (writes src killed) = record {
  pipe = (pipewrite src killed s.pipe).1;
  written = s.written ++ take (room s.pipe) src;
  read = s.read;
}
step s (reads n killed) =
    let (_, xs, p) = piperead n killed s.pipe in
    record { pipe = p; written = s.written; read = s.read ++ xs }

pub run : Stream → List Call → Stream
unfolding step
run s [] = s
run s (c ∷ cs) = run (step s c) cs

pub record IsFifo (s : Stream) : Type 0 where
  pub valid : IsValid s.pipe
  pub order : s.read ++ contents s.pipe ≡ s.written

Did-append :
    (n : ℕ) (killed : Bool) (p : Pipe) (r : Outcome × List ℕ × Pipe)
    → Did n killed p r
    → r.1 ++ contents r.2 ≡ contents p
Did-append n killed p r d = elim (Bool-cases (waits p)) [
  | inl wait ↦
      ap₂ ◌++◌ (d.copied ∙ ap (λ b. if b then [] else take n (contents p)) wait)
        (d.rest ∙ ap (λ b. if b then contents p else drop n (contents p)) wait)
  | inr go ↦
      ap₂ ◌++◌ (d.copied ∙ ap (λ b. if b then [] else take n (contents p)) go)
        (d.rest ∙ ap (λ b. if b then contents p else drop n (contents p)) go)
      ∙ take-append-drop n (contents p)
]

pipe_init-IsValid : (page : List ℕ) → length page ≡ pipesize → IsValid (pipe_init page)
unfolding pipe_init
pipe_init-IsValid page h = record {
  storage = h;
  nread_fits = omega arith;
  nwrite_fits = omega arith;
  held = omega arith;
}

pipe_init-contents : (page : List ℕ) → contents (pipe_init page) ≡ []
unfolding pipe_init
pipe_init-contents page = refl

step-IsFifo : (s : Stream) (c : Call) → IsFifo s → IsFifo (step s c)
unfolding step
step-IsFifo s (writes src killed) v =
    let w = pipewrite-Wrote src killed s.pipe v.valid in
    record {
      valid = w.valid;
      order =
          ap (λ xs. s.read ++ xs) w.bytes
          ∙ sym (append_assoc s.read (contents s.pipe) (take (room s.pipe) src))
          ∙ ap (λ xs. xs ++ take (room s.pipe) src) v.order;
    }
step-IsFifo s (reads n killed) v =
    let d = piperead-Did n killed s.pipe v.valid in
    record {
      valid = d.valid;
      order =
          append_assoc s.read (piperead n killed s.pipe).1 (contents (piperead n killed s.pipe).2)
          ∙ ap (λ xs. s.read ++ xs) (Did-append n killed s.pipe (piperead n killed s.pipe) d)
          ∙ v.order;
    }

run-IsFifo : (s : Stream) (cs : List Call) → IsFifo s → IsFifo (run s cs)
unfolding run
run-IsFifo s [] v = v
run-IsFifo s (c ∷ cs) v = run-IsFifo (step s c) cs (step-IsFifo s c v)

-- A pipe loses, doubles and reorders nothing. Start from a pipe as `pipealloc` sets it up, in a page
-- of which 512 bytes are the array; let writers and readers call `pipewrite` and `piperead`, and
-- resume after sleeping, in any order and for any numbers of bytes, also across the wrap of the
-- 32-bit counters. Then the bytes read so far, followed by those in the pipe, are the bytes that
-- were written.
pub run-order :
    (page : List ℕ) (cs : List Call)
    → length page ≡ pipesize
    → let s = run (record { pipe = pipe_init page; written = []; read = [] }) cs in
      s.read ++ contents s.pipe ≡ s.written
run-order page cs h =
    (run-IsFifo (record { pipe = pipe_init page; written = []; read = [] }) cs
      (record { valid = pipe_init-IsValid page h; order = pipe_init-contents page })).order
