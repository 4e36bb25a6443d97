-- ===== src/Pipe/Read.antt =====
-- `piperead` of xv6/pipe.c: which bytes it takes from the pipe, and when it fails or sleeps.
use oslab.Common.{
  ℕ, zero, suc, ◌+◌, ◌≡◌, refl, arith, Bool, true, false, ◌&&◌, List, [], length, take, drop, leb,
  ◌==◌, if◌then◌else◌, Bool-cases, inl, inr,
}
use oslab.Pipe.{Pipe, Outcome, returned, failed, sleeping, u32, read_loop, piperead}
use oslab.Pipe.Window.{IsValid, size, contents, length-window}

-- What the copying loop leaves when it may take `n` bytes.
record Took (n : ℕ) (p : Pipe) (r : List ℕ × Pipe) : Type 0 where
  valid : IsValid r.1
  bytes : r.0 ≡ take n (contents p)
  rest : contents r.1 ≡ drop n (contents p)
  unwritten : r.1.nwrite ≡ p.nwrite
  ends : (r.1.readopen ≡ p.readopen) × (r.1.writeopen ≡ p.writeopen)

drop-nil {ℓ} : (A : Type ℓ) (n : ℕ) → drop {A = A} n [] ≡ []
drop-nil A zero = refl
drop-nil A (suc n) = refl

-- The pipe when one byte has been taken.
abbrev taken : Pipe → Pipe
taken p = record p { nread = u32 (p.nread + 1) }

module _ (p : Pipe) (v : IsValid p) where
  size_empty : (p.nread == p.nwrite) ≡ true → size p ≡ 0
  size_empty e = ground (arith, v.nread_fits, v.nwrite_fits)

  size_more : (p.nread == p.nwrite) ≡ false → size p ≡ suc (size (taken p))
  size_more e = ground (arith, v.nread_fits, v.nwrite_fits)

  taken-IsValid : (p.nread == p.nwrite) ≡ false → IsValid (taken p)
  taken-IsValid e = record {
    storage = v.storage;
    nread_fits = omega arith;
    nwrite_fits = v.nwrite_fits;
    held = omega (arith, v.held, size_more e);
  }

read_loop-Took : (n : ℕ) (p : Pipe) → IsValid p → Took n p (read_loop n p)
unfolding read_loop
read_loop-Took zero p v = record {
  valid = v;
  bytes = refl;
  rest = refl;
  unwritten = refl;
  ends = (refl, refl);
}
read_loop-Took (suc n) p v = elim (Bool-cases (p.nread == p.nwrite)) [
  | inl empty ↦
      let none : contents p ≡ [] = rw (size_empty p v empty) in
      rw empty (record {
        valid = v;
        bytes = rw none;
        rest = rw none;
        unwritten = refl;
        ends = (refl, refl);
      })
  | inr more ↦
      let ih = read_loop-Took n (taken p) (taken-IsValid p v more) in
      let e : size p ≡ suc (size (taken p)) = size_more p v more in
      rw more (record {
        valid = ih.valid;
        bytes = rw (e, ih.bytes);
        rest = rw (e, ih.rest);
        unwritten = ih.unwritten;
        ends = ih.ends;
      })
]

-- Whether a reader has to wait: the pipe is empty and its write end is open.
abbrev pub waits : Pipe → Bool
waits p = leb (length (contents p)) 0 && leb 1 p.writeopen

-- What a call of `piperead` leaves of the pipe, how it ends, and the bytes that it copies.
pub record Did (n : ℕ) (killed : Bool) (p : Pipe) (r : Outcome × List ℕ × Pipe) : Type 0 where
  pub valid : IsValid r.2
  pub copied : r.1 ≡ (if waits p then [] else take n (contents p))
  pub rest : contents r.2 ≡ (if waits p then contents p else drop n (contents p))
  pub unwritten : r.2.nwrite ≡ p.nwrite
  pub ends : (r.2.readopen ≡ p.readopen) × (r.2.writeopen ≡ p.writeopen)
  pub outcome : r.0 ≡ (if waits p then (if killed then failed else sleeping []) else returned)

-- The test of the code's loop is that of the contents.
waits_test :
    (p : Pipe)
    → IsValid p
    → (p.nread == p.nwrite && (if p.writeopen == 0 then false else true)) ≡ waits p
waits_test p v = ground (arith, length-window p.buf p.nread (size p), v.nread_fits, v.nwrite_fits)

waiting-Did :
    (n : ℕ) (killed : Bool) (p : Pipe)
    → IsValid p
    → waits p ≡ true
    → Did n killed p (if killed then (failed, [], p) else (sleeping [], [], p))
waiting-Did n true p v wait = record {
  valid = v;
  copied = rw wait;
  rest = rw wait;
  unwritten = refl;
  ends = (refl, refl);
  outcome = rw wait;
}
waiting-Did n false p v wait = record {
  valid = v;
  copied = rw wait;
  rest = rw wait;
  unwritten = refl;
  ends = (refl, refl);
  outcome = rw wait;
}

-- `piperead` for at most `n` bytes on a good pipe keeps it good. If the pipe is empty and its write
-- end is open it copies nothing and leaves the pipe's bytes: it fails if the process is killed, and
-- sleeps if not. Otherwise it returns the oldest bytes, `n` or as many as there are, and the pipe
-- holds the rest. The write counter and the two ends are not changed.
pub piperead-Did :
    (n : ℕ) (killed : Bool) (p : Pipe) → IsValid p → Did n killed p (piperead n killed p)
unfolding piperead
piperead-Did n killed p v = rw (waits_test p v) (elim (Bool-cases (waits p)) [
  | inl wait ↦ rw wait (waiting-Did n killed p v wait)
  | inr go ↦ rw go (
      let t = read_loop-Took n p v in
      record {
        valid = t.valid;
        copied = rw go t.bytes;
        rest = rw go t.rest;
        unwritten = t.unwritten;
        ends = t.ends;
        outcome = rw go;
      })
])
