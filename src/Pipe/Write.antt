-- ===== src/Pipe/Write.antt =====
-- `pipewrite` of xv6/pipe.c: which bytes it puts in the pipe, and when it fails or sleeps.
use oslab.Common.{
  ℕ, suc, ◌+◌, ◌-◌, ◌%◌, ◌<◌, ◌≡◌, refl, ap, ◌∙◌, arith, take-nil, Bool, false, ◌||◌, List, [], ◌∷◌,
  ◌++◌, length, take, drop, leb, ◌==◌, if◌then◌else◌, length-set, Bool-cases, inl, inr,
}
use mathlib.Core.List.{append_assoc, append-nil}
use oslab.Pipe.{Pipe, Outcome, returned, failed, sleeping, pipesize, put, is_full, pipewrite}
use oslab.Pipe.Window.{IsValid, size, contents, window-set}

abbrev pub room : Pipe → ℕ
room p = pipesize - size p

-- One byte more, in a pipe that is not full.
record Put (p p' : Pipe) (x : ℕ) : Type 0 where
  valid : IsValid p'
  bytes : contents p' ≡ contents p ++ (x ∷ [])
  grown : size p' ≡ size p + 1

put-Put : (p : Pipe) (x : ℕ) → IsValid p → is_full p ≡ false → Put p (put p x) x
put-Put p x v more =
    let small : size p < pipesize = ground (arith, v.held, v.nread_fits, v.nwrite_fits) in
    let grown : size (put p x) ≡ suc (size p) = omega (arith, v.nread_fits, v.nwrite_fits) in
    record {
      valid = record {
        storage = ground (arith, v.storage, length-set p.buf (p.nwrite % pipesize) x);
        nread_fits = v.nread_fits;
        nwrite_fits = omega arith;
        held = omega arith;
      };
      bytes = rw grown (
          window-set p.buf x (size p) p.nread (p.nwrite % pipesize) v.storage v.nread_fits small
            (omega (arith, v.nread_fits, v.nwrite_fits)));
      grown = omega arith;
    }

-- What a call of `pipewrite` leaves of the pipe, and how it ends.
pub record Wrote (src : List ℕ) (killed : Bool) (p : Pipe) (r : Outcome × Pipe) : Type 0 where
  pub valid : IsValid r.1
  pub bytes : contents r.1 ≡ contents p ++ take (room p) src
  pub unread : r.1.nread ≡ p.nread
  pub ends : (r.1.readopen ≡ p.readopen) × (r.1.writeopen ≡ p.writeopen)
  pub outcome : r.0 ≡ (
      if leb (length src) (room p)
      then returned
      else if p.readopen == 0 || killed
      then failed
      else sleeping (drop (room p) src))

full-Wrote :
    (x : ℕ) (xs : List ℕ) (killed : Bool) (p : Pipe)
    → IsValid p
    → room p ≡ 0
    → Wrote
        (x ∷ xs)
        killed
        p
        (if p.readopen == 0 || killed then (failed, p) else (sleeping (x ∷ xs), p))
full-Wrote x xs killed p v e = elim (Bool-cases (p.readopen == 0 || killed)) [
  | inl stop ↦ rw stop (record {
    valid = v;
    bytes = rw (e, append-nil);
    unread = refl;
    ends = (refl, refl);
    outcome = rw (e, stop) (ground arith);
  })
  | inr go ↦ rw go (record {
    valid = v;
    bytes = rw (e, append-nil);
    unread = refl;
    ends = (refl, refl);
    outcome = rw (e, go) (ground arith);
  })
]

-- `pipewrite` on a good pipe keeps it good, and appends to the bytes that the pipe holds as many
-- bytes of its source as there is room for. It returns if all of them went in; otherwise it fails if
-- the read end is closed or the process is killed, and if not it sleeps with the bytes that are left.
-- The read counter and the two ends are not changed.
pub pipewrite-Wrote :
    (src : List ℕ) (killed : Bool) (p : Pipe)
    → IsValid p
    → Wrote src killed p (pipewrite src killed p)
unfolding pipewrite
pipewrite-Wrote [] killed p v = record {
  valid = v;
  bytes = rw (take-nil (room p), append-nil);
  unread = refl;
  ends = (refl, refl);
  outcome = ground arith;
}
pipewrite-Wrote (x ∷ xs) killed p v = elim (Bool-cases (is_full p)) [
  | inl full ↦
      let none_left : room p ≡ 0 = ground (arith, v.nread_fits, v.nwrite_fits) in
      rw full (full-Wrote x xs killed p v none_left)
  | inr more ↦
      let q = put-Put p x v more in
      let ih = pipewrite-Wrote xs killed (put p x) q.valid in
      let some_left : room p ≡ suc (room (put p x)) =
        omega (arith, q.grown, q.valid.held, v.nread_fits, v.nwrite_fits) in
      rw more (record {
        valid = ih.valid;
        bytes = rw some_left (
            ih.bytes
            ∙ ap (λ ys. ys ++ take (room (put p x)) xs) q.bytes
            ∙ append_assoc (contents p) (x ∷ []) (take (room (put p x)) xs));
        unread = ih.unread;
        ends = ih.ends;
        outcome = rw some_left (ih.outcome ∙ ground arith);
      })
]
