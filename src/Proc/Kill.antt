-- ===== src/Proc/Kill.antt =====
-- `kill` of xv6/proc.c: which process it marks, and the mark that a pid of 0 leaves on a free slot.
use oslab.Common.{
  ℕ, ◌<◌, ◌≡◌, ◌≢◌, ◌⊎◌, ◌∙◌, refl, ap, subst, arith, Bool, true, false, Option, none, some, ◌==◌,
  if◌then◌else◌, Bool-cases, inl, inr, ℕ_discrete, dec_lt, ==_refl, ==_ne,
}
use oslab.Proc.{nproc, State, Proc, Table, put, is_sleeping, is_alive, scan, kill, fork, is_unused}
use oslab.Proc.Scan.{Scanned, scan-Scanned}
use oslab.Proc.Fork.{IsFirst, fork-Forked, live-apart, IsFirst-unique}
use oslab.Proc.Invariant.{IsTree, Keeps, put-IsTree, put-cases, is_sleeping-eq}

-- The process after `kill`.
abbrev pub marked : Proc → Proc
marked p = record p { killed = 1; state = if is_sleeping p.state then State.runnable else p.state }

-- The ends of `kill`.
pub data Kills (pid : ℕ) (t : Table) : Bool × Table → Type 0 where
  marks :
      (i : ℕ)
      → i < nproc
      → (t.proc i).pid ≡ pid
      → ((j : ℕ) → j < i → (t.proc j).pid ≢ pid)
      → Kills pid t (true, put t i (marked (t.proc i)))
  no_process : ((j : ℕ) → j < nproc → (t.proc j).pid ≢ pid) → Kills pid t (false, t)

-- `kill` returns 0 exactly when some slot has the pid; then it marks the first such slot as killed and
-- makes it runnable if it sleeps. Otherwise it returns -1 and changes nothing.
pub kill-Kills : (pid : ℕ) (t : Table) → Kills pid t (kill pid t)
unfolding kill
kill-Kills pid t =
    go (scan (λ p. p.pid == pid) nproc 0 t) (scan-Scanned (λ p. p.pid == pid) nproc 0 nproc t refl)
  where
    differs : (a : ℕ) → (a == pid) ≡ false → a ≢ pid
    differs a h e = ground arith

    go :
        (r : Option ℕ)
        → Scanned (λ p. p.pid == pid) 0 nproc t r
        → Kills pid t (elim r [ none ↦ (false, t) | some i ↦ (true, put t i (marked (t.proc i))) ])
    go none h = no_process (λ j lt. differs (t.proc j).pid (h j (omega arith) lt))
    go (some i) h =
        marks i h.1 (ground (arith, h.2)) (λ j lt. differs (t.proc j).pid (h.3 j (omega arith) lt))

marked-Keeps : (i : ℕ) (p : Proc) → Keeps i p (marked p)
marked-Keeps i p = elim (Bool-cases (is_sleeping p.state)) [
  | inl e ↦
      let s = is_sleeping-eq p.state e in
      rw s (record { parent = refl; alive = refl; zombie = refl }, λ _. refl)
  | inr e ↦ rw e (record { parent = refl; alive = refl; zombie = refl }, λ _. rw e refl)
]

Kills-IsTree : (pid : ℕ) (t : Table) (r : Bool × Table) → Kills pid t r → IsTree t → IsTree r.1
Kills-IsTree pid t r (marks i lt e first) =
    put-IsTree t i (marked (t.proc i)) (marked-Keeps i (t.proc i))
Kills-IsTree pid t r (no_process _) = λ h. h

pub kill-IsTree : (pid : ℕ) (t : Table) → IsTree t → IsTree (kill pid t).1
kill-IsTree pid t = Kills-IsTree pid t (kill pid t) (kill-Kills pid t)

Kills-running :
    (pid : ℕ) (t : Table) (r : Bool × Table)
    → Kills pid t r
    → (j : ℕ) → (t.proc j).state ≡ State.running
    → (r.1.proc j).state ≡ State.running
Kills-running pid t r (marks i lt e first) =
    put-cases t i (marked (t.proc i))
      (λ j p. (t.proc j).state ≡ State.running → p.state ≡ State.running) (λ run. rw run refl)
      (λ j _ run. run)
Kills-running pid t r (no_process _) = λ j run. run

pub kill-running :
    (pid : ℕ) (t : Table) (j : ℕ)
    → (t.proc j).state ≡ State.running
    → ((kill pid t).1.proc j).state ≡ State.running
kill-running pid t = Kills-running pid t (kill pid t) (kill-Kills pid t)

-- A free slot keeps pid 0 between processes, so `kill 0` finds it.
Kills-free :
    (t : Table) (i : ℕ) (r : Bool × Table)
    → IsFirst t i
    → (t.proc i).pid ≡ 0
    → ((j : ℕ) → j < i → (t.proc j).pid ≢ 0)
    → Kills 0 t r
    → (r.0 ≡ true) × (r.1 ≡ put t i (marked (t.proc i)))
Kills-free t i r f e first (marks k lt e' first') = elim (ℕ_discrete k i) [
  | yes same ↦ (refl, rw same refl)
  | no diff ↦ elim (compare_cases k i diff) [
    | inl below ↦ absurd (first k below e')
    | inr above ↦ absurd (first' i above e)
  ]
]
  where
    compare_cases : (a b : ℕ) → a ≢ b → (a < b) ⊎ (b < a)
    compare_cases a b ne = elim (dec_lt a b) [ yes l ↦ inl l | no n ↦ inr (omega arith) ]
Kills-free t i r f e first (no_process none_has) = absurd (none_has i f.in_range e)

marked-IsFirst : (t : Table) (i : ℕ) → IsFirst t i → IsFirst (put t i (marked (t.proc i))) i
marked-IsFirst t i f = record {
  in_range = f.in_range;
  unused = rw (==_refl i, f.unused) refl;
  first = λ j lt. rw (==_ne i j (λ e. absurd (omega arith))) (f.first j lt);
}

-- The child of a `fork` keeps the mark that its slot had.
fork-killed :
    (me kstack pgdir i : ℕ) (t : Table)
    → IsFirst t i
    → is_alive (t.proc me).state ≡ true
    → 0 < kstack
    → 0 < pgdir
    → ((fork me kstack pgdir t).0 ≡ some t.nextpid)
      × (((fork me kstack pgdir t).1.proc i).killed ≡ (t.proc i).killed)
fork-killed me kstack pgdir i t f live stack table = elim (fork-Forked me kstack pgdir t live) [
  | inl (cannot, _, _) ↦ absurd (elim cannot [
    | inl full ↦
        let busy = full i f.in_range in
        let free : is_unused (t.proc i).state ≡ true = rw f.unused refl in cc
    | inr (inl z) ↦ omega arith
    | inr (inr z) ↦ omega arith
  ])
  | inr (k, r, forked) ↦
      let at = IsFirst-unique t k i forked.first f in
      (
        r,
        subst (λ j. ((fork me kstack pgdir t).1.proc j).killed ≡ (t.proc j).killed) at
            (ap Proc.killed forked.child),
      )
]

-- A `kill` of pid 0 succeeds when the first unused slot has pid 0, as one that `wait` has freed, and
-- no slot before it has; the child of the next `fork` that succeeds is then born killed.
pub kill-fork :
    (me kstack pgdir i : ℕ) (t : Table)
    → IsFirst t i
    → (t.proc i).pid ≡ 0
    → ((j : ℕ) → j < i → (t.proc j).pid ≢ 0)
    → is_alive (t.proc me).state ≡ true
    → 0 < kstack
    → 0 < pgdir
    → ((kill 0 t).0 ≡ true)
      × ((fork me kstack pgdir (kill 0 t).1).0 ≡ some t.nextpid)
      × (((fork me kstack pgdir (kill 0 t).1).1.proc i).killed ≡ 1)
kill-fork me kstack pgdir i t f e first live stack table =
    let u = put t i (marked (t.proc i)) in
    let live' : is_alive (u.proc me).state ≡ true =
      rw (==_ne i me (live-apart t i me f live)) live in
    let (found, same) = Kills-free t i (kill 0 t) f e first (kill-Kills 0 t) in
    let (r, k) = fork-killed me kstack pgdir i u (marked-IsFirst t i f) live' stack table in
    (found, rw same r, rw same (k ∙ rw (==_refl i) refl))
