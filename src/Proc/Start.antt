-- ===== src/Proc/Start.antt =====
-- The first process of xv6/proc.c, and every state that is reached from it.
use oslab.Common.{
  ℕ, ◌≡◌, ◌≢◌, ◌∙◌, refl, sym, ap, subst, arith, true, false, none, some, ◌==◌, if◌then◌else◌,
  Bool-cases, inl, inr, ℕ_discrete, ==_ne,
}
use mathlib.Core.Option.{some-injective}
use oslab.Proc.{
  State, Table, boot, userinit, first_process, allocproc, scan, put, embryo_in, set_state,
}
use oslab.Proc.Invariant.{IsTree, is_used, Keeps, Keeps-IsTree, refl-Same}
use oslab.Proc.System.{Machine, Reach, here, next}
use oslab.Proc.Safety.{IsSound, Step-IsSound}

-- The table after `userinit`, with no process running.
abbrev pub started : Table → Machine
started t = record { table = t; cpu = λ c. none }

abbrev first : ℕ → ℕ → Table
first kstack pgdir = record {
  proc = λ i.
      if 0 == i
      then record (boot.proc 0) {
        kstack = kstack;
        pgdir = pgdir;
        sz = 4096;
        state = State.runnable;
        pid = 1;
        scheduler = 4294967295;
      }
      else boot.proc i;
  nextpid = 2;
  initproc = 0;
}

first-IsTree : (kstack pgdir : ℕ) → IsTree (first kstack pgdir)
first-IsTree kstack pgdir =
    let others : (j : ℕ) → j ≢ 0 → (first kstack pgdir).proc j ≡ boot.proc j =
      λ j ne. rw (==_ne 0 j (λ e. ne (sym e))) refl in
    record {
      init_slot = omega arith;
      init_alive = refl;
      init_root = refl;
      parent =
          λ j lt ne used. let no : is_used (boot.proc j) ≡ true = rw (others j ne) at used in cc;
      awake = λ j q lt z e. elim (ℕ_discrete j 0) [
        | yes is ↦ let no : false ≡ true = rw is at z in cc
        | no ne ↦ let no : false ≡ true = rw (others j ne) at z in cc
      ];
    }

-- The table after the first `allocproc`.
abbrev given : ℕ → Table
given kstack = put (embryo_in boot 0) 0 (record ((embryo_in boot 0).proc 0) { kstack = kstack })

abbrev made : ℕ → ℕ → Table
made kstack pgdir =
    record (put (given kstack) 0
      (record ((given kstack).proc 0) { pgdir = pgdir; sz = 4096; state = State.runnable })) {
        initproc = 0;
      }

allocproc-boot :
    (kstack : ℕ) → (kstack == 0) ≡ false → allocproc kstack boot ≡ (some 0, given kstack)
unfolding allocproc scan
allocproc-boot kstack e = rw e refl

allocproc-boot_zero :
    (kstack : ℕ)
    → (kstack == 0) ≡ true
    → allocproc kstack boot ≡ (none, set_state (embryo_in boot 0) 0 State.unused)
unfolding allocproc scan
allocproc-boot_zero kstack e = rw e refl

userinit-boot :
    (kstack pgdir : ℕ) (t : Table) → userinit kstack pgdir boot ≡ some t → made kstack pgdir ≡ t
unfolding userinit
userinit-boot kstack pgdir t e = elim (Bool-cases (kstack == 0)) [
  | inl z ↦
      let no : none ≡ some t = sym (ap (first_process pgdir) (allocproc-boot_zero kstack z)) ∙ e in
      cc
  | inr stack ↦
      let e' : first_process pgdir (some 0, given kstack) ≡ some t =
        sym (ap (first_process pgdir) (allocproc-boot kstack stack)) ∙ e in
      elim (Bool-cases (pgdir == 0)) [
        | inl z ↦ let no : none ≡ some t = rw z at e' in cc
        | inr table ↦ some-injective (made kstack pgdir) t (rw table at e')
      ]
]

userinit-first :
    (kstack pgdir : ℕ) (t : Table)
    → userinit kstack pgdir boot ≡ some t
    → (t.initproc ≡ 0) × ((j : ℕ) → t.proc j ≡ (first kstack pgdir).proc j)
userinit-first kstack pgdir t e =
    let same = userinit-boot kstack pgdir t e in
    (
      sym (ap Table.initproc same),
      λ j.
          subst (λ (v : Table). v.proc j ≡ (first kstack pgdir).proc j) same
            (elim (ℕ_discrete 0 j) [ yes e' ↦ rw (sym e') refl | no ne ↦ rw (==_ne 0 j ne) refl ]),
    )

userinit-IsTree : (kstack pgdir : ℕ) (t : Table) → userinit kstack pgdir boot ≡ some t → IsTree t
userinit-IsTree kstack pgdir t e =
    let (init, same) = userinit-first kstack pgdir t e in
    Keeps-IsTree (first kstack pgdir) t init
      (λ j.
        subst (Keeps j ((first kstack pgdir).proc j)) (sym (same j))
          (refl-Same ((first kstack pgdir).proc j), λ w. w))
      (first-IsTree kstack pgdir)

-- In every state that the calls reach, in any order and on any number of CPUs, once `userinit` has
-- made the first process from the zeroed table: init is alive; every other process that is alive or
-- has exited has a parent that is alive and is not itself; no process sleeps in `wait` while a child of
-- it has exited; each process that a CPU runs is marked RUNNING; and no two CPUs run the same process.
pub Reach-IsSound :
    (kstack pgdir : ℕ) (t : Table) (m : Machine)
    → userinit kstack pgdir boot ≡ some t
    → Reach (started t) m
    → IsSound m
Reach-IsSound kstack pgdir t m e here = record {
  tree = userinit-IsTree kstack pgdir t e;
  cpus = record { slot = λ c i at. cc; running = λ c i at. cc; once = λ c d i at at'. cc };
}
Reach-IsSound kstack pgdir t m e (next r s) = Step-IsSound s (Reach-IsSound kstack pgdir t _ e r)
