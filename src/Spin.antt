-- ===== src/Spin.antt =====
-- xv6/spinlock.c: one lock and any number of CPUs, step by step. `xchg` of xv6/x86.h is one step.
pub mod Invariant
pub mod Exclusion
mod Tests
use oslab.Common.{
  ℕ, zero, suc, ◌+◌, ◌-◌, Bool, true, false, not, ◌&&◌, Option, none, some, ◌==◌, if◌then◌else◌,
}

-- Where a CPU is in `acquire` and `release`.
pub data Place : Type 0 where
  outside : Place
  spinning : Place
  got : Place
  holds : Place
  cleared : Place

-- The fields of `struct cpu`, its interrupt flag, and its place.
pub record Cpu : Type 0 where
  pub interrupts : Bool
  pub ncli : ℕ
  pub intena : Bool
  pub place : Place

-- `struct spinlock`
pub record Spinlock : Type 0 where
  pub locked : Bool
  pub cpu : Option ℕ

pub record Machine : Type 0 where
  pub lock : Spinlock
  pub cpus : ℕ → Cpu

abbrev pub put_cpu : Machine → ℕ → Cpu → Machine
put_cpu m c x = record m { cpus = λ i. if i == c then x else m.cpus i }

-- `pushcli`
unfoldable pub pushcli : Cpu → Cpu
pushcli x = record x {
  interrupts = false;
  intena = if x.ncli == 0 then x.interrupts else x.intena;
  ncli = x.ncli + 1;
}

-- `popcli`; `none` is a panic.
unfoldable pub popcli : Cpu → Option Cpu
popcli x =
    if x.interrupts
    then none
    else if x.ncli == 0
    then none
    else some (record x { ncli = x.ncli - 1; interrupts = x.ncli - 1 == 0 && x.intena })

-- `lock->cpu == mycpu()`
abbrev pub is_mine : Option ℕ → ℕ → Bool
is_mine none c = false
is_mine (some d) c = d == c

-- `holding`
unfoldable pub holding : ℕ → Spinlock → Bool
holding c lk = lk.locked && is_mine lk.cpu c

-- `acquire` up to its loop; `none` is the panic.
unfoldable pub acquire_start : ℕ → Machine → Option Machine
unfolding pushcli
acquire_start c m =
    if holding c m.lock
    then none
    else some (put_cpu m c (record (pushcli (m.cpus c)) { place = spinning }))

-- One round of the loop of `acquire`.
unfoldable pub acquire_try : ℕ → Machine → Machine
acquire_try c m =
    put_cpu (record m { lock = record m.lock { locked = true } }) c
      (record (m.cpus c) { place = if m.lock.locked then spinning else got })

-- `acquire` behind its loop.
unfoldable pub acquire_end : ℕ → Machine → Machine
acquire_end c m =
    put_cpu (record m { lock = record m.lock { cpu = some c } }) c
      (record (m.cpus c) { place = holds })

-- `release` up to the store of 0; `none` is the panic.
unfoldable pub release_start : ℕ → Machine → Option Machine
release_start c m =
    if not (holding c m.lock)
    then none
    else some (
        put_cpu (record m { lock = record m.lock { cpu = none } }) c
          (record (m.cpus c) { place = cleared }))

-- `release` from the store of 0 on; `none` is the panic in `popcli`.
unfoldable pub release_end : ℕ → Machine → Option Machine
release_end c m = elim (popcli (m.cpus c)) [
  | none ↦ none
  | some x ↦ some (
      put_cpu (record m { lock = record m.lock { locked = false } }) c
        (record x { place = outside }))
]
