-- ===== src/Syscall.antt =====
-- xv6/syscall.c: the arguments of a system call and the choice of its function. A `uint` wraps at 2 ^ 32;
-- the memory of the process is a function from addresses to bytes.
pub mod Args
mod Tests
use oslab.Common.{
  ℕ, zero, suc, ◌+◌, ◌-◌, ◌*◌, ◌%◌, ◌^◌, Bool, true, false, ◌&&◌, ◌||◌, Option, none, some, ◌==◌,
  ltb, leb, if◌then◌else◌,
}
use oslab.Common.Int.{ℤ, pos, negsuc}
use oslab.Fs.Inode.{uint_at}

abbrev pub uint_max : ℕ
uint_max = 2 ^ 32

-- What the calls read of `struct proc` and its trap frame.
pub record Caller : Type 0 where
  pub sz : ℕ
  pub esp : ℕ
  pub mem : ℕ → ℕ

-- `fetchint`, the `int` as its 32 bits; `none` is -1.
unfoldable pub fetchint : ℕ → Caller → Option ℕ
fetchint addr p =
    if leb p.sz addr || ltb p.sz ((addr + 4) % uint_max) then none else some (uint_at p.mem addr)

-- The loop of `fetchstr` from `s` on, with the bytes left before `ep`.
unfoldable pub string_from : ℕ → ℕ → ℕ → Caller → Option ℕ
string_from zero s addr p = none
string_from (suc rounds) s addr p =
    let rest = string_from rounds (suc s) addr p in if p.mem s == 0 then some (s - addr) else rest

-- `fetchstr`: the length of the string at `addr`, which is what it stores in `*pp`.
unfoldable pub fetchstr : ℕ → Caller → Option ℕ
unfolding string_from
fetchstr addr p = if leb p.sz addr then none else string_from (p.sz - addr) addr addr p

-- `argint`
unfoldable pub argint : ℕ → Caller → Option ℕ
unfolding fetchint
argint n p = fetchint ((p.esp + 4 + 4 * n) % uint_max) p

-- `argptr`: the pointer
unfoldable pub argptr : ℕ → ℤ → Caller → Option ℕ
unfolding argint
argptr n (negsuc k) p = none
argptr n (pos size) p = elim (argint n p) [
  | none ↦ none
  | some i ↦ if leb p.sz i || ltb p.sz ((i + size) % uint_max) then none else some i
]

-- `argstr`: the pointer, and the length that it returns
unfoldable pub argstr : ℕ → Caller → Option (ℕ × ℕ)
unfolding argint fetchstr
argstr n p = elim (argint n p) [
  | none ↦ none
  | some addr ↦ elim (fetchstr addr p) [ none ↦ none | some len ↦ some (addr, len) ]
]

-- The system calls, in the order of their numbers.
pub data Call : Type 0 where
  fork : Call
  exit : Call
  wait : Call
  pipe : Call
  read : Call
  kill : Call
  exec : Call
  fstat : Call
  chdir : Call
  dup : Call
  getpid : Call
  sbrk : Call
  sleep : Call
  uptime : Call
  open_file : Call
  write : Call
  mknod : Call
  unlink : Call
  link : Call
  mkdir : Call
  close : Call
  uthread_init : Call

-- `syscalls`; the array ends behind the last of them, at `nelem`.
abbrev pub syscalls : ℕ → Option Call
syscalls num =
    if num == 1
    then some fork
    else if num == 2
    then some exit
    else if num == 3
    then some wait
    else if num == 4
    then some pipe
    else if num == 5
    then some read
    else if num == 6
    then some kill
    else if num == 7
    then some exec
    else if num == 8
    then some fstat
    else if num == 9
    then some chdir
    else if num == 10
    then some dup
    else if num == 11
    then some getpid
    else if num == 12
    then some sbrk
    else if num == 13
    then some sleep
    else if num == 14
    then some uptime
    else if num == 15
    then some open_file
    else if num == 16
    then some write
    else if num == 17
    then some mknod
    else if num == 18
    then some unlink
    else if num == 19
    then some link
    else if num == 20
    then some mkdir
    else if num == 21
    then some close
    else if num == 22
    then some uthread_init
    else none

abbrev pub nelem : ℕ
nelem = 23

module _ {State : Type 0} (run : Call → State → ℕ × State) where
  -- `syscall`: the register `eax` before, and after with the state that the call leaves; `run` stands
  -- for the functions of the table. A call that is unknown gives -1.
  unfoldable pub syscall : ℕ → State → ℕ × State
  syscall eax s =
      if ltb 0 eax && (ltb eax (2 ^ 31) && ltb eax nelem)
      then elim (syscalls eax) [ none ↦ (uint_max - 1, s) | some call ↦ run call s ]
      else (uint_max - 1, s)
