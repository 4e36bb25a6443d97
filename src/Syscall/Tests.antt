-- ===== src/Syscall/Tests.antt =====
-- A process of 64 bytes with its stack at 32: the arguments 40 and 3, and the string "hi" at 40.
use oslab.Common.{◌≡◌, refl, arith, some, ◌==◌, if◌then◌else◌}
use oslab.Common.Int.{pos}
use oslab.Syscall.{Caller, argptr, argstr, argint, fetchint, fetchstr, string_from}
use oslab.Syscall.Args.{IsBlock, argptr-IsBlock, IsString, argstr-IsString}

abbrev caller : Caller
caller = record {
  sz = 64;
  esp = 32;
  mem = λ i.
      if i == 36
      then 40
      else if i == 40
      then 104
      else if i == 41
      then 105
      else if i == 44
      then 3
      else 0;
}

argstr_test : argstr 0 caller ≡ some (40, 2)
unfolding argstr argint fetchint fetchstr string_from
argstr_test = refl

argptr-IsBlock_example : IsBlock 0 24 caller (argptr 0 (pos 24) caller)
argptr-IsBlock_example = argptr-IsBlock 0 24 caller (omega arith) (omega arith)

argstr-IsString_example : IsString 0 caller (argstr 0 caller)
argstr-IsString_example = argstr-IsString 0 caller
