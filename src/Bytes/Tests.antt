-- ===== src/Bytes/Tests.antt =====
-- Concrete calls of xv6/string.c.
use oslab.Common.{◌≡◌, ◌↔◌, refl, arith, inl, ◌==◌, if◌then◌else◌}
use oslab.Common.Int.{pos}
use oslab.Bytes.{Memory, memmove, move_down, move_up, strncmp, safestrcpy, safe_loop}
use oslab.Bytes.Move.{Copied, Frames, memmove-Copied}
use oslab.Bytes.Compare.{SameString, strncmp-SameString}
use oslab.Bytes.Copy.{IsCut, safestrcpy-IsCut}

-- Byte `a` is `a`, but address 14 holds 0.
abbrev memory : Memory
memory = λ a. if a == 14 then 0 else a

memmove-Copied_example :
    Copied memory (memmove memory 12 10 6) 12 10 6 × Frames memory (memmove memory 12 10 6) 12 6
memmove-Copied_example = memmove-Copied memory 12 10 6

moved : (memmove memory 12 10 6 12 ≡ 10) × (memmove memory 12 10 6 17 ≡ 15)
unfolding memmove move_down move_up
moved = (refl, refl)

strncmp-SameString_example : (strncmp memory 10 20 3 ≡ pos 0) ↔ SameString memory 10 20 3
strncmp-SameString_example = strncmp-SameString memory 10 20 3

safestrcpy-IsCut_example :
    IsCut memory (safestrcpy memory 30 10 8) 30 10 7
    × Frames memory (safestrcpy memory 30 10 8) 30 8
safestrcpy-IsCut_example = safestrcpy-IsCut memory 30 10 7 (inl (omega arith))

copied : (safestrcpy memory 30 10 8 33 ≡ 13) × (safestrcpy memory 30 10 3 32 ≡ 0)
unfolding safestrcpy safe_loop
copied = (refl, refl)
