-- ===== src/Pipe/Tests.antt =====
-- Runs of the pipe of xv6/pipe.c, and its theorems there.
use oslab.Common.{ℕ, ◌≡◌, refl, arith, true, false, List, [], ◌∷◌, ◌++◌, replicate}
use oslab.Pipe.{Pipe, failed, sleeping, pipe_init, pipewrite, piperead}
use oslab.Pipe.Window.{IsValid, contents}
use oslab.Pipe.Write.{Wrote, pipewrite-Wrote}
use oslab.Pipe.Read.{Did, piperead-Did}
use oslab.Pipe.Stream.{run, writes, reads, run-order}

abbrev page : List ℕ
page = replicate 512 0

-- A pipe with one byte of room, its write counter about to wrap.
abbrev almost : Pipe
almost = record {
  buf = page;
  nread = 0xffff_fe00;
  nwrite = 0xffff_ffff;
  readopen = 1;
  writeopen = 1;
}

almost-IsValid : IsValid almost
almost-IsValid = record {
  storage = refl;
  nread_fits = omega arith;
  nwrite_fits = omega arith;
  held = omega arith;
}

write_wraps : (pipewrite (7 ∷ 8 ∷ []) false almost).0 ≡ sleeping (8 ∷ [])
unfolding pipewrite
write_wraps = refl

write_killed : (pipewrite (7 ∷ 8 ∷ []) true almost).0 ≡ failed
unfolding pipewrite
write_killed = refl

read_waits : (piperead 4 false (pipe_init page)).0 ≡ sleeping []
unfolding piperead pipe_init
read_waits = refl

pipewrite-Wrote_example : Wrote (7 ∷ 8 ∷ []) false almost (pipewrite (7 ∷ 8 ∷ []) false almost)
pipewrite-Wrote_example = pipewrite-Wrote (7 ∷ 8 ∷ []) false almost almost-IsValid

piperead-Did_example : Did 3 false almost (piperead 3 false almost)
piperead-Did_example = piperead-Did 3 false almost almost-IsValid

run-order_example :
    let s =
      run
        (record { pipe = pipe_init page; written = []; read = [] })
        (writes (1 ∷ 2 ∷ 3 ∷ []) false ∷ reads 2 false ∷ []) in
    s.read ++ contents s.pipe ≡ s.written
run-order_example = run-order page (writes (1 ∷ 2 ∷ 3 ∷ []) false ∷ reads 2 false ∷ []) refl
