-- ===== src/Log/Frame.antt =====
-- What a commit of xv6/log.c leaves in `struct log`: everything but `n`, which is 0 afterwards.
use oslab.Common.{ℕ, zero, suc, ◌+◌, ◌≡◌, refl, ap, arith, Bool-cases, inl, inr, ltb, ltb→le}
use oslab.Disk.{Log, Sys, Run, done, loaded, contents, bread}
use oslab.Disk.Ends
use oslab.Disk.Ends.{Ends, ends, bwrite-Ends, Ends_done}
use oslab.Log.{
  install_from, install_trans, write_log_from, write_log, write_head, clear_head, commit,
}
use oslab.Log.Recovery.{write_head-Ends}

-- The run does not panic, and `struct log` is then `l`.
abbrev LeavesLog : Log → Run (Unit {0}) → Type 0
LeavesLog l r = Ends (λ _. Unit {0}) (λ _ t. t.log ≡ l) r

module _ (l : Log) where
  install_from-LeavesLog :
      (rounds tail : ℕ) (s : Sys) → s.log ≡ l → LeavesLog l (install_from rounds tail s)
  unfolding install_from bread
  install_from-LeavesLog zero tail s e = ends e
  install_from-LeavesLog (suc rounds) tail s e =
      Ends.bind
        (bwrite-Ends (s.log.block tail) (contents s (s.log.start + tail + 1))
          (loaded (s.log.block tail) (loaded (s.log.start + tail + 1) s)) (λ _. tt) (λ p _. e))
        (λ _ t e. install_from-LeavesLog rounds (suc tail) t e)

  write_log_from-LeavesLog :
      (rounds tail : ℕ) (s : Sys) → s.log ≡ l → LeavesLog l (write_log_from rounds tail s)
  unfolding write_log_from bread
  write_log_from-LeavesLog zero tail s e = ends e
  write_log_from-LeavesLog (suc rounds) tail s e =
      let u = loaded (s.log.start + tail + 1) s in
      Ends.bind
        (bwrite-Ends (s.log.start + tail + 1) (contents u (s.log.block tail))
          (loaded (s.log.block tail) u) (λ _. tt) (λ p _. e))
        (λ _ t e. write_log_from-LeavesLog rounds (suc tail) t e)

  write_head-LeavesLog : (s : Sys) → s.log ≡ l → LeavesLog l (write_head s)
  write_head-LeavesLog s e = write_head-Ends s (λ _. tt) (λ p _. e)

  commit-LeavesLog : (s : Sys) → s.log ≡ l → LeavesLog (record l { n = 0 }) (commit s)
  unfolding commit write_log install_trans clear_head
  commit-LeavesLog s e = elim (Bool-cases (ltb 0 s.log.n)) [
    | inl some ↦ rw some (
        Ends.bind (write_log_from-LeavesLog s.log.n 0 s e) λ _ t e.
          Ends.bind (write_head-LeavesLog t e) λ _ u e.
            Ends.bind (install_from-LeavesLog u.log.n 0 u e) λ _ w e.
              write_head-Ends (record w { log = record w.log { n = 0 } }) (λ _. tt)
                (λ p _. ap (λ (g : Log). record g { n = 0 }) e))
    | inr nothing ↦ rw nothing (ends (ground (arith, ltb→le 0 s.log.n nothing)))
  ]

pub log-commit : (s t : Sys) → commit s ≡ done tt t → t.log ≡ record s.log { n = 0 }
log-commit s t e =
    Ends_done (λ u. u.log ≡ record s.log { n = 0 }) (commit s) tt t (commit-LeavesLog s.log s refl)
      e
