-- ===== src/Log/Install.antt =====
-- The loop of `install_trans` in xv6/log.c: after `t` rounds `t` entries of the log are put in.
use oslab.Common.{ℕ, zero, suc, ◌+◌, ◌≤◌, ◌<◌, ◌≡◌, arith, subst, ap, sym, ◌∙◌}
use oslab.Disk.{Block, Disk, Log, Sys, contents, loaded, written, bread}
use oslab.Disk.Ends
use oslab.Disk.Ends.{Ends, ends, fails, bwrite-Ends, contents-loaded, contents-loaded_twice}
use oslab.Log.{install_from, install_trans}
use oslab.Log.Overlay.{Home, InLog, IsLog, overlay, overlay-InLog}

-- `d` with the first entries of the log put in, for some number of them.
abbrev pub IsPartial : Log → Disk → Disk → Type 0
IsPartial l d d' = (t : ℕ) × (t ≤ l.n) × ((b : ℕ) → d' b ≡ overlay l.start l.block t d d b)

-- `t` entries are in, and that took `t` of the `power` writes that were left at the start.
pub record Installing (l : Log) (d : Disk) (power t : ℕ) (s : Sys) : Type 0 where
  pub same : s.log ≡ l
  pub spent : s.power + t ≡ power
  pub disk_is : (b : ℕ) → s.disk b ≡ overlay l.start l.block t d d b
  pub coherent : (b : ℕ) → InLog l.start l.size b → contents s b ≡ s.disk b

module _ (l : Log) (w : IsLog l.start l.size l.n l.block) (d : Disk) (power : ℕ) where
  install-Installing :
      (t p : ℕ) (s : Sys) (dst : ℕ) (x : Block)
      → t < l.n
      → Installing l d power t s
      → s.power ≡ suc p
      → dst ≡ l.block t
      → x ≡ contents s (l.start + t + 1)
      → Installing l d power (suc t) (written dst x s p)
  unfolding overlay
  install-Installing t p s dst x lt inv e e_dst e_x =
      let home : Home l.start l.size (l.block t) = w.homes t lt in
      let fits : l.n < l.size = w.fits in
      let entry : contents s (l.start + t + 1) ≡ d (l.start + t + 1) = ground (
        arith,
        inv.coherent (l.start + t + 1),
        inv.disk_is (l.start + t + 1),
        overlay-InLog l.start l.block l.size l.n d d t (l.start + t + 1) w,
      ) in
      record {
        same = inv.same;
        spent = ground (arith, inv.spent);
        disk_is = λ b. ground (arith, inv.disk_is b);
        coherent = λ b i. ground (arith, inv.coherent b);
      }

  loaded-Installing :
      (t b : ℕ) (s : Sys) → Installing l d power t s → Installing l d power t (loaded b s)
  loaded-Installing t b s inv = record {
    same = inv.same;
    spent = inv.spent;
    disk_is = inv.disk_is;
    coherent = λ c i. ground (arith, inv.coherent c, contents-loaded b s c);
  }

  install_from-Ends :
      (rounds t : ℕ) (s : Sys)
      → rounds + t ≡ l.n
      → Installing l d power t s
      → Ends
          (λ d'. IsPartial l d d' × (power < l.n))
          (λ _. Installing l d power l.n)
          (install_from rounds t s)
  unfolding install_from bread
  install_from-Ends zero t s e inv = ends (subst (λ k. Installing l d power k s) (omega arith) inv)
  install_from-Ends (suc rounds) t s e inv =
      let s' = loaded (s.log.block t) (loaded (s.log.start + t + 1) s) in
      let inv' : Installing l d power t s' =
        loaded-Installing t (s.log.block t) (loaded (s.log.start + t + 1) s)
          (loaded-Installing t (s.log.start + t + 1) s inv) in
      Ends.bind
        (bwrite-Ends (s.log.block t) (contents s (s.log.start + t + 1)) s'
          (λ stop. ((t, omega arith, inv.disk_is), omega (arith, inv.spent)))
          (λ p more.
            install-Installing t p s' (s.log.block t) (contents s (s.log.start + t + 1))
              (omega arith) inv' more (ap (λ (g : Log). g.block t) inv.same)
              (ap (λ (g : Log). contents s (g.start + t + 1)) inv.same
                ∙ sym (
                    contents-loaded_twice (s.log.block t) (s.log.start + t + 1) s
                      (l.start + t + 1)))))
        (λ _ u inv. install_from-Ends rounds (suc t) u (omega arith) inv)

  -- `install_trans` puts the whole log in, or fails for want of power with a part of it put in.
  pub install_trans-Ends :
      (s : Sys)
      → Installing l d power 0 s
      → Ends
          (λ d'. IsPartial l d d' × (power < l.n))
          (λ _. Installing l d power l.n)
          (install_trans s)
  unfolding install_trans
  install_trans-Ends s inv =
      install_from-Ends s.log.n 0 s (omega (arith, ap (λ (g : Log). g.n) inv.same)) inv
