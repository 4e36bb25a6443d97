-- ===== src/Log/Reboot.antt =====
-- `initlog` of xv6/log.c after a crash, and after any number of crashes during recovery itself.
use oslab.Common.{ℕ, ◌≤◌, ◌<◌, ◌≡◌, ◌≢◌, refl, arith, ◌∙◌, List, [], ◌∷◌}
use oslab.Disk.{Disk, Sys, Run, done, crashed, panicked, loaded, bread}
use oslab.Disk.Ends.{Ends, ends, fails}
use oslab.Log.{logsize, head_n, initlog, boot}
use oslab.Log.Overlay.{recovered}
use oslab.Log.Recovery.{IsDisk, Keeps, IsRecovered, recover_from_log-Ends, IsRecovered-Keeps}

-- What a run leaves on the disk that it began with.
abbrev pub disk_after : {A : Type 0} → Disk → Run A → Disk
disk_after d (done a s) = s.disk
disk_after d (crashed d') = d'
disk_after d panicked = d

-- Boots one after the other, the power of each given by the number of writes that it lasts for.
pub reboots : List ℕ → Disk → Disk
reboots [] d = d
reboots (p ∷ ps) d = reboots ps (disk_after d (initlog (boot d p)))

-- The state when `initlog` has read the super block.
abbrev super_read : Disk → ℕ → Sys
super_read d p = record (loaded 1 (boot d p)) {
  log = record (boot d p).log { start = d 1 4; size = d 1 3 };
}

module _ (start size : ℕ) where
  pub initlog-Ends :
      (d : Disk) (p : ℕ)
      → IsDisk start size d
      → Ends
          (λ d'. Keeps start size d d' × (p ≤ head_n (d start)))
          (λ _. IsRecovered start size d)
          (initlog (boot d p))
  unfolding initlog bread
  initlog-Ends d p v = recover_from_log-Ends start size d v (super_read d p) (record {
    on_disk = refl;
    log_start = v.at_start;
    log_size = v.of_size;
    coherent = λ b i. ground arith;
  })

  Keeps-trans : (d e f : Disk) → Keeps start size d e → Keeps start size e f → Keeps start size d f
  Keeps-trans d e f k m = record { valid = m.valid; same = λ b ne. m.same b ne ∙ k.same b ne }

  disk_after-Keeps :
      (d : Disk) (p : ℕ) (v : IsDisk start size d) (r : Run (Unit {0}))
      → Ends
          (λ d'. Keeps start size d d' × (p ≤ head_n (d start)))
          (λ _. IsRecovered start size d)
          r
      → Keeps start size d (disk_after d r)
  disk_after-Keeps d p v (done a s) (ends q) = IsRecovered-Keeps start size d v s q
  disk_after-Keeps d p v (crashed d') (fails c) = c.0
  disk_after-Keeps d p v panicked q = elim q [ ]

  pub reboots-Keeps :
      (ps : List ℕ) (d : Disk) → IsDisk start size d → Keeps start size d (reboots ps d)
  unfolding reboots
  reboots-Keeps [] d v = record { valid = v; same = λ b ne. refl }
  reboots-Keeps (p ∷ ps) d v =
      let k = disk_after-Keeps d p v (initlog (boot d p)) (initlog-Ends d p v) in
      Keeps-trans d (disk_after d (initlog (boot d p)))
        (reboots ps (disk_after d (initlog (boot d p)))) k
        (reboots-Keeps ps (disk_after d (initlog (boot d p))) k.valid)

  -- Enough power for the boot: a log has at most `logsize` entries.
  boots :
      (d e : Disk) (r : Run (Unit {0})) (p : ℕ)
      → IsDisk start size e
      → logsize < p
      → Ends
          (λ d'. Keeps start size e d' × (p ≤ head_n (e start)))
          (λ _. IsRecovered start size e)
          r
      → Keeps start size d e
      → (s : Sys) × (r ≡ done tt s)
        × ((b : ℕ) → b ≢ start → s.disk b ≡ recovered start d b)
        × (head_n (s.disk start) ≡ 0)
  boots d e (done a s) p v h (ends q) k =
      (s, refl, (λ b ne. q.installed b ne ∙ k.same b ne), q.erased)
  boots d e (crashed d') p v h (fails c) k = absurd (omega (arith, c.1, v.log.array))
  boots d e panicked p v h q k = elim q [ ]

  -- After a crash the file system recovers the same contents however often the power fails during
  -- recovery. Let the super block of disk `d` place a log of `size` blocks at `start`, whose header
  -- fits and names only blocks outside the log and behind the super block. Then after any list of
  -- boots, each stopped at any of its disk writes or not at all, a further boot with power for more
  -- than LOGSIZE writes returns; every block but the log's header is as `d` with the newest log entry
  -- for it put in, or as in `d` where the header names it not; and the header on the disk says 0.
  pub initlog-reboots :
      (d : Disk) (ps : List ℕ) (p : ℕ)
      → IsDisk start size d
      → logsize < p
      → (s : Sys) × (initlog (boot (reboots ps d) p) ≡ done tt s)
        × ((b : ℕ) → b ≢ start → s.disk b ≡ recovered start d b)
        × (head_n (s.disk start) ≡ 0)
  initlog-reboots d ps p v h =
      let k = reboots-Keeps ps d v in
      boots d (reboots ps d) (initlog (boot (reboots ps d) p)) p k.valid h
        (initlog-Ends (reboots ps d) p k.valid) k
