-- ===== src/Log/Recovery.antt =====
-- `recover_from_log` of xv6/log.c: what it makes of a disk, and of the crashes on its way.
use oslab.Common.{ℕ, suc, ◌+◌, ◌≤◌, ◌<◌, ◌≡◌, ◌≢◌, refl, arith, ap, ◌∙◌}
use oslab.Disk.{◌>>◌, Block, Disk, Log, Sys, contents, loaded, written, bread, update}
use oslab.Disk.Ends
use oslab.Disk.Ends.{Ends, ends, fails, bwrite-Ends, contents-loaded, contents-loaded_twice}
use oslab.Log.{
  head_n, head_block, copy_head, fill_head, read_head, write_head, clear_head, install_trans,
  recover_from_log,
}
use oslab.Log.Overlay.{
  Home, InLog, IsLog, overlay, overlay_missing, overlay-InLog, recovered, overlay_block,
  overlay-overlay, overlay_src,
}
use oslab.Log.Head.{copy_head_lem}
use oslab.Log.Install.{Installing, install_trans-Ends}

-- The header block that `write_head` writes.
abbrev pub header : Sys → Block
header s = fill_head s.log.n 0 s.log.block (update (contents s s.log.start) 0 s.log.n)

pub write_head-Ends :
    {C : Disk → Type 0} {P : Unit {0} → Sys → Type 0} (s : Sys)
    → (s.power ≡ 0 → C s.disk)
    → ((p : ℕ) → s.power ≡ suc p → P tt (written s.log.start (header s) (loaded s.log.start s) p))
    → Ends C P (write_head s)
unfolding write_head bread
write_head-Ends s stop go = bwrite-Ends s.log.start (header s) (loaded s.log.start s) stop go

-- A disk whose super block places the log at `start` and whose log header is good.
pub record IsDisk (start size : ℕ) (d : Disk) : Type 0 where
  pub after_super : 1 < start
  pub some_room : 0 < size
  pub at_start : d 1 4 ≡ start
  pub of_size : d 1 3 ≡ size
  pub log : IsLog start size (head_n (d start)) (head_block (d start))

-- Recovery of `d'` gives what recovery of `d` gives, on every block but the log's header.
pub record Keeps (start size : ℕ) (d d' : Disk) : Type 0 where
  pub valid : IsDisk start size d'
  pub same : (b : ℕ) → b ≢ start → recovered start d' b ≡ recovered start d b

-- The disk after a recovery that was not cut off.
pub record IsRecovered (start size : ℕ) (d : Disk) (s : Sys) : Type 0 where
  pub installed : (b : ℕ) → b ≢ start → s.disk b ≡ recovered start d b
  pub erased : head_n (s.disk start) ≡ 0
  pub log_start : s.log.start ≡ start
  pub log_size : s.log.size ≡ size
  pub log_n : s.log.n ≡ 0
  pub coherent : (b : ℕ) → InLog start size b → contents s b ≡ s.disk b

module _ (start size : ℕ) (d : Disk) (v : IsDisk start size d) where
  -- `l` is the log that stands on the disk.
  pub record Reads (l : Log) : Type 0 where
    pub log_start : l.start ≡ start
    pub log_size : l.size ≡ size
    pub log_n : l.n ≡ head_n (d start)
    pub log_block : (i : ℕ) → i < head_n (d start) → l.block i ≡ head_block (d start) i

  Reads-IsLog : (l : Log) → Reads l → IsLog l.start l.size l.n l.block
  Reads-IsLog l r =
      rw (r.log_start, r.log_size, r.log_n)
        (record {
          array = v.log.array;
          fits = v.log.fits;
          homes = λ i h. rw (r.log_block i h) (v.log.homes i h);
        })

  -- The disk with `t` entries of its log put in.
  module _ (t : ℕ) (d' : Disk) (le : t ≤ head_n (d start)) (l : Log) (r : Reads l)
      (part : (b : ℕ) → d' b ≡ overlay l.start l.block t d d b) where
    partial-overlay : (b : ℕ) → d' b ≡ overlay start (head_block (d start)) t d d b
    partial-overlay b =
        part b
        ∙ ap (λ k. overlay k l.block t d d b) r.log_start
        ∙ overlay_block start l.block (head_block (d start)) t d d b
            (λ i h. r.log_block i (omega arith))

    partial_InLog : (b : ℕ) → InLog start size b → d' b ≡ d b
    partial_InLog b i =
        partial-overlay b
        ∙ overlay-InLog start (head_block (d start)) size (head_n (d start)) d d t b v.log le i

    partial_header : d' start ≡ d start
    partial_header = partial_InLog start (omega (arith, v.some_room))

    partial_super : d' 1 ≡ d 1
    partial_super =
        partial-overlay 1
        ∙ overlay_missing start (head_block (d start)) t d d 1 (λ i h e.
          let home : Home start size (head_block (d start) i) = v.log.homes i (omega arith) in
          omega (arith, v.after_super))

    partial-Keeps : Keeps start size d d'
    partial-Keeps = record {
      valid = record {
        after_super = v.after_super;
        some_room = v.some_room;
        at_start = rw partial_super v.at_start;
        of_size = rw partial_super v.of_size;
        log = rw partial_header v.log;
      };
      same = λ b ne. rw partial_header (
          overlay_src start (head_block (d start)) (head_n (d start)) d' d d'
            (overlay start (head_block (d start)) t d d) b
            (λ i h. partial_InLog (start + i + 1) (omega (arith, v.log.fits))) (partial-overlay b)
          ∙ overlay-overlay start (head_block (d start)) (head_n (d start)) t d d b le);
    }

  -- The state after `clear_head`.
  abbrev head_cleared : Sys → ℕ → Sys
  head_cleared u p =
      let u' = record u { log = record u.log { n = 0 } } in
      written u.log.start (header u') (loaded u.log.start u') p

  module _ (l : Log) (r : Reads l) (power : ℕ) where
    head_cleared-IsRecovered :
        (p : ℕ) (u : Sys) → Installing l d power l.n u → IsRecovered start size d (head_cleared u p)
    unfolding fill_head
    head_cleared-IsRecovered p u inv =
        let at : u.log.start ≡ start = ap (λ (g : Log). g.start) inv.same ∙ r.log_start in
        record {
          installed = λ b ne. ground (
            arith,
            at,
            r.log_start,
            r.log_n,
            inv.disk_is b,
            overlay_block start l.block (head_block (d start)) (head_n (d start)) d d b r.log_block,
          );
          erased = ground (arith, at);
          log_start = at;
          log_size = ap (λ (g : Log). g.size) inv.same ∙ r.log_size;
          log_n = refl;
          coherent =
              λ b i. ground (arith, at, inv.coherent b (ground (arith, r.log_start, r.log_size)));
        }

    -- The last two steps of recovery and of a commit.
    pub install_clear-Ends :
        (s : Sys)
        → Installing l d power 0 s
        → Ends
            (λ d'. Keeps start size d d' × (power ≤ head_n (d start)))
            (λ _. IsRecovered start size d)
            ((install_trans >> clear_head) s)
    unfolding clear_head
    install_clear-Ends s inv =
        Ends.bind
          (Ends.mono (install_trans-Ends l (Reads-IsLog l r) d power s inv)
            (λ d' c. (
              partial-Keeps c.0.0 d' (omega (arith, c.0.1, r.log_n)) l r c.0.2,
              omega (arith, c.1, r.log_n),
            ))
            (λ _ u inv. inv))
          (λ _ u inv.
            write_head-Ends (record u { log = record u.log { n = 0 } })
              (λ stop. (
                partial-Keeps l.n u.disk (omega (arith, r.log_n)) l r inv.disk_is,
                omega (arith, inv.spent, r.log_n),
              ))
              (λ p more. head_cleared-IsRecovered p u inv))

  -- Before recovery: the log's blocks are as on the disk, also where they are cached.
  pub record IsReady (s : Sys) : Type 0 where
    pub on_disk : s.disk ≡ d
    pub log_start : s.log.start ≡ start
    pub log_size : s.log.size ≡ size
    pub coherent : (b : ℕ) → InLog start size b → contents s b ≡ s.disk b

  -- The log in memory, and the state, after `read_head`.
  abbrev read_log : Log → Log
  read_log l = record l {
    n = head_n (d start);
    block = copy_head (head_n (d start)) 0 (d start) l.block;
  }

  abbrev head_read : Sys → Sys
  head_read s =
      let lh = contents s s.log.start in
      record (loaded s.log.start s) {
        log = record s.log { n = head_n lh; block = copy_head (head_n lh) 0 lh s.log.block };
      }

  module _ (s : Sys) (r : IsReady s) where
    head_read-log : (head_read s).log ≡ read_log s.log
    head_read-log =
        let lh : contents s s.log.start ≡ d start =
          rw r.log_start (
            r.coherent start (omega (arith, v.some_room)) ∙ ap (λ (e : Disk). e start) r.on_disk) in
        λ i. record s.log {
          n = head_n (lh i);
          block = copy_head (head_n (lh i)) 0 (lh i) s.log.block;
        }

    head_read-Installing : Installing (read_log s.log) d s.power 0 (head_read s)
    unfolding overlay
    head_read-Installing = record {
      same = head_read-log;
      spent = omega arith;
      disk_is = λ b. ap (λ (e : Disk). e b) r.on_disk;
      coherent = λ b i.
          contents-loaded s.log.start s b ∙ r.coherent b (ground (arith, r.log_start, r.log_size));
    }

    Reads-read_log : Reads (read_log s.log)
    Reads-read_log = record {
      log_start = r.log_start;
      log_size = r.log_size;
      log_n = refl;
      log_block = λ i h. ground (arith, copy_head_lem (head_n (d start)) 0 (d start) s.log.block i);
    }

    pub recover_from_log-Ends :
        Ends
          (λ d'. Keeps start size d d' × (s.power ≤ head_n (d start)))
          (λ _. IsRecovered start size d)
          (recover_from_log s)
    unfolding recover_from_log read_head bread
    recover_from_log-Ends =
        install_clear-Ends (read_log s.log) Reads-read_log s.power (head_read s)
          head_read-Installing

  recovered_super : recovered start d 1 ≡ d 1
  recovered_super = overlay_missing start (head_block (d start)) (head_n (d start)) d d 1 (λ i h e.
      let home : Home start size (head_block (d start) i) = v.log.homes i h in
      omega (arith, v.after_super))

  pub IsRecovered-Keeps : (s : Sys) → IsRecovered start size d s → Keeps start size d s.disk
  unfolding overlay
  IsRecovered-Keeps s r =
      let super : s.disk 1 ≡ d 1 = r.installed 1 (omega (arith, v.after_super)) ∙ recovered_super in
      record {
        valid = record {
          after_super = v.after_super;
          some_room = v.some_room;
          at_start = rw super v.at_start;
          of_size = rw super v.of_size;
          log =
              rw r.erased
                (record { array = omega arith; fits = v.some_room; homes = λ i h. elim h [ ] });
        };
        same = λ b ne. rw r.erased (r.installed b ne);
      }
