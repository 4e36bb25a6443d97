-- ===== src/Log/Commit.antt =====
-- `commit` of xv6/log.c: a transaction reaches the disk whole or not at all.
use oslab.Common.{
  ℕ, zero, suc, ◌+◌, ◌-◌, ◌*◌, ◌≤◌, ◌<◌, ◌≡◌, ◌≢◌, ◌⊎◌, refl, arith, subst, ap, sym, ◌∙◌, ◌==◌, leb,
  ltb, ltb→le, Bool-cases, ◌&&◌, ◌||◌, Bool, false, if◌then◌else◌, inl, inr,
}
use oslab.Disk.{◌>>◌, Block, Disk, Log, Sys, contents, loaded, written, bread, update}
use oslab.Disk.Ends
use oslab.Disk.Ends.{Ends, ends, fails, bwrite-Ends, contents-loaded, contents-loaded_twice}
use oslab.Log.{
  head_n, head_block, write_log_from, write_log, write_head, clear_head, install_trans, commit,
}
use oslab.Log.Overlay.{Home, InLog, IsLog, overlay, recovered}
use oslab.Log.Head.{fill_head-zero, fill_head-suc}
use oslab.Log.Install.{Installing}
use oslab.Log.Recovery.{IsDisk, Reads, header, write_head-Ends, install_clear-Ends}

-- The blocks that the log has no part in.
abbrev pub Outside : ℕ → ℕ → ℕ → Type 0
Outside start size b = (b < start) ⊎ (start + size ≤ b)

-- Whether one of the first `k` entries of the log names the block.
abbrev pub named : (ℕ → ℕ) → ℕ → ℕ → Bool
named block zero b = false
named block (suc k) b = block k == b || named block k b

-- The disk as the transaction means to leave it: the cached data of the blocks that the log names.
abbrev pub after_commit : Sys → Disk
after_commit s b = if named s.log.block s.log.n b then contents s b else s.disk b

-- A transaction ready to commit: the disk's log is empty, the log in memory is good, and no buffer
-- of the log's own blocks is dirty.
pub record IsPending (start size : ℕ) (s : Sys) : Type 0 where
  pub disk : IsDisk start size s.disk
  pub empty : head_n (s.disk start) ≡ 0
  pub log_start : s.log.start ≡ start
  pub log_size : s.log.size ≡ size
  pub log : IsLog start size s.log.n s.log.block
  pub coherent : (b : ℕ) → InLog start size b → contents s b ≡ s.disk b

-- A good disk that recovers to `target`, but for the log's own blocks.
pub record RecoversTo (start size : ℕ) (target d : Disk) : Type 0 where
  pub valid : IsDisk start size d
  pub same : (b : ℕ) → Outside start size b → recovered start d b ≡ target b

-- If every entry's data are what `c` says of its block, the log's overlay is `c` on named blocks.
overlay-named :
    (start : ℕ) (block : ℕ → ℕ) (src d c : Disk) (k b : ℕ)
    → ((i : ℕ) → i < k → src (start + i + 1) ≡ c (block i))
    → overlay start block k src d b ≡ (if named block k b then c b else d b)
unfolding overlay
overlay-named start block src d c zero b h = refl
overlay-named start block src d c (suc k) b h =
    ground (arith, h k, overlay-named start block src d c k b (λ i lt. h i (omega arith)))

pub named_block :
    (block block' : ℕ → ℕ) (k b : ℕ)
    → ((i : ℕ) → i < k → block i ≡ block' i)
    → named block k b ≡ named block' k b
named_block block block' zero b same = refl
named_block block block' (suc k) b same =
    ground (arith, same k, named_block block block' k b (λ i lt. same i (omega arith)))

-- The state after a commit that was not cut off.
pub record IsCommitted (start size : ℕ) (s0 s : Sys) : Type 0 where
  pub written : (b : ℕ) → Outside start size b → s.disk b ≡ after_commit s0 b
  pub erased : head_n (s.disk start) ≡ 0
  pub log_n : s.log.n ≡ 0
  pub log_start : s.log.start ≡ start
  pub log_size : s.log.size ≡ size
  pub coherent : (b : ℕ) → InLog start size b → contents s b ≡ s.disk b

-- What a crash leaves: the disk recovers to the old contents or to the new, all of them; and the
-- power was for fewer writes than a commit makes.
abbrev pub AtCrash : ℕ → ℕ → Sys → Disk → Type 0
AtCrash start size s0 d =
    (RecoversTo start size s0.disk d ⊎ RecoversTo start size (after_commit s0) d)
    × (s0.power < 2 * s0.log.n + 2)

module _ (start size : ℕ) (s0 : Sys) (v : IsPending start size s0) where
  abbrev blocks : ℕ → ℕ
  blocks = s0.log.block

  -- `t` blocks have been copied to the log.
  record Writing (power t : ℕ) (s : Sys) : Type 0 where
    same : s.log ≡ s0.log
    spent : s.power + t ≡ power
    disk_is :
        (b : ℕ)
        → s.disk b ≡ (
            if leb (start + 1) b && ltb b (start + 1 + t)
            then contents s0 (blocks (b - start - 1))
            else s0.disk b)
    coherent : (b : ℕ) → InLog start size b → contents s b ≡ s.disk b
    cached : (b : ℕ) → Outside start size b → contents s b ≡ contents s0 b

  loaded-Writing : (power t b : ℕ) (s : Sys) → Writing power t s → Writing power t (loaded b s)
  loaded-Writing power t b s inv = record {
    same = inv.same;
    spent = inv.spent;
    disk_is = inv.disk_is;
    coherent = λ c i. contents-loaded b s c ∙ inv.coherent c i;
    cached = λ c o. contents-loaded b s c ∙ inv.cached c o;
  }

  entry-Outside : (t : ℕ) → t < s0.log.n → Outside start size (blocks t)
  entry-Outside t lt = let h : Home start size (blocks t) = v.log.homes t lt in omega arith

  written-Writing :
      (power t p dst : ℕ) (x : Block) (s : Sys)
      → t < s0.log.n
      → Writing power t s
      → s.power ≡ suc p
      → dst ≡ start + t + 1
      → x ≡ contents s0 (blocks t)
      → Writing power (suc t) (written dst x s p)
  written-Writing power t p dst x s lt inv e e_dst e_x =
      let fits : s0.log.n < size = v.log.fits in
      record {
        same = inv.same;
        spent = ground (arith, inv.spent);
        disk_is = λ b. ground (arith, inv.disk_is b);
        coherent = λ b i. ground (arith, inv.coherent b i);
        cached = λ b o. ground (arith, inv.cached b o);
      }

  -- Until the header is written the disk recovers to what it held.
  module _ (power t : ℕ) (s : Sys) (le : t ≤ s0.log.n) (inv : Writing power t s) where
    Writing-header : s.disk start ≡ s0.disk start
    Writing-header = ground (arith, inv.disk_is start)

    Writing-Outside : (b : ℕ) → Outside start size b → s.disk b ≡ s0.disk b
    Writing-Outside b o = let fits : s0.log.n < size = v.log.fits in ground (arith, inv.disk_is b)

    Writing-RecoversTo : RecoversTo start size s0.disk s.disk
    unfolding overlay
    Writing-RecoversTo =
        let super : s.disk 1 ≡ s0.disk 1 = Writing-Outside 1 (omega (arith, v.disk.after_super)) in
        record {
          valid = record {
            after_super = v.disk.after_super;
            some_room = v.disk.some_room;
            at_start = rw super v.disk.at_start;
            of_size = rw super v.disk.of_size;
            log = rw Writing-header v.disk.log;
          };
          same = λ b o. rw (Writing-header, v.empty) (Writing-Outside b o);
        }

  write_log_from-Ends :
      (power rounds t : ℕ) (s : Sys)
      → rounds + t ≡ s0.log.n
      → Writing power t s
      → Ends
          (λ d. RecoversTo start size s0.disk d × (power < s0.log.n))
          (λ _. Writing power s0.log.n)
          (write_log_from rounds t s)
  unfolding write_log_from bread
  write_log_from-Ends power zero t s e inv = ends (subst (λ k. Writing power k s) (omega arith) inv)
  write_log_from-Ends power (suc rounds) t s e inv =
      let to = s.log.start + t + 1 in
      let from = s.log.block t in
      let s' = loaded from (loaded to s) in
      let inv' : Writing power t s' =
        loaded-Writing power t from (loaded to s) (loaded-Writing power t to s inv) in
      let at : s.log.start ≡ start = ap (λ (g : Log). g.start) inv.same ∙ v.log_start in
      Ends.bind
        (bwrite-Ends to (contents (loaded to s) from) s'
          (λ stop. (Writing-RecoversTo power t s (omega arith) inv, omega (arith, inv.spent)))
          (λ p more.
            written-Writing power t p to (contents (loaded to s) from) s' (omega arith) inv' more
              (rw at)
              (contents-loaded to s from
                ∙ ap (λ (g : Log). contents s (g.block t)) inv.same
                ∙ inv.cached (blocks t) (entry-Outside t (omega arith)))))
        (λ _ u inv. write_log_from-Ends power rounds (suc t) u (omega arith) inv)

  -- The state after `write_head`, and the header that it put on the disk.
  module _ (power p : ℕ) (s : Sys) (inv : Writing power s0.log.n s) where
    abbrev head_written : Sys
    head_written = written s.log.start (header s) (loaded s.log.start s) p

    log_at : s.log.start ≡ start
    log_at = ap (λ (g : Log). g.start) inv.same ∙ v.log_start

    head_written-header : head_written.disk start ≡ header s
    head_written-header = ground (arith, log_at)

    head_written_n : head_n (head_written.disk start) ≡ s0.log.n
    head_written_n =
        ap head_n head_written-header
        ∙ fill_head-zero s.log.n 0 s.log.block (update (contents s s.log.start) 0 s.log.n)
        ∙ ap (λ (g : Log). g.n) inv.same

    head_written_block : (i : ℕ) → i < s0.log.n → head_block (head_written.disk start) i ≡ blocks i
    head_written_block i lt =
        ap (λ (x : Block). head_block x i) head_written-header
        ∙ ground (
          arith,
          fill_head-suc s.log.n 0 s.log.block (update (contents s s.log.start) 0 s.log.n) i,
          inv.same,
        )

    head_written-Outside : (b : ℕ) → Outside start size b → head_written.disk b ≡ s0.disk b
    head_written-Outside b o =
        ground
          (arith, log_at, v.disk.some_room, Writing-Outside power s0.log.n s (omega arith) inv b)

    head_written-IsDisk : IsDisk start size head_written.disk
    head_written-IsDisk =
        let super : head_written.disk 1 ≡ s0.disk 1 =
          head_written-Outside 1 (omega (arith, v.disk.after_super)) in
        record {
          after_super = v.disk.after_super;
          some_room = v.disk.some_room;
          at_start = rw super v.disk.at_start;
          of_size = rw super v.disk.of_size;
          log = record {
            array = rw head_written_n v.log.array;
            fits = rw head_written_n v.log.fits;
            homes = λ i h.
                let lt : i < s0.log.n = omega (arith, head_written_n) in
                rw (head_written_block i lt) (v.log.homes i lt);
          };
        }

    head_written-Reads : Reads start size head_written.disk head_written-IsDisk s0.log
    head_written-Reads = record {
      log_start = v.log_start;
      log_size = v.log_size;
      log_n = sym head_written_n;
      log_block = λ i h. sym (head_written_block i (omega (arith, head_written_n)));
    }

    head_written-Installing : Installing s0.log head_written.disk p 0 head_written
    unfolding overlay
    head_written-Installing = record {
      same = inv.same;
      spent = omega arith;
      disk_is = λ b. refl;
      coherent =
          λ b i. ground (arith, log_at, inv.coherent b (ground (arith, v.log_start, v.log_size)));
    }

    head_written_data :
        (i : ℕ) → i < s0.log.n → head_written.disk (start + i + 1) ≡ contents s0 (blocks i)
    head_written_data i lt = ground (arith, log_at, inv.disk_is (start + i + 1))

    -- From here on recovery finishes the commit.
    head_written-recovered :
        (b : ℕ) → Outside start size b → recovered start head_written.disk b ≡ after_commit s0 b
    head_written-recovered b o =
        overlay-named start on_disk head_written.disk head_written.disk (contents s0)
          (head_n (head_written.disk start)) b
          (λ i lt.
            let lt' : i < s0.log.n = omega (arith, head_written_n) in
            head_written_data i lt' ∙ ap (contents s0) (sym (head_written_block i lt')))
        ∙ ground (
          arith,
          head_written_n,
          named_block on_disk blocks s0.log.n b head_written_block,
          head_written-Outside b o,
        )
      where
        on_disk : ℕ → ℕ
        on_disk = head_block (head_written.disk start)

    finish_commit-Ends :
        Ends
          (λ d. RecoversTo start size (after_commit s0) d × (p ≤ s0.log.n))
          (λ _. IsCommitted start size s0)
          ((install_trans >> clear_head) head_written)
    finish_commit-Ends =
        Ends.mono
          (install_clear-Ends start size head_written.disk head_written-IsDisk s0.log
            head_written-Reads p head_written head_written-Installing)
          (λ d c. (
            record {
              valid = c.0.valid;
              same = λ b o. c.0.same b (apart b o) ∙ head_written-recovered b o;
            },
            omega (arith, c.1, head_written_n),
          ))
          (λ _ u r. record {
            written = λ b o. r.installed b (apart b o) ∙ head_written-recovered b o;
            erased = r.erased;
            log_n = r.log_n;
            log_start = r.log_start;
            log_size = r.log_size;
            coherent = r.coherent;
          })
      where
        apart : (b : ℕ) → Outside start size b → b ≢ start
        apart b o = omega (arith, v.disk.some_room)

  write_log-Ends :
      Ends
        (λ d. RecoversTo start size s0.disk d × (s0.power < s0.log.n))
        (λ _. Writing s0.power s0.log.n)
        (write_log s0)
  unfolding write_log
  write_log-Ends = write_log_from-Ends s0.power s0.log.n 0 s0 (omega arith) (record {
    same = refl;
    spent = omega arith;
    disk_is = λ b. ground arith;
    coherent = v.coherent;
    cached = λ b o. refl;
  })

  commit_steps-Ends :
      Ends
        (AtCrash start size s0)
        (λ _. IsCommitted start size s0)
        ((write_log >> (write_head >> (install_trans >> clear_head))) s0)
  commit_steps-Ends =
      Ends.bind (Ends.mono write_log-Ends (λ d c. (inl c.0, omega (arith, c.1))) (λ _ u inv. inv))
        (λ _ s inv.
          Ends.bind {P = λ _ u. (p : ℕ) × (s.power ≡ suc p) × (u ≡ head_written s0.power p s inv)}
            (write_head-Ends s
              (λ stop. (
                inl (Writing-RecoversTo s0.power s0.log.n s (omega arith) inv),
                omega (arith, inv.spent),
              ))
              (λ p more. (p, more, refl)))
            (λ _ u (p, more, e). rw e (
              Ends.mono (finish_commit-Ends s0.power p s inv)
                (λ d c. (inr c.0, omega (arith, c.1, more, inv.spent))) (λ _ w r. r))))

  -- A commit is atomic. From a state where a transaction is ready, with any amount of power, `commit`
  -- does not panic. If it returns, every block outside the log has on the disk what `after_commit`
  -- says, the header on the disk says 0, and the log in memory is empty. If the power fails at any of
  -- its writes, the disk that is left is good, and recovery from it gives the old contents of all the
  -- blocks outside the log or the new contents of all of them; this happens only if the power was for
  -- fewer than twice the logged blocks and two more writes.
  pub commit-Ends : Ends (AtCrash start size s0) (λ _. IsCommitted start size s0) (commit s0)
  unfolding commit
  commit-Ends = elim (Bool-cases (ltb 0 s0.log.n)) [
    | inl some ↦ rw some commit_steps-Ends
    | inr nothing ↦ rw nothing (
        ends (record {
          written = λ b o. ground arith;
          erased = v.empty;
          log_n = omega (arith, ltb→le 0 s0.log.n);
          log_start = v.log_start;
          log_size = v.log_size;
          coherent = v.coherent;
        }))
  ]
