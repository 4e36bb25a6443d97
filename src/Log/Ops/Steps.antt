-- ===== src/Log/Ops/Steps.antt =====
-- The operations of xv6/log.c between their `begin_op` and their `end_op`, in any order. The commit of
-- the last one is a step of its own, after the lock is released.
use oslab.Common.{
  ℕ, ◌+◌, ◌-◌, ◌*◌, ◌≤◌, ◌<◌, ◌≡◌, refl, sym, ◌∙◌, arith, Bool, true, List, [], ◌∷◌, map, some,
  length, get_elem?, set, erase_at, All, if◌then◌else◌, ◌⊎◌, inl, inr, ==_refl, All_get, All-set,
  All-erase_at, All-mono, sum, sum-set, sum-erase_at, length-erase_at, length-set,
}
use oslab.Disk.{Log, Sys, done}
use oslab.Log.{logsize, maxopblocks}
use oslab.Log.Ops.{begin_op, end_op_start, commit_last, log_write, absorb}
use oslab.Log.Ops.Slot.{absorb_lem}
use oslab.Log.Commit.{named}
use oslab.Log.Ops.Calls.{
  has, IsLogged, absorb-IsLogged, log_write_done, absorb_frame, has-named, commit_last_done,
  end_op_start_done, begin_op-some,
}

-- For each operation between its `begin_op` and its `end_op` the blocks that it has written, and the
-- number of operations that have set `do_commit` and have not come back from their commit.
pub record System : Type 0 where
  pub sys : Sys
  pub active : List (List ℕ)
  pub committers : ℕ

-- One step of one operation. An operation writes at most MAXOPBLOCKS different blocks.
pub data Step (s : System) : System → Type 0 where
  begins :
      {l : Log}
      → begin_op s.sys.log ≡ some l
      → Step s (record s { sys = record s.sys { log = l }; active = [] ∷ s.active })
  writes_new :
      (i : ℕ) {us : List ℕ} (b : ℕ) {t : Sys}
      → get_elem? s.active i ≡ some us
      → length us < maxopblocks
      → log_write b s.sys ≡ done tt t
      → Step s (record s { sys = t; active = set s.active i (b ∷ us) })
  writes_again :
      (i : ℕ) {us : List ℕ} (b : ℕ) {t : Sys}
      → get_elem? s.active i ≡ some us
      → has b us ≡ true
      → log_write b s.sys ≡ done tt t
      → Step s (record s { sys = t })
  finishes :
      (i : ℕ) {us : List ℕ} (do_commit : Bool) {t : Sys}
      → get_elem? s.active i ≡ some us
      → end_op_start s.sys ≡ done do_commit t
      → Step s (record {
        sys = t;
        active = erase_at s.active i;
        committers = if do_commit then s.committers + 1 else s.committers;
      })
  commits :
      {t : Sys}
      → 0 < s.committers
      → commit_last s.sys ≡ done tt t
      → Step s (record s { sys = t; committers = s.committers - 1 })

pub data Reach (s : System) : System → Type 0 where
  here : Reach s s
  next : {t u : System} → Reach s t → Step t u → Reach s u

pub record Inv (size : ℕ) (s : System) : Type 0 where
  pub log_size : s.sys.log.size ≡ size
  pub flag : s.sys.log.committing ≡ s.committers
  pub alone : (s.committers ≡ 0) ⊎ ((s.committers ≡ 1) × (s.active ≡ []))
  pub counted : s.sys.log.outstanding ≡ length s.active
  pub room : s.sys.log.n + maxopblocks * length s.active ≤ logsize + sum (map length s.active)
  pub logged : All (IsLogged s.sys.log) s.active

length-empty : (xss : List (List ℕ)) → length xss ≡ 0 → xss ≡ []
length-empty [] e = refl
length-empty (x ∷ xss) e = absurd (omega (arith, e))

-- While a commit is under way no operation is active.
pub idle_now :
    {size : ℕ} (s : System) (v : Inv size s) (i : ℕ) (us : List ℕ)
    → get_elem? s.active i ≡ some us
    → s.committers ≡ 0
idle_now s v i us at = elim v.alone [
  | inl idle ↦ idle
  | inr (one, none_active) ↦ cc (rw none_active at at)
]

module _ (size : ℕ) (s : System) (v : Inv size s) where
  begins-Inv :
      (l : Log)
      → begin_op s.sys.log ≡ some l
      → Inv size (record s { sys = record s.sys { log = l }; active = [] ∷ s.active })
  begins-Inv l e =
      let (same, idle, fits) = begin_op-some s.sys.log l e in
      rw same (record {
        log_size = v.log_size;
        flag = v.flag;
        alone = inl (sym v.flag ∙ idle);
        counted = omega (arith, v.counted);
        room = omega (arith, v.counted, fits);
        logged = ((omega arith, tt), v.logged);
      })

  writes_new-Inv :
      (i : ℕ) (us : List ℕ) (b : ℕ) (t : Sys)
      → get_elem? s.active i ≡ some us
      → length us < maxopblocks
      → log_write b s.sys ≡ done tt t
      → Inv size (record s { sys = t; active = set s.active i (b ∷ us) })
  writes_new-Inv i us b t at few e =
      let f = absorb_frame b s.sys.log in
      let (same, _) = log_write_done b s.sys t e in
      let n = absorb_lem b s.sys.log in
      let mine = All_get _ s.active i us v.logged at in
      record {
        log_size = ground (arith, v.log_size);
        flag = ground (arith, v.flag);
        alone = inl (idle_now s v i us at);
        counted = ground (arith, v.counted, length-set s.active i (b ∷ us));
        room = ground (
          arith,
          v.room,
          length-set s.active i (b ∷ us),
          sum-set length s.active i us (b ∷ us) at,
        );
        logged = rw same (
            All-set (IsLogged (absorb b s.sys.log)) s.active i (b ∷ us)
              (All-mono _ _ s.active (absorb-IsLogged b s.sys.log) v.logged)
              (
                omega arith,
                (n.1 b ∙ ground (arith, ==_refl b), (absorb-IsLogged b s.sys.log us mine).1),
              ));
      }

  writes_again-Inv :
      (i : ℕ) (us : List ℕ) (b : ℕ) (t : Sys)
      → get_elem? s.active i ≡ some us
      → has b us ≡ true
      → log_write b s.sys ≡ done tt t
      → Inv size (record s { sys = t })
  writes_again-Inv i us b t at old e =
      let f = absorb_frame b s.sys.log in
      let (same, _) = log_write_done b s.sys t e in
      let n = absorb_lem b s.sys.log in
      let mine = All_get _ s.active i us v.logged at in
      let known : named s.sys.log.block s.sys.log.n b ≡ true =
        has-named s.sys.log b us mine.1 old in
      rw same (record {
        log_size = f.0 ∙ v.log_size;
        flag = f.1 ∙ v.flag;
        alone = v.alone;
        counted = f.2 ∙ v.counted;
        room = ground (arith, v.room);
        logged = All-mono _ _ s.active (absorb-IsLogged b s.sys.log) v.logged;
      })

  finishes-Inv :
      (i : ℕ) (us : List ℕ) (d : Bool) (t : Sys)
      → get_elem? s.active i ≡ some us
      → end_op_start s.sys ≡ done d t
      → Inv size (record {
        sys = t;
        active = erase_at s.active i;
        committers = if d then s.committers + 1 else s.committers;
      })
  finishes-Inv i us d t at e =
      let (quiet, same, last) = end_op_start_done s.sys t d e in
      let mine = All_get _ s.active i us v.logged at in
      let fewer = length-erase_at s.active i us at in
      let idle = idle_now s v i us at in
      rw same (record {
        log_size = v.log_size;
        flag = rw idle refl;
        alone = elim last [
          | inl (d', none_left) ↦ inr (
            rw (d', idle) refl,
            length-empty (erase_at s.active i) (omega (arith, v.counted, fewer, none_left)),
          )
          | inr d' ↦ inl (rw (d', idle) refl)
        ];
        counted = omega (arith, v.counted, fewer);
        room =
            omega (arith, v.room, v.counted, mine.0, fewer, sum-erase_at length s.active i us at);
        logged = All-erase_at (IsLogged s.sys.log) s.active i v.logged;
      })

  commits-Inv :
      (t : Sys)
      → 0 < s.committers
      → commit_last s.sys ≡ done tt t
      → Inv size (record s { sys = t; committers = s.committers - 1 })
  commits-Inv t busy e = elim v.alone [
    | inl idle ↦ absurd (omega (arith, busy, idle))
    | inr (one, none_active) ↦
        rw (commit_last_done s.sys t e, one, none_active)
          (record {
            log_size = v.log_size;
            flag = refl;
            alone = inl refl;
            counted = rw none_active at v.counted;
            room = omega arith;
            logged = tt;
          })
  ]

pub Step-Inv : (size : ℕ) {s t : System} → Step s t → Inv size s → Inv size t
Step-Inv size {s} (begins {l} e) v = begins-Inv size s v l e
Step-Inv size {s} (writes_new i {us} b {t} at few e) v = writes_new-Inv size s v i us b t at few e
Step-Inv size {s} (writes_again i {us} b {t} at old e) v =
    writes_again-Inv size s v i us b t at old e
Step-Inv size {s} (finishes i {us} d {t} at e) v = finishes-Inv size s v i us d t at e
Step-Inv size {s} (commits {t} busy e) v = commits-Inv size s v t busy e

pub Reach-Inv : (size : ℕ) {s t : System} → Inv size s → Reach s t → Inv size t
Reach-Inv size v here = v
Reach-Inv size v (next r st) = Step-Inv size st (Reach-Inv size v r)
