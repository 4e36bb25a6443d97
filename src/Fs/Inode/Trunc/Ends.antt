-- ===== src/Fs/Inode/Trunc/Ends.antt =====
-- The loops of `itrunc` of xv6/fs.c.
use oslab.Common.{
  ℕ, zero, suc, ◌+◌, ◌<◌, ◌≤◌, ◌≡◌, ◌⊎◌, inl, inr, ◌∙◌, refl, sym, ap, subst, arith, Option, some,
  ==_ne, ℕ_discrete,
}
use oslab.Fs.{Fs, bfree}
use oslab.Fs.Bitmap.{IsFs}
use oslab.Fs.Inode.{Inode, File, put_addr}
use oslab.Fs.Inode.Trunc.{trunc_slot, trunc_direct, free_entries}
use oslab.Fs.Inode.Trunc.Frees.{Owns, Freed, nothing-Freed, bfree-Freed, Owns-rest, Freed-then}

-- The same inode, but for its size and its addresses.
pub record Same (ip old : Inode) : Type 0 where
  pub dev : ip.dev ≡ old.dev
  pub inum : ip.inum ≡ old.inum
  pub refs : ip.refs ≡ old.refs
  pub valid : ip.valid ≡ old.valid
  pub type : ip.type ≡ old.type
  pub major : ip.major ≡ old.major
  pub minor : ip.minor ≡ old.minor
  pub nlink : ip.nlink ≡ old.nlink

pub Same-with :
    (ip : Inode) (size : ℕ) (addrs : ℕ → ℕ) → Same (record ip { size = size; addrs = addrs }) ip
Same-with ip size addrs = record {
  dev = refl;
  inum = refl;
  refs = refl;
  valid = refl;
  type = refl;
  major = refl;
  minor = refl;
  nlink = refl;
}

pub Same-trans : (a b c : Inode) → Same a b → Same b c → Same a c
Same-trans a b c h k = record {
  dev = h.dev ∙ k.dev;
  inum = h.inum ∙ k.inum;
  refs = h.refs ∙ k.refs;
  valid = h.valid ∙ k.valid;
  type = h.type ∙ k.type;
  major = h.major ∙ k.major;
  minor = h.minor ∙ k.minor;
  nlink = h.nlink ∙ k.nlink;
}

module _ (meta : ℕ) (v : ℕ → ℕ) where
  -- A call that gives back the blocks `v lo` to `v (hi - 1)`, the addresses `from` to `to - 1`.
  unfoldable pub Drops : ℕ → ℕ → ℕ → ℕ → File → Option File → Type 0
  Drops lo hi from to f r =
      (g : File) × (r ≡ some g)
      × Freed meta v lo hi f.fs g.fs
      × Same g.ip f.ip
      × ((j : ℕ) → from ≤ j → j < to → g.ip.addrs j ≡ 0)
      × ((j : ℕ) → (j < from) ⊎ (to ≤ j) → g.ip.addrs j ≡ f.ip.addrs j)

  pub trunc_slot-Drops :
      (k i : ℕ) (f : File)
      → IsFs meta f.fs
      → v k ≡ f.ip.addrs i
      → Owns meta v k (suc k) f.fs
      → Drops k (suc k) i (suc i) f (trunc_slot i f)
  unfolding trunc_slot Drops
  trunc_slot-Drops k i f valid is own = elim (ℕ_discrete (f.ip.addrs i) 0) [
    | yes z ↦ (
      f,
      rw z refl,
      nothing-Freed meta v k (suc k) f.fs valid (λ j lo hi. ap v (omega arith) ∙ is ∙ z),
      Same-with f.ip f.ip.size f.ip.addrs,
      λ j lo hi. ap f.ip.addrs (omega arith) ∙ z,
      λ j out. refl,
    )
    | no set ↦
        let (t, freed, h) =
          bfree-Freed meta v k f.fs valid
            (own.holds k (omega arith) (omega arith) (λ z. set (sym is ∙ z))) in
        let done : bfree (f.ip.addrs i) f.fs ≡ some t = ap (λ b. bfree b f.fs) (sym is) ∙ freed in
        (
          record { ip = put_addr f.ip i 0; fs = t },
          rw (==_ne (f.ip.addrs i) 0 set, done) refl,
          h,
          Same-with f.ip f.ip.size (put_addr f.ip i 0).addrs,
          λ j lo hi. ground arith,
          λ j out. ground (arith, out),
        )
  ]

  pub trunc_direct-Drops :
      (rounds i : ℕ) (f : File)
      → IsFs meta f.fs
      → ((j : ℕ) → i ≤ j → j < i + rounds → v j ≡ f.ip.addrs j)
      → Owns meta v i (i + rounds) f.fs
      → Drops i (i + rounds) i (i + rounds) f (trunc_direct rounds i f)
  unfolding trunc_direct Drops
  trunc_direct-Drops zero i f valid is own = (
    f,
    refl,
    nothing-Freed meta v i (i + 0) f.fs valid (λ j lo hi. absurd (omega arith)),
    Same-with f.ip f.ip.size f.ip.addrs,
    λ j lo hi. absurd (omega arith),
    λ j out. refl,
  )
  trunc_direct-Drops (suc rounds) i f valid is own =
      let first : Owns meta v i (suc i) f.fs = record {
        holds = λ k lo hi. own.holds k lo (omega arith);
        distinct =
            λ j k j_lo j_hi k_lo k_hi. own.distinct j k j_lo (omega arith) k_lo (omega arith);
      } in
      let (g, done, h, same, zero_at, kept) =
        trunc_slot-Drops i i f valid (is i (omega arith) (omega arith)) first in
      let rest : Owns meta v (suc i) (suc i + rounds) g.fs =
        subst (λ n. Owns meta v (suc i) n g.fs) (omega arith)
          (Owns-rest meta v i (suc i) (i + suc rounds) f.fs g.fs (omega arith) (omega arith) own
            h) in
      let (t, more, k, same_t, zero_t, kept_t) =
        trunc_direct-Drops rounds (suc i) g h.valid
          (λ j lo hi. is j (omega arith) (omega arith) ∙ sym (kept j (inr (omega arith)))) rest in
      (
        t,
        rw (done, trunc_direct) more,
        Freed-then meta v i (suc i) (i + suc rounds) f.fs g.fs t.fs (omega arith) (omega arith) own
            h (subst (λ n. Freed meta v (suc i) n g.fs t.fs) (omega arith) k),
        Same-trans t.ip g.ip f.ip same_t same,
        λ j lo hi. elim (ℕ_discrete j i) [
          | yes e ↦ kept_t j (inl (omega arith)) ∙ zero_at j lo (omega arith)
          | no ne ↦ zero_t j (omega arith) (omega arith)
        ],
        λ j out. elim out [
          | inl below ↦ kept_t j (inl (omega arith)) ∙ kept j (inl below)
          | inr above ↦ kept_t j (inr (omega arith)) ∙ kept j (inr (omega arith))
        ],
      )

  pub free_entries-Freed :
      (rounds j lo hi : ℕ) (a : ℕ → ℕ) (fs : Fs)
      → IsFs meta fs
      → lo + rounds ≡ hi
      → ((k : ℕ) → k < rounds → a (j + k) ≡ v (lo + k))
      → Owns meta v lo hi fs
      → (t : Fs) × (free_entries rounds j a fs ≡ some t) × Freed meta v lo hi fs t
  unfolding free_entries
  free_entries-Freed zero j lo hi a fs valid e is own =
      (fs, refl, nothing-Freed meta v lo hi fs valid (λ k k_lo k_hi. absurd (omega arith)))
  free_entries-Freed (suc rounds) j lo hi a fs valid e is own =
      let at : a j ≡ v lo = ap a (omega arith) ∙ is 0 (omega arith) ∙ ap v (omega arith) in
      let later : (k : ℕ) → k < rounds → a (suc j + k) ≡ v (suc lo + k) =
        λ k lt. ap a (omega arith) ∙ is (suc k) (omega arith) ∙ ap v (omega arith) in
      let finish : (t : Fs)
          → Freed meta v lo (suc lo) fs t
          → (u : Fs) × (free_entries rounds (suc j) a t ≡ some u) × Freed meta v lo hi fs u =
        λ t h.
          let rest = Owns-rest meta v lo (suc lo) hi fs t (omega arith) (omega arith) own h in
          let (u, done, k) =
            free_entries-Freed rounds (suc j) (suc lo) hi a t h.valid (omega arith) later rest in
          (u, done, Freed-then meta v lo (suc lo) hi fs t u (omega arith) (omega arith) own h k) in
      elim (ℕ_discrete (a j) 0) [
        | yes z ↦
            let none_freed =
              nothing-Freed meta v lo (suc lo) fs valid
                (λ k k_lo k_hi. ap v (omega arith) ∙ sym at ∙ z) in
            let (u, done, k) = finish fs none_freed in (u, rw (z, free_entries) done, k)
        | no set ↦
            let (t, freed, h) =
              bfree-Freed meta v lo fs valid
                (own.holds lo (omega arith) (omega arith) (λ z. set (at ∙ z))) in
            let here : bfree (a j) fs ≡ some t = ap (λ b. bfree b fs) at ∙ freed in
            let (u, done, k) = finish t h in (u, rw (==_ne (a j) 0 set, here, free_entries) done, k)
      ]
