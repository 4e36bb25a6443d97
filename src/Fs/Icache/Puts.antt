-- ===== src/Fs/Icache/Puts.antt =====
-- `iput` of xv6/fs.c changes one entry's reference count.
use oslab.Common.{
  ℕ, zero, suc, ◌-◌, ◌*◌, ◌≡◌, ◌≢◌, refl, sym, ap, false, ◌&&◌, Option, none, some, ◌==◌, bind-some,
  ==_refl, ==_ne, Bool-cases, inl, inr,
}
use mathlib.Core.Option.{some-injective}
use oslab.Fs.{bfree}
use oslab.Fs.Inode.{Inode, File, uint_at, put_addr, iupdate}
use oslab.Fs.Inode.Trunc.{trunc_slot, trunc_direct, free_entries, trunc_indirect, itrunc}
use oslab.Fs.Inode.Trunc.Ends.{Same, Same-with, Same-trans}
use oslab.Fs.Icache.{Icache, put_inode, drop_inode, less_refs, iput}

-- What a call returns is the same inode, but for its size and its addresses.
some-Same :
    (ip : Inode) (f g : File) (size : ℕ) (addrs : ℕ → ℕ)
    → f.ip ≡ record ip { size = size; addrs = addrs }
    → some f ≡ some g
    → Same g.ip ip
some-Same ip f g size addrs is e =
    let same : f ≡ g = some-injective f g e in rw (sym same, is) (Same-with ip size addrs)

trunc_slot-Same : (i : ℕ) (f g : File) → trunc_slot i f ≡ some g → Same g.ip f.ip
unfolding trunc_slot
trunc_slot-Same i f g e = elim (Bool-cases (f.ip.addrs i == 0)) [
  | inl z ↦ some-Same f.ip f g f.ip.size f.ip.addrs refl (rw z at e)
  | inr set ↦
      let (fs, _, done) =
        bind-some (bfree (f.ip.addrs i) f.fs)
          (λ fs. some (record { ip = put_addr f.ip i 0; fs = fs })) g (rw set at e) in
      some-Same f.ip (record { ip = put_addr f.ip i 0; fs = fs }) g f.ip.size
        (put_addr f.ip i 0).addrs refl done
]

trunc_direct-Same : (rounds i : ℕ) (f g : File) → trunc_direct rounds i f ≡ some g → Same g.ip f.ip
unfolding trunc_direct
trunc_direct-Same zero i f g e = some-Same f.ip f g f.ip.size f.ip.addrs refl e
trunc_direct-Same (suc rounds) i f g e =
    let (t, one, rest) = bind-some (trunc_slot i f) (trunc_direct rounds (suc i)) g e in
    Same-trans g.ip t.ip f.ip (trunc_direct-Same rounds (suc i) t g rest)
      (trunc_slot-Same i f t one)

trunc_indirect-Same : (f g : File) → trunc_indirect f ≡ some g → Same g.ip f.ip
unfolding trunc_indirect
trunc_indirect-Same f g e = elim (Bool-cases (f.ip.addrs 12 == 0)) [
  | inl z ↦ some-Same f.ip f g f.ip.size f.ip.addrs refl (rw z at e)
  | inr set ↦
      let a : ℕ → ℕ = λ j. uint_at (f.fs.block (f.ip.addrs 12)) (4 * j) in
      let (fs, _, last) =
        bind-some (free_entries 128 0 a f.fs) (λ fs. trunc_slot 12 (record f { fs = fs })) g
          (rw set at e) in
      trunc_slot-Same 12 (record f { fs = fs }) g last
]

abbrev emptied : File → File
emptied h =
    let empty : File = record h { ip = record h.ip { size = 0 } } in
    record empty { fs = iupdate empty }

abbrev after_direct : File → Option File
after_direct g = elim (trunc_indirect g) [ none ↦ none | some h ↦ some (emptied h) ]

itrunc-Same : (f g : File) → itrunc f ≡ some g → Same g.ip f.ip
unfolding itrunc
itrunc-Same f g e =
    let (g1, one, e1) = bind-some (trunc_direct 12 0 f) (λ g1. after_direct g1) g e in
    let (g2, two, e2) = bind-some (trunc_indirect g1) (λ h. some (emptied h)) g e1 in
    Same-trans g.ip g2.ip f.ip (some-Same g2.ip (emptied g2) g 0 g2.ip.addrs refl e2) (
      Same-trans g2.ip g1.ip f.ip (trunc_indirect-Same g1 g2 two) (trunc_direct-Same 12 0 f g1 one))

-- The entries after `iput`: the one has a reference less, and keeps its numbers; the others are as
-- they were.
pub record Puts (k : ℕ) (c d : Icache) : Type 0 where
  pub refs : (d.inode k).refs ≡ (c.inode k).refs - 1
  pub dev : (d.inode k).dev ≡ (c.inode k).dev
  pub inum : (d.inode k).inum ≡ (c.inode k).inum
  pub away : (j : ℕ) → j ≢ k → d.inode j ≡ c.inode j

less_refs-Puts :
    (k : ℕ) (b c : Icache)
    → (b.inode k).refs ≡ (c.inode k).refs
    → (b.inode k).dev ≡ (c.inode k).dev
    → (b.inode k).inum ≡ (c.inode k).inum
    → ((j : ℕ) → j ≢ k → b.inode j ≡ c.inode j)
    → Puts k c (less_refs k b)
less_refs-Puts k b c refs dev inum away = record {
  refs = rw (==_refl k) (ap (λ n. n - 1) refs);
  dev = rw (==_refl k) dev;
  inum = rw (==_refl k) inum;
  away = λ j ne. rw (==_ne j k ne) (away j ne);
}

abbrev dropped : ℕ → Icache → File → Icache
dropped k c f =
    let freed : Inode = record f.ip { type = 0 } in
    put_inode (record c { fs = iupdate (record { ip = freed; fs = f.fs }) }) k
      (record freed { valid = false })

drop_inode-keeps : (k : ℕ) (c b : Icache) → drop_inode k c ≡ some b → Puts k c (less_refs k b)
unfolding drop_inode
drop_inode-keeps k c b e =
    let (f, one, e1) =
      bind-some (itrunc (record { ip = c.inode k; fs = c.fs })) (λ f. some (dropped k c f)) b e in
    let same = itrunc-Same (record { ip = c.inode k; fs = c.fs }) f one in
    let is : dropped k c f ≡ b = some-injective _ _ e1 in
    rw (sym is) (
      less_refs-Puts k (dropped k c f) c (rw (==_refl k) same.refs) (rw (==_refl k) same.dev)
        (rw (==_refl k) same.inum) (λ j ne. rw (==_ne j k ne) refl))

pub iput-Puts : (k : ℕ) (c d : Icache) → iput k c ≡ some d → Puts k c d
unfolding iput
iput-Puts k c d e =
    elim (Bool-cases ((c.inode k).valid && ((c.inode k).nlink == 0 && (c.inode k).refs == 1))) [
      | inr more ↦
          let is : less_refs k c ≡ d = some-injective _ _ (rw more at e) in
          rw (sym is) (less_refs-Puts k c c refl refl refl (λ j ne. refl))
      | inl last ↦
          let (b, one, e1) =
            bind-some (drop_inode k c) (λ b. some (less_refs k b)) d (rw last at e) in
          let is : less_refs k b ≡ d = some-injective _ _ e1 in
          rw (sym is) (drop_inode-keeps k c b one)
    ]
