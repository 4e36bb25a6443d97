-- ===== src/Fs/Icache/Refs.antt =====
-- The users of the inode cache of xv6/fs.c: references taken and given back in any order.
use oslab.Common.{
  ℕ, ◌<◌, ◌≡◌, ◌∙◌, refl, sym, ap, subst, arith, true, Option, none, some, [], ◌∷◌, ==_refl, ==_ne,
  inl, inr, get_elem?, erase_at, count, count-erase_at,
}
use oslab.Fs.{Fs}
use oslab.Fs.Inode.{Inode}
use oslab.Fs.Icache.{Icache, ninode, put_inode, is_inode, more_refs, iget, idup, iput}
use oslab.Fs.Icache.Gets.{Gets, iget-Gets}
use oslab.Fs.Icache.Puts.{iput-Puts}
use oslab.Fs.Icache.Counts.{
  Users, IsIcache, is_inode-true, same-IsIcache, mine, more-IsIcache, fresh-IsIcache,
}

-- A call that returns, or a change that the holder of an inode makes to it and to the disk.
pub data Step (s : Users) : Users → Type 0 where
  gets :
      (dev inum k : ℕ) {c : Icache}
      → iget dev inum s.cache ≡ some (k, c)
      → Step s (record { cache = c; held = k ∷ s.held })
  dups :
      (i k : ℕ)
      → get_elem? s.held i ≡ some k
      → Step s (record { cache = idup k s.cache; held = k ∷ s.held })
  puts :
      (i k : ℕ) {c : Icache}
      → get_elem? s.held i ≡ some k
      → iput k s.cache ≡ some c
      → Step s (record { cache = c; held = erase_at s.held i })
  works :
      (i k : ℕ) (ip : Inode) (fs : Fs)
      → get_elem? s.held i ≡ some k
      → (ip.dev ≡ (s.cache.inode k).dev)
        × (ip.inum ≡ (s.cache.inode k).inum)
        × (ip.refs ≡ (s.cache.inode k).refs)
      → Step s (record s { cache = put_inode (record s.cache { fs = fs }) k ip })

pub data Reach (s : Users) : Users → Type 0 where
  here : Reach s s
  next : {t u : Users} → Reach s t → Step t u → Reach s u

gets-IsIcache :
    (s : Users) (dev inum k : ℕ) (c : Icache)
    → IsIcache s
    → iget dev inum s.cache ≡ some (k, c)
    → IsIcache (record { cache = c; held = k ∷ s.held })
gets-IsIcache s dev inum k c v e =
    let g : Gets dev inum s.cache (some (k, c)) =
      subst (Gets dev inum s.cache) e (iget-Gets dev inum s.cache) in
    elim g.1 [
      | inl (hit, is) ↦
          let held : 0 < count k s.held = ground (arith, hit, v.counted k g.0) in
          subst (λ d. IsIcache (record { cache = d; held = k ∷ s.held })) (sym is)
            (more-IsIcache s k v held)
      | inr (miss, free, is) ↦
          subst (λ d. IsIcache (record { cache = d; held = k ∷ s.held })) (sym is)
            (fresh-IsIcache s dev inum k v g.0 free miss)
    ]

puts-IsIcache :
    (s : Users) (i k : ℕ) (c : Icache)
    → IsIcache s
    → get_elem? s.held i ≡ some k
    → iput k s.cache ≡ some c
    → IsIcache (record { cache = c; held = erase_at s.held i })
puts-IsIcache s i k c v at e =
    let p = iput-Puts k s.cache c e in
    let t : Users = record { cache = c; held = erase_at s.held i } in
    let less = count-erase_at k s.held i k at in
    same-IsIcache s t k v p.dev p.inum p.away
      (λ lt. p.refs ∙ ground (arith, v.counted k lt, less, ==_refl k))
      (λ j ne. ground (arith, count-erase_at j s.held i k at, ne)) (λ h. mine k i s.held at)

Step-IsIcache : {s t : Users} → Step s t → IsIcache s → IsIcache t
unfolding idup
Step-IsIcache {s} (gets dev inum k {c} e) v = gets-IsIcache s dev inum k c v e
Step-IsIcache {s} (dups i k at) v = more-IsIcache s k v (mine k i s.held at)
Step-IsIcache {s} (puts i k {c} at e) v = puts-IsIcache s i k c v at e
Step-IsIcache {s} (works i k ip fs at same) v =
    let t : Users = record s { cache = put_inode (record s.cache { fs = fs }) k ip } in
    same-IsIcache s t k v (rw (==_refl k) same.0) (rw (==_refl k) same.1)
      (λ j ne. rw (==_ne j k ne) refl) (λ lt. rw (==_refl k) (same.2 ∙ v.counted k lt))
      (λ j ne. refl) (λ h. h)

Reach-IsIcache : {s t : Users} → IsIcache s → Reach s t → IsIcache t
Reach-IsIcache v here = v
Reach-IsIcache v (next r st) = Step-IsIcache st (Reach-IsIcache v r)

is_inode-held :
    (dev inum : ℕ) (ip : Inode)
    → is_inode dev inum ip ≡ true
    → (0 < ip.refs) × (ip.dev ≡ dev) × (ip.inum ≡ inum)
is_inode-held dev inum ip h = (ground (arith, h), ground (arith, h), ground (arith, h))

shared :
    (s : Users) (k : ℕ)
    → IsIcache s
    → 0 < count k s.held
    → iget (s.cache.inode k).dev (s.cache.inode k).inum s.cache ≡ some (k, idup k s.cache)
unfolding idup
shared s k v held =
    go (iget dev inum s.cache) (iget-Gets dev inum s.cache)
      (is_inode-true dev inum (s.cache.inode k) (omega (arith, v.counted k inside, held)) refl refl)
  where
    dev : ℕ
    dev = (s.cache.inode k).dev

    inum : ℕ
    inum = (s.cache.inode k).inum

    inside : k < ninode
    inside = v.inside k held

    go :
        (r : Option (ℕ × Icache))
        → Gets dev inum s.cache r
        → is_inode dev inum (s.cache.inode k) ≡ true
        → r ≡ some (k, idup k s.cache)
    go none h hit = cc (h.0 k inside, hit)
    go (some (j, c)) h hit = elim h.1 [
      | inr (miss, free, is) ↦ cc (miss k inside, hit)
      | inl (found, is) ↦
          let at = is_inode-held dev inum (s.cache.inode j) found in
          let same : j ≡ k = v.unique j k (omega (arith, at.0, v.counted j h.0)) held at.1 at.2 in
          ap (λ d. some (j, d)) is
          ∙ ap (λ i. some (i, put_inode s.cache i (more_refs (s.cache.inode i)))) same
    ]

-- Users of an inode share one entry of the cache. Start from a cache without references and let users
-- call `iget`, `idup` and `iput` in any order, with changes in between to the inodes that they hold
-- and to the disk. Then in every state that is reached each entry counts the pointers to it, no two
-- entries in use are of the same inode, and `iget` of an inode that somebody holds returns that
-- pointer with one more reference.
pub iget-Reach :
    (c : Icache) (s : Users)
    → ((k : ℕ) → (c.inode k).refs ≡ 0)
    → Reach (record { cache = c; held = [] }) s
    → IsIcache s
      × ((k : ℕ)
          → 0 < count k s.held
          → iget (s.cache.inode k).dev (s.cache.inode k).inum s.cache ≡ some (k, idup k s.cache))
unfolding idup
iget-Reach c s unused r =
    let start : IsIcache (record { cache = c; held = [] }) = record {
      counted = λ k lt. unused k;
      inside = λ k h. absurd (omega arith);
      unique = λ j k j_h k_h d n. absurd (omega arith);
    } in
    let v = Reach-IsIcache start r in (v, λ k held. shared s k v held)
