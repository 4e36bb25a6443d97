-- ===== src/Kalloc/Tests.antt =====
-- Runs of the page allocator of xv6/kalloc.c, and its theorems there.
use oslab.Common.{ℕ, ◌-◌, ◌/◌, ◌≡◌, refl, arith, [], ◌∷◌, some}
use mathlib.Core.Option
use oslab.Kalloc.{Kmem, pgsize, pgroundup, kfree, kalloc, kinit1}
use oslab.Kalloc.Spec.{IsFree}
use oslab.Kalloc.Range.{pages_from, kinit1-IsFree}
use oslab.Kalloc.Owners.{Pool, Reach, here, next, allocates, Shares, IsFresh, kalloc-Reach}

abbrev kernel_end : ℕ
kernel_end = 0x80115000

abbrev fresh : Kmem
fresh = record { use_lock = 1; freelist = 0; memory = λ a. 0 }

-- One page is free.
abbrev one_page : Kmem
one_page = record { use_lock = 0; freelist = 0x80116000; memory = λ a. 0 }

fresh-IsFree : IsFree kernel_end fresh []
fresh-IsFree = record { chain = refl; good = tt; once = λ a. omega arith }

one_page-IsFree : IsFree kernel_end one_page (0x80116000 ∷ [])
one_page-IsFree = record {
  chain = (refl, refl);
  good = (record { aligned = omega arith; after_kernel = omega arith; physical = omega arith }, tt);
  once = λ a. ground arith;
}

kinit1_runs :
    Option.map (λ k. k.freelist) (kinit1 kernel_end 0x80115001 0x80118fff fresh) ≡ some 0x80117000
unfolding kinit1 kfree
kinit1_runs = refl

kinit1-IsFree_example :
    (k' : Kmem) × (kinit1 kernel_end 0x80115001 0x80118fff fresh ≡ some k')
    × IsFree kernel_end k'
        (pages_from (pgroundup 0x80115001) ((0x80118fff - pgroundup 0x80115001) / pgsize) [])
    × (k'.use_lock ≡ 0)
kinit1-IsFree_example =
    kinit1-IsFree kernel_end 0x80115001 0x80118fff fresh (omega arith) (omega arith) (omega arith)
      (omega arith) fresh-IsFree

abbrev taken : Pool
taken = record { kmem = record one_page { freelist = 0 }; held = 0x80116000 ∷ [] }

taken-Reach : Reach kernel_end (record { kmem = one_page; held = [] }) taken
unfolding kalloc
taken-Reach = next here (allocates (omega arith))

kalloc-Reach_example :
    Shares kernel_end (0x80116000 ∷ []) taken
    × IsFresh kernel_end (0x80116000 ∷ []) taken (kalloc taken.kmem).0
kalloc-Reach_example =
    kalloc-Reach kernel_end (0x80116000 ∷ []) one_page taken (omega arith) one_page-IsFree
      taken-Reach
