-- ===== src/Log/Ops/Slot.antt =====
-- Where `log_write` of xv6/log.c puts a block, and what the log names afterwards.
use oslab.Common.{
  ℕ, zero, suc, ◌+◌, ◌≤◌, ◌<◌, ◌≡◌, ◌≢◌, refl, arith, true, false, ◌||◌, ◌==◌, dec_lt, ℕ_discrete,
  Bool-cases, inl, inr, if◌then◌else◌,
}
use oslab.Disk.{Log, update}
use oslab.Log.Ops.{absorb, find_slot}
use oslab.Log.Commit.{named, named_block}

-- Where `log_write` puts the block: at the first entry that names it, or behind the last entry.
record Slot (block : ℕ → ℕ) (b i rounds j : ℕ) : Type 0 where
  low : i ≤ j
  high : j ≤ i + rounds
  hit : j < i + rounds → block j ≡ b
  first : (k : ℕ) → i ≤ k → k < j → block k ≢ b

find_slot-Slot :
    (rounds i : ℕ) (block : ℕ → ℕ) (b : ℕ) → Slot block b i rounds (find_slot rounds i block b)
unfolding find_slot
find_slot-Slot zero i block b = record {
  low = omega arith;
  high = omega arith;
  hit = λ h. absurd (omega arith);
  first = λ k p q. absurd (omega arith);
}
find_slot-Slot (suc rounds) i block b = elim (Bool-cases (block i == b)) [
  | inl e ↦
      rw (e, find_slot)
        (record {
          low = omega arith;
          high = omega arith;
          hit = λ h. ground arith;
          first = λ k p q. absurd (omega arith);
        })
  | inr e ↦
      rw (e, find_slot)
        (let s = find_slot-Slot rounds (suc i) block b in
          record {
            low = omega (arith, s.low);
            high = omega (arith, s.high);
            hit = λ h. s.hit (omega arith);
            first = λ k p q. elim (ℕ_discrete k i) [
              | yes same ↦ ground arith
              | no apart ↦ s.first k (omega arith) q
            ];
          })
]

named_of : (block : ℕ → ℕ) (n k b : ℕ) → k < n → block k ≡ b → named block n b ≡ true
named_of block zero k b h e = absurd (omega arith)
named_of block (suc n) k b h e = elim (ℕ_discrete k n) [
  | yes same ↦ ground arith
  | no apart ↦ ground (arith, named_of block n k b)
]

not_named : (block : ℕ → ℕ) (n b : ℕ) → ((k : ℕ) → k < n → block k ≢ b) → named block n b ≡ false
not_named block zero b h = refl
not_named block (suc n) b h = ground (arith, h n, not_named block n b (λ k lt. h k (omega arith)))

-- `log_write` adds block `b` to the blocks that the log names, and an entry if it was not named.
pub absorb_lem :
    (b : ℕ) (l : Log)
    → ((absorb b l).n ≡ (if named l.block l.n b then l.n else l.n + 1))
      × ((c : ℕ) → named (absorb b l).block (absorb b l).n c ≡ (b == c || named l.block l.n c))
unfolding absorb
absorb_lem b l =
    let j = find_slot l.n 0 l.block b in
    let s : Slot l.block b 0 l.n j = find_slot-Slot l.n 0 l.block b in
    elim (dec_lt j l.n) [
      | yes found ↦
          let old : named l.block l.n b ≡ true =
            named_of l.block l.n j b found (s.hit (omega arith)) in
          let kept : (k : ℕ) → update l.block j b k ≡ l.block k =
            λ k. ground (arith, s.hit (omega arith)) in
          (
            ground arith,
            λ c. ground (arith, named_block (update l.block j b) l.block l.n c (λ k _. kept k)),
          )
      | no new ↦
          let end : j ≡ l.n = omega (arith, s.high) in
          let old : named l.block l.n b ≡ false =
            not_named l.block l.n b (λ k lt. s.first k (omega arith) (omega arith)) in
          (
            ground arith,
            λ c.
                ground
                  (arith, named_block (update l.block j b) l.block l.n c (λ k lt. ground arith)),
          )
    ]
