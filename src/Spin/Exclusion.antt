-- ===== src/Spin/Exclusion.antt =====
-- Mutual exclusion by the lock of xv6/spinlock.c.
use oslab.Common.{
  ℕ, ◌≡◌, ◌≢◌, ◌∙◌, refl, sym, ap, subst, arith, true, false, none, some, ==_refl, ==_ne,
  Bool-cases, inl, inr,
}
use mathlib.Core.Option.{some-injective}
use oslab.Spin.{
  outside, spinning, got, holds, cleared, Cpu, Spinlock, Machine, put_cpu, pushcli, is_mine,
  acquire_start, acquire_try, acquire_end, release_start, release_end,
}
use oslab.Spin.Invariant.{
  is_in, is_out, is_holder, IsExclusive, move, holder_in, nobody_else, acquire_start-eq,
  release_start-eq, release_end-eq,
}

pub data Step (m : Machine) : Machine → Type 0 where
  starts :
      (c : ℕ) {t : Machine} → (m.cpus c).place ≡ outside → acquire_start c m ≡ some t → Step m t
  tries : (c : ℕ) → (m.cpus c).place ≡ spinning → Step m (acquire_try c m)
  records : (c : ℕ) → (m.cpus c).place ≡ got → Step m (acquire_end c m)
  clears : (c : ℕ) {t : Machine} → (m.cpus c).place ≡ holds → release_start c m ≡ some t → Step m t
  unlocks : (c : ℕ) {t : Machine} → (m.cpus c).place ≡ cleared → release_end c m ≡ some t → Step m t

pub data Reach (m : Machine) : Machine → Type 0 where
  here : Reach m m
  next : {t u : Machine} → Reach m t → Step t u → Reach m u

start-IsExclusive :
    (m : Machine) (c : ℕ)
    → IsExclusive m
    → (m.cpus c).place ≡ outside
    → IsExclusive (put_cpu m c (record (pushcli (m.cpus c)) { place = spinning }))
unfolding pushcli
start-IsExclusive m c v at =
    move m m.lock c (record (pushcli (m.cpus c)) { place = spinning }) v (λ e. cc e) (λ e. cc e)
      (λ d ne. v.locked d) (v.named c ∙ ap is_holder at) (λ d ne. v.named d)
      (λ e. (refl, omega arith))

try-IsExclusive :
    (m : Machine) (c : ℕ)
    → IsExclusive m
    → (m.cpus c).place ≡ spinning
    → IsExclusive (acquire_try c m)
unfolding acquire_try
try-IsExclusive m c v at =
    let lk : Spinlock = record m.lock { locked = true } in
    let quiet = v.masked c (ap is_out at) in
    elim (Bool-cases m.lock.locked) [
      | inl taken ↦ rw taken (
          move m lk c (record (m.cpus c) { place = spinning }) v (λ e. cc e) (λ e. refl)
            (λ d ne d_in. refl) (v.named c ∙ ap is_holder at) (λ d ne. v.named d) (λ e. quiet))
      | inr free ↦ rw free (
          move m lk c (record (m.cpus c) { place = got }) v
            (λ e d ne. elim (Bool-cases (is_in (m.cpus d).place)) [
              | inl d_in ↦ cc (v.locked d d_in, free)
              | inr d_out ↦ d_out
            ])
            (λ e. refl) (λ d ne d_in. refl) (v.named c ∙ ap is_holder at) (λ d ne. v.named d)
            (λ e. quiet))
    ]

end-IsExclusive :
    (m : Machine) (c : ℕ) → IsExclusive m → (m.cpus c).place ≡ got → IsExclusive (acquire_end c m)
unfolding acquire_end
end-IsExclusive m c v at =
    let else_out = nobody_else m c v (ap is_in at) in
    move m (record m.lock { cpu = some c }) c (record (m.cpus c) { place = holds }) v
      (λ e. else_out) (λ e. v.locked c (ap is_in at)) (λ d ne. v.locked d) (==_refl c)
      (λ d ne. ==_ne c d (λ e. ne (sym e)) ∙ sym (holder_in (m.cpus d).place (else_out d ne)))
      (λ e. v.masked c (ap is_out at))

clear-IsExclusive :
    (m : Machine) (c : ℕ)
    → IsExclusive m
    → (m.cpus c).place ≡ holds
    → IsExclusive (
        put_cpu
          (record m { lock = record m.lock { cpu = none } })
          c
          (record (m.cpus c) { place = cleared }))
clear-IsExclusive m c v at =
    let else_out = nobody_else m c v (ap is_in at) in
    move m (record m.lock { cpu = none }) c (record (m.cpus c) { place = cleared }) v
      (λ e. else_out) (λ e. v.locked c (ap is_in at)) (λ d ne. v.locked d) refl
      (λ d ne. sym (holder_in (m.cpus d).place (else_out d ne))) (λ e. v.masked c (ap is_out at))

unlock-IsExclusive :
    (m : Machine) (c : ℕ) (x : Cpu)
    → IsExclusive m
    → (m.cpus c).place ≡ cleared
    → IsExclusive (
        put_cpu
          (record m { lock = record m.lock { locked = false } })
          c
          (record x { place = outside }))
unlock-IsExclusive m c x v at =
    let else_out = nobody_else m c v (ap is_in at) in
    move m (record m.lock { locked = false }) c (record x { place = outside }) v (λ e. cc e)
      (λ e. cc e) (λ d ne d_in. cc (else_out d ne, d_in)) (v.named c ∙ ap is_holder at)
      (λ d ne. v.named d) (λ e. cc e)

Step-IsExclusive : {m t : Machine} → Step m t → IsExclusive m → IsExclusive t
Step-IsExclusive {m} (starts c {t} at e) v =
    let is = some-injective _ _ (sym (acquire_start-eq m c v at) ∙ e) in
    subst IsExclusive is (start-IsExclusive m c v at)
Step-IsExclusive {m} (tries c at) v = try-IsExclusive m c v at
Step-IsExclusive {m} (records c at) v = end-IsExclusive m c v at
Step-IsExclusive {m} (clears c {t} at e) v =
    let is = some-injective _ _ (sym (release_start-eq m c v at) ∙ e) in
    subst IsExclusive is (clear-IsExclusive m c v at)
Step-IsExclusive {m} (unlocks c {t} at e) v =
    let (x, done) = release_end-eq m c v at in
    let is = some-injective _ _ (sym done ∙ e) in
    subst IsExclusive is (unlock-IsExclusive m c x v at)

Reach-IsExclusive : {m t : Machine} → IsExclusive m → Reach m t → IsExclusive t
Reach-IsExclusive v here = v
Reach-IsExclusive v (next r st) = Step-IsExclusive st (Reach-IsExclusive v r)

-- Mutual exclusion. Start with the lock free and every CPU outside of it, and let CPUs take the steps
-- of `acquire` and `release` in any interleaving. Then in every state that is reached at most one CPU
-- is between the exchange that takes the lock and the store that frees it, the lock is taken then, and
-- a CPU that is in `acquire` or `release`, or holds the lock, takes no interrupts. No panic is
-- possible: `acquire` outside of the lock finds that the CPU does not hold it, `release` by the holder
-- that it does, and `popcli` that interrupts are off and the count is not 0.
pub acquire-Reach :
    (m t : Machine)
    → m.lock ≡ record { locked = false; cpu = none }
    → ((c : ℕ) → (m.cpus c).place ≡ outside)
    → Reach m t
    → IsExclusive t
      × ((c : ℕ) → (t.cpus c).place ≡ outside → acquire_start c t ≢ none)
      × ((c : ℕ) → (t.cpus c).place ≡ holds → release_start c t ≢ none)
      × ((c : ℕ) → (t.cpus c).place ≡ cleared → release_end c t ≢ none)
acquire-Reach m t free all_out r =
    let start : IsExclusive m = record {
      unique = λ c d c_in d_in. cc (ap is_in (all_out c), c_in);
      locked = λ c c_in. cc (ap is_in (all_out c), c_in);
      named = λ c. ap (λ (lk : Spinlock). is_mine lk.cpu c) free ∙ sym (ap is_holder (all_out c));
      masked = λ c out. cc (ap is_out (all_out c), out);
    } in
    let v = Reach-IsExclusive start r in
    (
      v,
      λ c at e. cc (acquire_start-eq t c v at, e),
      λ c at e. cc (release_start-eq t c v at, e),
      λ c at e. let (x, done) = release_end-eq t c v at in cc (done, e),
    )
