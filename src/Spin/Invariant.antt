-- ===== src/Spin/Invariant.antt =====
-- What holds of the lock of xv6/spinlock.c and its CPUs, and a move of one CPU.
use oslab.Common.{
  ℕ, ◌-◌, ◌<◌, ◌≡◌, ◌≢◌, ◌∙◌, refl, sym, ap, arith, Bool, true, false, ◌&&◌, none, some, ◌==◌,
  ==_refl, ==_ne, Bool-cases, inl, inr, ℕ_discrete,
}
use oslab.Spin.{
  Place, outside, spinning, got, holds, cleared, Cpu, Spinlock, Machine, put_cpu, pushcli, popcli,
  is_mine, holding, acquire_start, release_start, release_end,
}

-- The places between the exchange that took the lock and the store that gives it back.
abbrev pub is_in : Place → Bool
is_in outside = false
is_in spinning = false
is_in got = true
is_in holds = true
is_in cleared = true

abbrev pub is_out : Place → Bool
is_out outside = true
is_out spinning = false
is_out got = false
is_out holds = false
is_out cleared = false

abbrev pub is_holder : Place → Bool
is_holder outside = false
is_holder spinning = false
is_holder got = false
is_holder holds = true
is_holder cleared = false

-- At most one CPU is in the lock; it is locked then; its field `cpu` names the holder; and a CPU that
-- is anywhere in `acquire` or `release` takes no interrupts.
pub record IsExclusive (m : Machine) : Type 0 where
  pub unique : (c d : ℕ) → is_in (m.cpus c).place ≡ true → is_in (m.cpus d).place ≡ true → c ≡ d
  pub locked : (c : ℕ) → is_in (m.cpus c).place ≡ true → m.lock.locked ≡ true
  pub named : (c : ℕ) → is_mine m.lock.cpu c ≡ is_holder (m.cpus c).place
  pub masked :
      (c : ℕ)
      → is_out (m.cpus c).place ≡ false
      → ((m.cpus c).interrupts ≡ false) × (0 < (m.cpus c).ncli)

-- One CPU moves, and the lock changes with it.
pub move :
    (m : Machine) (lk : Spinlock) (c : ℕ) (x : Cpu)
    → IsExclusive m
    → (is_in x.place ≡ true → (d : ℕ) → d ≢ c → is_in (m.cpus d).place ≡ false)
    → (is_in x.place ≡ true → lk.locked ≡ true)
    → ((d : ℕ) → d ≢ c → is_in (m.cpus d).place ≡ true → lk.locked ≡ true)
    → (is_mine lk.cpu c ≡ is_holder x.place)
    → ((d : ℕ) → d ≢ c → is_mine lk.cpu d ≡ is_holder (m.cpus d).place)
    → (is_out x.place ≡ false → (x.interrupts ≡ false) × (0 < x.ncli))
    → IsExclusive (put_cpu (record m { lock = lk }) c x)
move m lk c x v alone mine others named names masked =
    let t = put_cpu (record m { lock = lk }) c x in
    let at_c : t.cpus c ≡ x = rw (==_refl c) refl in
    let away : (d : ℕ) → d ≢ c → t.cpus d ≡ m.cpus d = λ d ne. rw (==_ne d c ne) refl in
    let in_c : (d : ℕ) → d ≡ c → is_in (t.cpus d).place ≡ is_in x.place =
      λ d e. ap (λ i. is_in (t.cpus i).place) e ∙ ap (λ (y : Cpu). is_in y.place) at_c in
    let in_d : (d : ℕ) → d ≢ c → is_in (t.cpus d).place ≡ is_in (m.cpus d).place =
      λ d ne. ap (λ (y : Cpu). is_in y.place) (away d ne) in
    record {
      unique = λ a b a_in b_in. elim (ℕ_discrete a c) [
        | yes a_c ↦ elim (ℕ_discrete b c) [
          | yes b_c ↦ a_c ∙ sym b_c
          | no b_ne ↦ cc (alone (sym (in_c a a_c) ∙ a_in) b b_ne, sym (in_d b b_ne) ∙ b_in)
        ]
        | no a_ne ↦ elim (ℕ_discrete b c) [
          | yes b_c ↦ cc (alone (sym (in_c b b_c) ∙ b_in) a a_ne, sym (in_d a a_ne) ∙ a_in)
          | no b_ne ↦ v.unique a b (sym (in_d a a_ne) ∙ a_in) (sym (in_d b b_ne) ∙ b_in)
        ]
      ];
      locked = λ d d_in. elim (ℕ_discrete d c) [
        | yes e ↦ mine (sym (in_c d e) ∙ d_in)
        | no ne ↦ others d ne (sym (in_d d ne) ∙ d_in)
      ];
      named = λ d. elim (ℕ_discrete d c) [
        | yes e ↦ rw (e, ==_refl c) named
        | no ne ↦ rw (==_ne d c ne) (names d ne)
      ];
      masked = λ d out. elim (ℕ_discrete d c) [
        | yes e ↦ rw (e, ==_refl c) (masked (rw (e, ==_refl c) at out))
        | no ne ↦ rw (==_ne d c ne) (v.masked d (rw (==_ne d c ne) at out))
      ];
    }

pub holder_in : (p : Place) → is_in p ≡ false → is_holder p ≡ false
holder_in outside e = refl
holder_in spinning e = refl
holder_in got e = cc e
holder_in holds e = cc e
holder_in cleared e = cc e

-- Next to a CPU in the lock no other is in it.
pub nobody_else :
    (m : Machine) (c : ℕ)
    → IsExclusive m
    → is_in (m.cpus c).place ≡ true
    → (d : ℕ) → d ≢ c
    → is_in (m.cpus d).place ≡ false
nobody_else m c v c_in d ne = elim (Bool-cases (is_in (m.cpus d).place)) [
  | inl d_in ↦ absurd (ne (v.unique d c d_in c_in))
  | inr d_out ↦ d_out
]

pub acquire_start-eq :
    (m : Machine) (c : ℕ)
    → IsExclusive m
    → (m.cpus c).place ≡ outside
    → acquire_start c m ≡ some (put_cpu m c (record (pushcli (m.cpus c)) { place = spinning }))
unfolding acquire_start holding
acquire_start-eq m c v at =
    let free : is_mine m.lock.cpu c ≡ false = v.named c ∙ ap is_holder at in
    elim (Bool-cases m.lock.locked) [
      | inl taken ↦ rw (taken, free) refl
      | inr unlocked ↦ rw unlocked refl
    ]

pub release_start-eq :
    (m : Machine) (c : ℕ)
    → IsExclusive m
    → (m.cpus c).place ≡ holds
    → release_start c m
      ≡ some (
          put_cpu
            (record m { lock = record m.lock { cpu = none } })
            c
            (record (m.cpus c) { place = cleared }))
unfolding release_start holding
release_start-eq m c v at = rw (v.locked c (ap is_in at), v.named c ∙ ap is_holder at) refl

popcli-eq : (x : Cpu) → x.interrupts ≡ false → 0 < x.ncli → (y : Cpu) × (popcli x ≡ some y)
unfolding popcli
popcli-eq x off deep = (
  record x { ncli = x.ncli - 1; interrupts = x.ncli - 1 == 0 && x.intena },
  rw (off, ==_ne x.ncli 0 (λ z. omega (arith, z, deep))) refl,
)

pub release_end-eq :
    (m : Machine) (c : ℕ)
    → IsExclusive m
    → (m.cpus c).place ≡ cleared
    → (x : Cpu) × (release_end c m
        ≡ some (
            put_cpu
              (record m { lock = record m.lock { locked = false } })
              c
              (record x { place = outside })))
unfolding release_end
release_end-eq m c v at =
    let (off, deep) = v.masked c (ap is_out at) in
    let (x, popped) = popcli-eq (m.cpus c) off deep in (x, rw (popped, release_end) refl)
