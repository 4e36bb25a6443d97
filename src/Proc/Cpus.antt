-- ===== src/Proc/Cpus.antt =====
-- The CPUs of xv6/proc.c run different processes: the three ways in which a step changes who runs.
use oslab.Common.{
  ℕ, ◌<◌, ◌≡◌, ◌≢◌, ◌⊎◌, ◌∙◌, sym, ap, subst, Option, none, some, inl, inr, ℕ_discrete, ==_refl,
  ==_ne,
}
use mathlib.Core.Option.{some-injective}
use oslab.Proc.{nproc, State, Table}
use oslab.Proc.System.{Machine, IsAssigned, assign}

assign-cases :
    (cpu : ℕ → Option ℕ) (c : ℕ) (p : Option ℕ) (d j : ℕ)
    → assign cpu c p d ≡ some j
    → ((c ≡ d) × (p ≡ some j)) ⊎ ((c ≢ d) × (cpu d ≡ some j))
assign-cases cpu c p d j at = elim (ℕ_discrete c d) [
  | yes e ↦ inl (e, rw (e, ==_refl d) at at)
  | no ne ↦ inr (ne, rw (==_ne c d ne) at at)
]

-- The processes that run go on running, but perhaps not slot `i`.
abbrev pub RunsBut : ℕ → Table → Table → Type 0
RunsBut i t u =
    (j : ℕ) → i ≢ j → (t.proc j).state ≡ State.running → (u.proc j).state ≡ State.running

-- No process starts or stops.
pub same-IsAssigned :
    (m : Machine) (t : Table)
    → ((j : ℕ) → (m.table.proc j).state ≡ State.running → (t.proc j).state ≡ State.running)
    → IsAssigned m
    → IsAssigned (record m { table = t })
same-IsAssigned m t runs h = record {
  slot = h.slot;
  running = λ c j at. runs j (h.running c j at);
  once = h.once;
}

-- A CPU stops running process `i`.
pub leave-IsAssigned :
    (m : Machine) (t : Table) (c i : ℕ)
    → m.cpu c ≡ some i
    → RunsBut i m.table t
    → IsAssigned m
    → IsAssigned (record { table = t; cpu = assign m.cpu c none })
leave-IsAssigned m t c i mine runs h =
    let other : (d j : ℕ) → assign m.cpu c none d ≡ some j → (i ≢ j) × (m.cpu d ≡ some j) =
      λ d j at. elim (assign-cases m.cpu c none d j at) [
        | inl (_, e) ↦ cc
        | inr (ne, at') ↦ (λ e. ne (h.once c d j (subst (λ k. m.cpu c ≡ some k) e mine) at'), at')
      ] in
    record {
      slot = λ d j at. h.slot d j (other d j at).1;
      running = λ d j at. runs j (other d j at).0 (h.running d j (other d j at).1);
      once = λ d d' j at at'. h.once d d' j (other d j at).1 (other d' j at').1;
    }

-- A CPU starts to run process `i`, which no CPU runs.
pub take-IsAssigned :
    (m : Machine) (t : Table) (c i : ℕ)
    → i < nproc
    → (t.proc i).state ≡ State.running
    → (m.table.proc i).state ≢ State.running
    → RunsBut i m.table t
    → IsAssigned m
    → IsAssigned (record { table = t; cpu = assign m.cpu c (some i) })
take-IsAssigned m t c i lt run idle runs h =
    let apart : (d j : ℕ) → m.cpu d ≡ some j → i ≢ j =
      λ d j at e. idle (ap (λ k. (m.table.proc k).state) e ∙ h.running d j at) in
    record {
      slot = λ d j at. elim (assign-cases m.cpu c (some i) d j at) [
        | inl (_, e) ↦ subst (λ k. k < nproc) (some-injective i j e) lt
        | inr (_, at') ↦ h.slot d j at'
      ];
      running = λ d j at. elim (assign-cases m.cpu c (some i) d j at) [
        | inl (_, e) ↦ subst (λ k. (t.proc k).state ≡ State.running) (some-injective i j e) run
        | inr (_, at') ↦ runs j (apart d j at') (h.running d j at')
      ];
      once = λ d d' j at at'. elim (assign-cases m.cpu c (some i) d j at) [
        | inl (e, is) ↦ elim (assign-cases m.cpu c (some i) d' j at') [
          | inl (e', _) ↦ sym e ∙ e'
          | inr (_, there) ↦ absurd (apart d' j there (some-injective i j is))
        ]
        | inr (_, there) ↦ elim (assign-cases m.cpu c (some i) d' j at') [
          | inl (_, is) ↦ absurd (apart d j there (some-injective i j is))
          | inr (_, there') ↦ h.once d d' j there there'
        ]
      ];
    }
