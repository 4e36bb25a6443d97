-- ===== src/Spin/Tests.antt =====
-- Two CPUs: CPU 1 takes the lock while CPU 0 spins.
use oslab.Common.{ℕ, ◌≡◌, ◌≢◌, refl, true, false, none}
use oslab.Spin.{
  Machine, outside, spinning, holds, cleared, pushcli, acquire_start, acquire_try, acquire_end,
  release_start, release_end, holding, put_cpu, Cpu,
}
use oslab.Spin.Invariant.{IsExclusive}
use oslab.Spin.Exclusion.{here, next, starts, tries, records, acquire-Reach}

abbrev idle : Cpu
idle = record { interrupts = true; ncli = 0; intena = false; place = outside }

abbrev machine : Machine
machine = record { lock = record { locked = false; cpu = none }; cpus = λ c. idle }

abbrev both : Machine
both =
    put_cpu (put_cpu machine 0 (record (pushcli idle) { place = spinning })) 1
      (record (pushcli idle) { place = spinning })

abbrev held : Machine
held = acquire_try 0 (acquire_end 1 (acquire_try 1 both))

acquire-Reach_example :
    IsExclusive held
    × ((c : ℕ) → (held.cpus c).place ≡ outside → acquire_start c held ≢ none)
    × ((c : ℕ) → (held.cpus c).place ≡ holds → release_start c held ≢ none)
    × ((c : ℕ) → (held.cpus c).place ≡ cleared → release_end c held ≢ none)
unfolding acquire_start acquire_try acquire_end pushcli holding
acquire-Reach_example =
    acquire-Reach machine held refl (λ c. refl)
      (next
        (next (next (next (next here (starts 0 refl refl)) (starts 1 refl refl)) (tries 1 refl))
          (records 1 refl))
        (tries 0 refl))
