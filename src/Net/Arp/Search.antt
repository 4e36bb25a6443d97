-- ===== src/Net/Arp/Search.antt =====
-- `arp_table_search` and `arp_table_update` of xv6/arp.c: which entry is found and what is written.
use oslab.Common.{
  ℕ, zero, suc, ◌+◌, ◌<◌, ◌≡◌, ◌≢◌, ◌⊎◌, ◌∙◌, refl, sym, ap, subst, arith, false, ◌&&◌, Option,
  none, some, ◌==◌, if◌then◌else◌, Bool-cases, inl, inr, ==_refl, ==_ne, ℕ_discrete, dec_lt,
}
use oslab.Common.Int.{ℤ, pos, negsuc, neg_ℕ}
use oslab.Net.Arp.{
  arp_table_max, ArpEntry, ArpPkt, ArpTable, minus_one, is_one, search_from, arp_table_search,
  put_entry, update_at, arp_table_update,
}

-- No entry below `n` has the address, and none below `n` is free.
abbrev pub NoMatch : ℕ → ArpTable → ℕ → Type 0
NoMatch ip t n = (j : ℕ) → j < n → (t j).ip ≢ ip

abbrev pub NoFree : ArpTable → ℕ → Type 0
NoFree t n = (j : ℕ) → j < n → (t j).use_flag ≢ 0

-- The answers of `arp_table_search`.
pub data Found (ip : ℕ) (t : ArpTable) : ℤ → Type 0 where
  matches : (k : ℕ) → k < arp_table_max → (t k).ip ≡ ip → NoMatch ip t k → Found ip t (pos k)
  free :
      (k : ℕ)
      → k < arp_table_max
      → (t k).use_flag ≡ 0
      → NoFree t k
      → NoMatch ip t arp_table_max
      → Found ip t (negsuc k)
  full : NoFree t arp_table_max → NoMatch ip t arp_table_max → Found ip t (pos 0)

-- The variable `empty` once the loop has seen a free entry, or none.
abbrev empty_of : Option ℕ → ℤ
empty_of none = pos 1
empty_of (some k) = neg_ℕ k

-- The first free entry below `n` is the one that is named.
abbrev Seen : ArpTable → ℕ → Option ℕ → Type 0
Seen t n none = NoFree t n
Seen t n (some k) = (k < n) × ((t k).use_flag ≡ 0) × NoFree t k

is_one-empty_of : (k : ℕ) → is_one (neg_ℕ k) ≡ false
is_one-empty_of zero = refl
is_one-empty_of (suc k) = refl

minus_one-empty_of : (k : ℕ) → minus_one (neg_ℕ k) ≡ negsuc k
minus_one-empty_of zero = refl
minus_one-empty_of (suc k) = refl

end-Found :
    (ip : ℕ) (t : ArpTable) (e : Option ℕ)
    → NoMatch ip t arp_table_max
    → Seen t arp_table_max e
    → Found ip t (minus_one (empty_of e))
end-Found ip t none none_here seen = full seen none_here
end-Found ip t (some k) none_here seen =
    subst (Found ip t) (sym (minus_one-empty_of k)) (free k seen.0 seen.1 seen.2 none_here)

-- One more entry is seen.
next_seen : ArpTable → ℕ → Option ℕ → Option ℕ
next_seen t i none = if (t i).use_flag == 0 then some i else none
next_seen t i (some k) = some k

next_seen-Seen :
    (t : ArpTable) (i : ℕ) (e : Option ℕ) → Seen t i e → Seen t (suc i) (next_seen t i e)
unfolding next_seen
next_seen-Seen t i none seen = elim (Bool-cases ((t i).use_flag == 0)) [
  | inl z ↦ rw z (omega arith, ground arith, seen)
  | inr nz ↦ rw nz (λ j lt. elim (ℕ_discrete j i) [
    | yes same ↦ rw same (λ e. ground arith)
    | no ne ↦ seen j (omega arith)
  ])
]
next_seen-Seen t i (some k) seen = (omega (arith, seen.0), seen.1, seen.2)

next_seen-empty_of :
    (t : ArpTable) (i : ℕ) (e : Option ℕ)
    → (if (t i).use_flag == 0 && is_one (empty_of e) then neg_ℕ i else empty_of e)
      ≡ empty_of (next_seen t i e)
unfolding next_seen
next_seen-empty_of t i none = elim (Bool-cases ((t i).use_flag == 0)) [
  | inl z ↦ rw z refl
  | inr nz ↦ rw nz refl
]
next_seen-empty_of t i (some k) = elim (Bool-cases ((t i).use_flag == 0)) [
  | inl z ↦ rw (z, is_one-empty_of k) refl
  | inr nz ↦ rw nz refl
]

search_from-Found :
    (rounds i ip : ℕ) (t : ArpTable) (e : Option ℕ)
    → i + rounds ≡ arp_table_max
    → NoMatch ip t i
    → Seen t i e
    → Found ip t (search_from rounds i (empty_of e) ip t)
unfolding search_from
search_from-Found zero i ip t e sum none_yet seen =
    let at : i ≡ arp_table_max = omega arith in
    end-Found ip t e (subst (NoMatch ip t) at none_yet) (subst (λ n. Seen t n e) at seen)
search_from-Found (suc rounds) i ip t e sum none_yet seen = elim (Bool-cases ((t i).ip == ip)) [
  | inl here ↦ rw here (matches i (omega arith) (ground arith) none_yet)
  | inr not_here ↦
      rw (not_here, next_seen-empty_of t i e)
        (search_from-Found rounds (suc i) ip t (next_seen t i e) (omega arith)
          (λ j lt. elim (ℕ_discrete j i) [
            | yes same ↦ rw same (λ e'. ground arith)
            | no ne ↦ none_yet j (omega arith)
          ])
          (next_seen-Seen t i e seen))
]

pub arp_table_search-Found : (ip : ℕ) (t : ArpTable) → Found ip t (arp_table_search ip t)
unfolding arp_table_search
arp_table_search-Found ip t =
    search_from-Found arp_table_max 0 ip t none refl (λ j lt. absurd (omega arith))
      (λ j lt. absurd (omega arith))

-- What `arp_table_update` does: it refreshes the first entry with the sender's address; if there is
-- none it fills the first free entry; if there is none either it writes the sender's card into entry 0
-- and leaves that entry's address.
pub data Updates (p : ArpPkt) (t : ArpTable) : ArpTable → Type 0 where
  refreshes :
      (k : ℕ)
      → k < arp_table_max
      → (t k).ip ≡ p.src_ip
      → NoMatch p.src_ip t k
      → Updates p t (put_entry t k (record (t k) { mac = p.src_mac }))
  adds :
      (k : ℕ)
      → k < arp_table_max
      → (t k).use_flag ≡ 0
      → NoFree t k
      → NoMatch p.src_ip t arp_table_max
      → Updates p t (put_entry t k (record { ip = p.src_ip; mac = p.src_mac; use_flag = 1 }))
  overwrites :
      NoFree t arp_table_max
      → NoMatch p.src_ip t arp_table_max
      → Updates p t (put_entry t 0 (record (t 0) { mac = p.src_mac }))

Found-Updates :
    (p : ArpPkt) (t : ArpTable) (r : ℤ) → Found p.src_ip t r → Updates p t (update_at r p t)
Found-Updates p t r (matches k lt e first) = refreshes k lt e first
Found-Updates p t r (free k lt z first none_here) = adds k lt z first none_here
Found-Updates p t r (full busy none_here) = overwrites busy none_here

-- `arp_table_update` refreshes the first entry with the sender's address, or else fills the first free
-- entry. When the table is full of other addresses it gives the sender's card to entry 0, under the
-- address of the host that has that entry.
pub arp_table_update-Updates : (p : ArpPkt) (t : ArpTable) → Updates p t (arp_table_update p t)
unfolding arp_table_update
arp_table_update-Updates p t =
    Found-Updates p t (arp_table_search p.src_ip t) (arp_table_search-Found p.src_ip t)

Found-first :
    (ip k : ℕ) (t : ArpTable) (r : ℤ)
    → k < arp_table_max
    → (t k).ip ≡ ip
    → NoMatch ip t k
    → Found ip t r
    → r ≡ pos k
Found-first ip k t r lt e first (matches k' lt' e' first') = elim (ℕ_discrete k k') [
  | yes same ↦ ap pos (sym same)
  | no ne ↦ elim (dec_lt k k') [
    | yes below ↦ absurd (first' k below e)
    | no above ↦ absurd (first k' (omega arith) e')
  ]
]
Found-first ip k t r lt e first (free _ _ _ _ none_here) = absurd (none_here k lt e)
Found-first ip k t r lt e first (full _ none_here) = absurd (none_here k lt e)

-- The host is in the table, under the first entry with its address.
abbrev pub Knows : ArpTable → ℕ → ℕ → Type 0
Knows t ip mac = (k : ℕ) × (k < arp_table_max) × (arp_table_search ip t ≡ pos k) × ((t k).mac ≡ mac)

abbrev pub HasRoom : ArpTable → ℕ → Type 0
HasRoom t ip =
    ((k : ℕ) × (k < arp_table_max) × ((t k).ip ≡ ip))
    ⊎ ((k : ℕ) × (k < arp_table_max) × ((t k).use_flag ≡ 0))

put-Knows :
    (t : ArpTable) (k ip mac : ℕ) (e : ArpEntry)
    → k < arp_table_max
    → e.ip ≡ ip
    → e.mac ≡ mac
    → NoMatch ip t k
    → Knows (put_entry t k e) ip mac
put-Knows t k ip mac e lt is_ip is_mac first =
    let u = put_entry t k e in
    let here : u k ≡ e = rw (==_refl k) refl in
    let first' : NoMatch ip u k =
      λ j j_lt. rw (==_ne k j (λ same. absurd (omega arith))) (first j j_lt) in
    (
      k,
      lt,
      Found-first ip k u (arp_table_search ip u) lt (ap ArpEntry.ip here ∙ is_ip) first'
          (arp_table_search-Found ip u),
      ap ArpEntry.mac here ∙ is_mac,
    )

Updates-Knows :
    (p : ArpPkt) (t u : ArpTable) → HasRoom t p.src_ip → Updates p t u → Knows u p.src_ip p.src_mac
Updates-Knows p t u room (refreshes k lt e first) =
    put-Knows t k p.src_ip p.src_mac _ lt e refl first
Updates-Knows p t u room (adds k lt z first none_here) =
    put-Knows t k p.src_ip p.src_mac _ lt refl refl (λ j j_lt. none_here j (omega arith))
Updates-Knows p t u room (overwrites busy none_here) =
    absurd (elim room [ inl (k, lt, e) ↦ none_here k lt e | inr (k, lt, z) ↦ busy k lt z ])

pub arp_table_update-Knows :
    (p : ArpPkt) (t : ArpTable)
    → HasRoom t p.src_ip
    → Knows (arp_table_update p t) p.src_ip p.src_mac
arp_table_update-Knows p t room =
    Updates-Knows p t (arp_table_update p t) room (arp_table_update-Updates p t)
