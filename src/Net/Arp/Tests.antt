-- ===== src/Net/Arp/Tests.antt =====
-- Concrete packets and tables of xv6/arp.c, xv6/eth.c, xv6/ipv4.c and xv6/icmp.c.
use oslab.Common.{ℕ, zero, suc, ◌+◌, ◌<◌, ◌≡◌, ◌↔◌, refl, arith, inr, ◌==◌, if◌then◌else◌}
use oslab.Net.{n2h_uint, h2n_uint, sum_words, store_ushort, ipv4_chksum, icmp_chksum}
use oslab.Net.Order.{n2h_uint-h2n_uint}
use oslab.Net.Checksum.{IsBytes, ipv4_chksum-store, icmp_chksum-store}
use oslab.Net.Arp.{
  ArpFrame, ArpTable, EthHandler, created_reply, updated_table, arp_proc, arp_broadcast,
  arp_table_update, eth_proc, arp_table_search, search_from,
}
use oslab.Net.Arp.Search.{Updates, Knows, arp_table_update-Updates}
use oslab.Net.Arp.Exchange.{arp_proc-exchange}

n2h_uint-h2n_uint_example : (n2h_uint (h2n_uint 1000) ≡ 1000) ↔ (1000 < 16)
n2h_uint-h2n_uint_example = n2h_uint-h2n_uint 1000 (omega arith)

-- The start of a header of five words of 32 bits.
abbrev header : ℕ → ℕ
header zero = 69
header (suc zero) = 0
header (suc (suc zero)) = 0
header (suc (suc (suc zero))) = 84
header a = 0

header-IsBytes : IsBytes header
header-IsBytes zero = omega arith
header-IsBytes (suc zero) = omega arith
header-IsBytes (suc (suc zero)) = omega arith
header-IsBytes (suc (suc (suc zero))) = omega arith
header-IsBytes (suc (suc (suc (suc a)))) = omega arith

ipv4_chksum-store_example : ipv4_chksum (store_ushort header 5 (ipv4_chksum header)) ≡ 0
ipv4_chksum-store_example = ipv4_chksum-store header header-IsBytes refl (omega arith)

-- An echo reply with sequence number 300.
abbrev echo : ℕ → ℕ
echo a = if a == 6 then 1 else if a == 7 then 44 else 0

echo-IsBytes : IsBytes echo
echo-IsBytes a = ground arith

icmp_chksum-store_example : icmp_chksum (store_ushort echo 1 (icmp_chksum echo)) ≡ 0
icmp_chksum-store_example = icmp_chksum-store echo echo-IsBytes refl

header_sum : ipv4_chksum header ≡ 47787
unfolding ipv4_chksum sum_words
header_sum = refl

abbrev no_hosts : ArpTable
no_hosts = λ i. record { ip = 0; mac = 0; use_flag = 0 }

abbrev other_ip : ℕ
other_ip = 167772423

arp_proc-exchange_example :
    (reply : ArpFrame) × (eth_proc (arp_broadcast 11 167772420 7).kind ≡ EthHandler.to_arp)
    × (arp_proc 22 other_ip (arp_broadcast 11 167772420 7).arp no_hosts
        ≡ (created_reply reply, no_hosts))
    × (reply.dst_mac ≡ 11)
    × (eth_proc reply.kind ≡ EthHandler.to_arp)
    × ((arp_proc 11 167772420 reply.arp no_hosts).0 ≡ updated_table)
    × Knows (arp_proc 11 167772420 reply.arp no_hosts).1 other_ip 22
unfolding arp_broadcast
arp_proc-exchange_example =
    arp_proc-exchange 11 167772420 22 other_ip 7 no_hosts no_hosts refl (inr (0, omega arith, refl))

arp_table_update-Updates_example :
    Updates
      (arp_broadcast 11 167772420 7).arp
      no_hosts
      (arp_table_update (arp_broadcast 11 167772420 7).arp no_hosts)
arp_table_update-Updates_example =
    arp_table_update-Updates (arp_broadcast 11 167772420 7).arp no_hosts

-- A table of 64 other hosts: the new host's card goes to entry 0.
abbrev full_table : ArpTable
full_table = λ i. record { ip = 100 + i; mac = i; use_flag = 1 }

full_overwrites : (arp_table_update (arp_broadcast 11 5000 7).arp full_table 0).mac ≡ 11
unfolding arp_table_update arp_table_search search_from arp_broadcast
full_overwrites = refl
