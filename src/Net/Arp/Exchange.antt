-- ===== src/Net/Arp/Exchange.antt =====
-- Two hosts that run xv6/arp.c: one broadcasts a request, the other replies, the first learns.
use oslab.Common.{ℕ, ◌≡◌, refl, ap, ==_refl}
use oslab.Net.Arp.{
  ArpFrame, ArpTable, Handled, created_reply, updated_table, arp_proc, arp_broadcast,
  arp_reply_pkt_create, arp_table_update, eth_proc, EthHandler,
}
use oslab.Net.Arp.Search.{Knows, HasRoom, arp_table_update-Knows}

-- Host B, whose address is `ip_b`, gets a packet that asks for that address.
request-reply :
    (mac_a ip_a mac_b ip_b n : ℕ) (t : ArpTable)
    → ip_b ≡ (arp_broadcast mac_a ip_a n).arp.dst_ip
    → arp_proc mac_b ip_b (arp_broadcast mac_a ip_a n).arp t
      ≡ (created_reply (arp_reply_pkt_create mac_b ip_b (arp_broadcast mac_a ip_a n).arp), t)
unfolding arp_proc arp_broadcast
request-reply mac_a ip_a mac_b ip_b n t e =
    rw (e, ==_refl (arp_broadcast mac_a ip_a n).arp.dst_ip) refl

reply-update :
    (mac_a ip_a mac_b ip_b n : ℕ) (t : ArpTable)
    → arp_proc mac_a ip_a (arp_reply_pkt_create mac_b ip_b (arp_broadcast mac_a ip_a n).arp).arp t
      ≡ (
        updated_table,
        arp_table_update (arp_reply_pkt_create mac_b ip_b (arp_broadcast mac_a ip_a n).arp).arp t,
      )
unfolding arp_proc arp_broadcast arp_reply_pkt_create
reply-update mac_a ip_a mac_b ip_b n t = rw (==_refl ip_a) refl

-- An ARP exchange. Host A broadcasts a request for the address 10.0.1.n, which host B has; the frame
-- goes to the ARP handler. B answers with one frame, sent to A's card, and keeps its table; A takes the
-- answer, and if A's table has an entry for B's address or a free one, a search for that address then
-- finds an entry with B's card.
pub arp_proc-exchange :
    (mac_a ip_a mac_b ip_b n : ℕ) (table_a table_b : ArpTable)
    → ip_b ≡ (arp_broadcast mac_a ip_a n).arp.dst_ip
    → HasRoom table_a ip_b
    → (reply : ArpFrame) × (eth_proc (arp_broadcast mac_a ip_a n).kind ≡ EthHandler.to_arp)
      × (arp_proc mac_b ip_b (arp_broadcast mac_a ip_a n).arp table_b
          ≡ (created_reply reply, table_b))
      × (reply.dst_mac ≡ mac_a)
      × (eth_proc reply.kind ≡ EthHandler.to_arp)
      × ((arp_proc mac_a ip_a reply.arp table_a).0 ≡ updated_table)
      × Knows (arp_proc mac_a ip_a reply.arp table_a).1 ip_b mac_b
unfolding arp_broadcast arp_reply_pkt_create eth_proc
arp_proc-exchange mac_a ip_a mac_b ip_b n table_a table_b e room =
    let reply = arp_reply_pkt_create mac_b ip_b (arp_broadcast mac_a ip_a n).arp in
    let updated = reply-update mac_a ip_a mac_b ip_b n table_a in
    (
      reply,
      refl,
      request-reply mac_a ip_a mac_b ip_b n table_b e,
      refl,
      refl,
      ap (λ (r : Handled × ArpTable). r.0) updated,
      rw updated (arp_table_update-Knows reply.arp table_a room),
    )
