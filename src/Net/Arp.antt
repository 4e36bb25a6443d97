-- ===== src/Net/Arp.antt =====
-- xv6/arp.c: the table of neighbours, the packets that it makes, and the handler of a packet. An
-- address of the Internet (4 bytes) or of the network card (6 bytes) is one number.
pub mod Search
pub mod Exchange
mod Tests
use oslab.Common.{
  ℕ, zero, suc, ◌+◌, ◌-◌, ◌*◌, ◌%◌, ◌^◌, Bool, true, false, ◌&&◌, ◌||◌, not, ◌==◌, if◌then◌else◌,
  Option, none, some,
}
use oslab.Common.Int.{ℤ, pos, negsuc, neg_ℕ}

abbrev pub arp_table_max : ℕ
arp_table_max = 64

abbrev pub hardware_type : ℕ
hardware_type = 256

abbrev pub protocol_type : ℕ
protocol_type = 8

abbrev pub ops_request : ℕ
ops_request = 256

abbrev pub ops_reply : ℕ
ops_reply = 512

-- `struct arp_entry`
pub record ArpEntry : Type 0 where
  pub ip : ℕ
  pub mac : ℕ
  pub use_flag : ℕ

-- `struct arp_pkt`
pub record ArpPkt : Type 0 where
  pub hrd_type : ℕ
  pub pro_type : ℕ
  pub hrd_len : ℕ
  pub pro_len : ℕ
  pub op : ℕ
  pub src_mac : ℕ
  pub src_ip : ℕ
  pub dst_mac : ℕ
  pub dst_ip : ℕ

-- `struct eth_pkt` with the ARP packet after it; `kind` is its field `type`.
pub record ArpFrame : Type 0 where
  pub dst_mac : ℕ
  pub src_mac : ℕ
  pub kind : ℕ × ℕ
  pub arp : ArpPkt

-- `arp_table`
abbrev pub ArpTable : Type 0
ArpTable = ℕ → ArpEntry

-- A signed number minus 1.
abbrev pub minus_one : ℤ → ℤ
minus_one (pos zero) = negsuc 0
minus_one (pos (suc n)) = pos n
minus_one (negsuc n) = negsuc (suc n)

abbrev pub is_one : ℤ → Bool
is_one (pos n) = n == 1
is_one (negsuc n) = false

-- The loop of `arp_table_search` from entry `i` on.
unfoldable pub search_from : ℕ → ℕ → ℤ → ℕ → ArpTable → ℤ
search_from zero i empty ip t = minus_one empty
search_from (suc rounds) i empty ip t =
    let rest =
      search_from rounds (suc i) (if (t i).use_flag == 0 && is_one empty then neg_ℕ i else empty) ip
        t in
    if (t i).ip == ip then pos i else rest

-- `arp_table_search`
unfoldable pub arp_table_search : ℕ → ArpTable → ℤ
unfolding search_from
arp_table_search ip t = search_from arp_table_max 0 (pos 1) ip t

abbrev pub put_entry : ArpTable → ℕ → ArpEntry → ArpTable
put_entry t i e j = if i == j then e else t j

-- `arp_table_update` once `arp_table_search` has given `index`.
abbrev pub update_at : ℤ → ArpPkt → ArpTable → ArpTable
update_at (pos i) p t = put_entry t i (record (t i) { mac = p.src_mac })
update_at (negsuc i) p t = put_entry t i (record { ip = p.src_ip; mac = p.src_mac; use_flag = 1 })

-- `arp_table_update`
unfoldable pub arp_table_update : ArpPkt → ArpTable → ArpTable
unfolding arp_table_search
arp_table_update p t = update_at (arp_table_search p.src_ip t) p t

-- `arp_broadcast`, by the host with these addresses, for the last byte `n` of an address.
pub arp_broadcast : ℕ → ℕ → ℕ → ArpFrame
arp_broadcast mac_addr my_ip n = record {
  dst_mac = 2 ^ 48 - 1;
  src_mac = mac_addr;
  kind = (8, 6);
  arp = record {
    hrd_type = hardware_type;
    pro_type = protocol_type;
    hrd_len = 6;
    pro_len = 4;
    op = ops_request;
    src_mac = mac_addr;
    src_ip = my_ip;
    dst_mac = 0;
    dst_ip = ((10 * 256 + 0) * 256 + 1) * 256 + n % 256;
  };
}

-- `arp_reply_pkt_create`
pub arp_reply_pkt_create : ℕ → ℕ → ArpPkt → ArpFrame
arp_reply_pkt_create mac_addr my_ip recv = record {
  dst_mac = recv.src_mac;
  src_mac = mac_addr;
  kind = (8, 6);
  arp = record {
    hrd_type = hardware_type;
    pro_type = protocol_type;
    hrd_len = 6;
    pro_len = 4;
    op = ops_reply;
    src_mac = mac_addr;
    src_ip = my_ip;
    dst_mac = recv.src_mac;
    dst_ip = recv.src_ip;
  };
}

-- What `arp_proc` comes to: -1, ARP_CREATED_REPLY with the frame that it sends, or
-- ARP_UPDATED_TABLE.
pub data Handled : Type 0 where
  ignored : Handled
  created_reply : ArpFrame → Handled
  updated_table : Handled

-- `arp_proc`
unfoldable pub arp_proc : ℕ → ℕ → ArpPkt → ArpTable → Handled × ArpTable
unfolding arp_table_update arp_reply_pkt_create
arp_proc mac_addr my_ip p t =
    if not (p.hrd_type == hardware_type)
    then (ignored, t)
    else if not (p.pro_type == protocol_type)
    then (ignored, t)
    else if not (p.hrd_len == 6)
    then (ignored, t)
    else if not (p.pro_len == 4)
    then (ignored, t)
    else if not (my_ip == p.dst_ip) && not (my_ip == p.src_ip)
    then (ignored, t)
    else if p.op == ops_request && my_ip == p.dst_ip
    then (created_reply (arp_reply_pkt_create mac_addr my_ip p), t)
    else if p.op == ops_reply && my_ip == p.dst_ip
    then (updated_table, arp_table_update p t)
    else (ignored, t)

-- `eth_proc`: which handler gets the frame, by its two type bytes.
pub data EthHandler : Type 0 where
  to_arp to_ipv4 to_none : EthHandler

pub eth_proc : ℕ × ℕ → EthHandler
eth_proc (a, b) =
    if a == 8 && b == 6
    then EthHandler.to_arp
    else if a == 8 && b == 0
    then EthHandler.to_ipv4
    else EthHandler.to_none
