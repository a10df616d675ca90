-- ===== src/Net/Arp.antt =====
-- kernel/src/net/arp.rs: ARP packets between IPv4 and Ethernet addresses.
use ferrugem.Prelude.{ℕ, Option, none, some, List, [], ◌∷◌, length, if◌then◌else◌, ltb}
use ferrugem.Bytes.{slice, be_bytes, copy_at}
use ferrugem.Net.{be16}
use ferrugem.Net.Ethernet.{MacAddr}

abbrev pub Ipv4Addr : Type 0
Ipv4Addr = List ℕ

abbrev pub htype_ethernet : ℕ
htype_ethernet = 1

abbrev pub ptype_ipv4 : ℕ
ptype_ipv4 = 0x0800

pub record ArpPacket : Type 0 where
  pub op : ℕ
  pub sender_mac : MacAddr
  pub sender_ip : Ipv4Addr
  pub target_mac : MacAddr
  pub target_ip : Ipv4Addr

unfoldable pub parse : List ℕ → Option ArpPacket
parse buf =
    if ltb (length buf) 28
    then none
    else some (record {
      op = be16 buf 6;
      sender_mac = slice 8 14 buf;
      sender_ip = slice 14 18 buf;
      target_mac = slice 18 24 buf;
      target_ip = slice 24 28 buf;
    })

unfoldable pub build : ArpPacket → (out : List ℕ) → ℕ × List ℕ
build pkt out =
    if ltb (length out) 28
    then (0, out)
    else (let header = copy_at 6 (be_bytes pkt.op) (
          copy_at 5 (4 ∷ []) (
            copy_at 4 (6 ∷ [])
              (copy_at 2 (be_bytes ptype_ipv4) (copy_at 0 (be_bytes htype_ethernet) out)))) in
        (
          28,
          copy_at 24 pkt.target_ip (
              copy_at 18 pkt.target_mac
                (copy_at 14 pkt.sender_ip (copy_at 8 pkt.sender_mac header))),
        ))
