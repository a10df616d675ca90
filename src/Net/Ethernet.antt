-- ===== src/Net/Ethernet.antt =====
-- kernel/src/net/ethernet.rs: Ethernet II frames. An address is its six bytes.
use ferrugem.Prelude.{ℕ, ◌+◌, Option, none, some, List, length, drop, replicate, if◌then◌else◌, ltb}
use ferrugem.Bytes.{slice, be_bytes, copy_at}
use ferrugem.Net.{be16}

abbrev pub MacAddr : Type 0
MacAddr = List ℕ

abbrev pub broadcast : MacAddr
broadcast = replicate 6 0xFF

abbrev pub ethertype_arp : ℕ
ethertype_arp = 0x0806

abbrev pub ethertype_ipv4 : ℕ
ethertype_ipv4 = 0x0800

unfoldable pub parse : List ℕ → Option (MacAddr × MacAddr × ℕ × List ℕ)
parse buf =
    if ltb (length buf) 14
    then none
    else some (slice 0 6 buf, slice 6 12 buf, be16 buf 12, drop 14 buf)

unfoldable pub build : (dst src : MacAddr) → (etype : ℕ) → (payload out : List ℕ) → ℕ × List ℕ
build dst src etype payload out = if ltb (length out) (14 + length payload) then (0, out) else (
  14 + length payload,
  copy_at 14 payload (copy_at 12 (be_bytes etype) (copy_at 6 src (copy_at 0 dst out))),
)
