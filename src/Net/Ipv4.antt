-- ===== src/Net/Ipv4.antt =====
-- kernel/src/net/ipv4.rs: IPv4 headers without options, and the Internet checksum.
pub mod Checksum
use Prim.Native.Nat.{bit_and}
use ferrugem.Prelude.{
  ℕ, zero, suc, ◌+◌, ◌-◌, ◌*◌, ◌/◌, ◌%◌, ◌^◌, Option, none, some, List, [], ◌∷◌, length, take, drop,
  get_or, if◌then◌else◌, ltb, ◌==◌,
}
use ferrugem.Bytes.{slice, be_bytes, copy_at}
use ferrugem.Net.{be16}
use ferrugem.Net.Arp.{Ipv4Addr}

abbrev pub proto_icmp : ℕ
proto_icmp = 1

abbrev pub proto_udp : ℕ
proto_udp = 17

abbrev pub proto_tcp : ℕ
proto_tcp = 6

pub record Ipv4Header : Type 0 where
  pub src : Ipv4Addr
  pub dst : Ipv4Addr
  pub protocol : ℕ
  pub ttl : ℕ
  pub total_len : ℕ

unfoldable pub parse : List ℕ → Option (Ipv4Header × List ℕ)
parse buf =
    let ihl = bit_and (get_or buf 0 0) 0x0F * 4 in
    if ltb (length buf) 20
    then none
    else if ltb (length buf) ihl
    then none
    else some (
      record {
        src = slice 12 16 buf;
        dst = slice 16 20 buf;
        protocol = get_or buf 9 0;
        ttl = get_or buf 8 0;
        total_len = be16 buf 2;
      },
      drop ihl buf,
    )

-- The sum of the 16-bit words in a `u32`. A last odd byte is the high byte of a word.
unfoldable pub add_words : List ℕ → (sum : ℕ) → ℕ
add_words [] sum = sum
add_words (a ∷ []) sum = (sum + a * 256) % 2 ^ 32
add_words (a ∷ b ∷ rest) sum = add_words rest ((sum + (a * 256 + b)) % 2 ^ 32)

-- `while sum >> 16 != 0`, for at most `fuel` rounds.
unfoldable pub fold_carry : (fuel sum : ℕ) → ℕ
fold_carry zero sum = sum
fold_carry (suc fuel) sum =
    let rest = fold_carry fuel ((sum % 2 ^ 16 + sum / 2 ^ 16) % 2 ^ 32) in
    if sum / 2 ^ 16 == 0 then sum else rest

-- Two rounds are enough. `!(sum as u16)` is the difference from 0xFFFF.
unfoldable pub checksum : List ℕ → ℕ
checksum d = 0xFFFF - fold_carry 2 (add_words d 0) % 2 ^ 16

unfoldable pub build : Ipv4Header → (payload out : List ℕ) → ℕ × List ℕ
build hdr payload out =
    let total = 20 + length payload in
    if ltb (length out) total
    then (0, out)
    else (let fixed = copy_at 6 (be_bytes 0) (
          copy_at 4 (be_bytes 0) (
            copy_at 2 (be_bytes (total % 2 ^ 16))
              (copy_at 1 (0 ∷ []) (copy_at 0 (0x45 ∷ []) out)))) in
        let filled = copy_at 20 payload (
          copy_at 16 hdr.dst (
            copy_at 12 hdr.src (
              copy_at 10 (be_bytes 0)
                (copy_at 9 (hdr.protocol ∷ []) (copy_at 8 (hdr.ttl ∷ []) fixed))))) in
        (total, copy_at 10 (be_bytes (checksum (take 20 filled))) filled))
