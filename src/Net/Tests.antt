-- ===== src/Net/Tests.antt =====
-- Packets at concrete inputs.
use ferrugem.Prelude.{
  ℕ, ◌+◌, ◌%◌, ◌/◌, ◌^◌, ◌≡◌, refl, some, List, [], ◌∷◌, take, length, replicate, arith,
}
use ferrugem.Bytes.{copy_at}
use ferrugem.Net.Ethernet
use ferrugem.Net.Ethernet.{broadcast, ethertype_ipv4}
use ferrugem.Net.Ipv4
use ferrugem.Net.Ipv4.{Ipv4Header, proto_udp, fold_carry}
use ferrugem.Net.Ipv4.Checksum.{words, ones_complement, fold_carry_lem}
use ferrugem.Net.Udp
use ferrugem.Net.Tcp
use ferrugem.Net.Packets.{datagram, packet, frame, frame-parse-build, checksum-build}

fold_carry_lem_example :
    (fold_carry 2 0xFFFFFFFF / 2 ^ 16 ≡ 0) × (fold_carry 2 0xFFFFFFFF ≡ ones_complement 0xFFFFFFFF)
fold_carry_lem_example = fold_carry_lem 0xFFFFFFFF (omega arith)

abbrev header : Ipv4Header
header = record {
  src = 10 ∷ 0 ∷ 2 ∷ 15 ∷ [];
  dst = 10 ∷ 0 ∷ 2 ∷ 2 ∷ [];
  protocol = proto_udp;
  ttl = 64;
  total_len = 0;
}

abbrev payload : List ℕ
payload = 1 ∷ 2 ∷ 3 ∷ []

checksum-build_example :
    let h = take 20 (packet header payload (replicate 64 0)) in
    (length h ≡ 20) × (ones_complement (words h) ≡ 0xFFFF) × (Ipv4.checksum h ≡ 0)
checksum-build_example =
    checksum-build header payload (replicate 64 0) refl refl
      (omega arith, (omega arith, (omega arith, (omega arith, tt))))
      (omega arith, (omega arith, (omega arith, (omega arith, tt)))) (omega arith) (omega arith)
      (omega arith)

frame-parse-build_example :
    let d = datagram 5000 53 payload (replicate 64 0) in
    let p = packet header d (replicate 64 0) in
    let f = frame broadcast (replicate 6 2) ethertype_ipv4 p (replicate 64 0) in
    (Ethernet.parse f ≡ some (broadcast, replicate 6 2, ethertype_ipv4, p))
    × (Ipv4.parse p ≡ some (record header { total_len = (20 + length d) % 65536 }, d))
    × (Udp.parse d ≡ some (5000, 53, payload))
unfolding Udp.build Ipv4.build copy_at
frame-parse-build_example =
    frame-parse-build broadcast (replicate 6 2) header 5000 53 payload (replicate 64 0)
      (replicate 64 0) (replicate 64 0) refl refl refl refl (omega arith) (omega arith)
      (omega arith) (omega arith) (omega arith)

-- A header length of zero words is taken: the segment's data then starts with its header.
short_offset : Tcp.parse (replicate 20 0) ≡ some (0, 0, 0, 0, 0, replicate 20 0)
unfolding Tcp.parse
short_offset = refl
