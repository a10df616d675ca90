-- ===== src/Net/RoundTrip.antt =====
-- What the builders write, and that the parsers read it back.
use ferrugem.Prelude.{
  ℕ, ◌+◌, ◌*◌, ◌/◌, ◌%◌, ◌^◌, ◌<◌, ◌≤◌, ◌≡◌, arith, some, List, [], ◌∷◌, ◌++◌, le→ltb, take, drop,
  length,
}
use ferrugem.Bytes.{be_bytes, copy_at, take-copy_at, take_both, four_of, six_of}
use ferrugem.Net.Ethernet
use ferrugem.Net.Ethernet.{MacAddr}
use ferrugem.Net.Ipv4
use ferrugem.Net.Ipv4.{Ipv4Header}
use ferrugem.Net.Udp
use ferrugem.Net.Arp
use ferrugem.Net.Arp.{ArpPacket, Ipv4Addr}

be16-be_bytes : (v : ℕ) → v < 65536 → v / 256 % 256 * 256 + v % 256 ≡ v
be16-be_bytes v h = omega arith

-- A datagram as `Udp.build` lays it out.
udp_header : (src dst len : ℕ) → List ℕ
udp_header src dst len = be_bytes src ++ (be_bytes dst ++ (be_bytes len ++ be_bytes 0))

udp_layout :
    (src dst : ℕ) (payload out : List ℕ)
    → 8 + length payload ≤ length out
    → take (8 + length payload) (Udp.build src dst payload out).1
      ≡ udp_header src dst ((8 + length payload) % 2 ^ 16) ++ payload
unfolding Udp.build udp_header copy_at
udp_layout src dst payload out h = rw (le→ltb (length out) (8 + length payload) h) (
    take-copy_at (udp_header src dst ((8 + length payload) % 2 ^ 16)) payload
      (drop 2 (drop 2 (drop 2 (drop 2 out)))))

pub udp-parse-build :
    (src dst : ℕ) (payload out : List ℕ)
    → src < 65536
    → dst < 65536
    → 8 + length payload ≤ length out
    → Udp.parse (take (8 + length payload) (Udp.build src dst payload out).1)
      ≡ some (src, dst, payload)
unfolding Udp.parse udp_header
udp-parse-build src dst payload out hs hd h =
    rw (udp_layout src dst payload out h)
      (ground (arith, be16-be_bytes src hs, be16-be_bytes dst hd))

-- A frame as `Ethernet.build` lays it out.
ethernet_layout :
    (dst src : MacAddr) (etype : ℕ) (payload out : List ℕ)
    → length dst ≡ 6
    → length src ≡ 6
    → 14 + length payload ≤ length out
    → take (14 + length payload) (Ethernet.build dst src etype payload out).1
      ≡ (dst ++ (src ++ be_bytes etype)) ++ payload
unfolding Ethernet.build copy_at
ethernet_layout dst src etype payload out hd hs h =
    let (d0, d1, d2, d3, d4, d5, ed) = six_of dst hd in
    let (s0, s1, s2, s3, s4, s5, es) = six_of src hs in
    rw (le→ltb (length out) (14 + length payload) h, ed, es)
      (take-copy_at (d0 ∷ d1 ∷ d2 ∷ d3 ∷ d4 ∷ d5 ∷ s0 ∷ s1 ∷ s2 ∷ s3 ∷ s4 ∷ s5 ∷ be_bytes etype)
        payload (drop 2 (drop 6 (drop 6 out))))

pub ethernet-parse-build :
    (dst src : MacAddr) (etype : ℕ) (payload out : List ℕ)
    → length dst ≡ 6
    → length src ≡ 6
    → etype < 65536
    → 14 + length payload ≤ length out
    → Ethernet.parse (take (14 + length payload) (Ethernet.build dst src etype payload out).1)
      ≡ some (dst, src, etype, payload)
unfolding Ethernet.parse
ethernet-parse-build dst src etype payload out hd hs he h =
    let (d0, d1, d2, d3, d4, d5, ed) = six_of dst hd in
    let (s0, s1, s2, s3, s4, s5, es) = six_of src hs in
    rw (ethernet_layout dst src etype payload out hd hs h, ed, es)
      (ground (arith, be16-be_bytes etype he))

-- The 20 bytes of a header with the checksum `sum`.
unfoldable pub ipv4_header : Ipv4Header → (total sum : ℕ) → List ℕ
ipv4_header hdr total sum =
    0x45 ∷ 0 ∷ be_bytes (total % 2 ^ 16)
    ++ (be_bytes 0
        ++ (be_bytes 0 ++ (hdr.ttl ∷ hdr.protocol ∷ be_bytes sum ++ (hdr.src ++ hdr.dst))))

pub ipv4_layout :
    (hdr : Ipv4Header) (payload out : List ℕ)
    → length hdr.src ≡ 4
    → length hdr.dst ≡ 4
    → 20 + length payload ≤ length out
    → take (20 + length payload) (Ipv4.build hdr payload out).1
      ≡ ipv4_header hdr
          (20 + length payload)
          (Ipv4.checksum (ipv4_header hdr (20 + length payload) 0))
        ++ payload
unfolding Ipv4.build ipv4_header copy_at
ipv4_layout hdr payload out hs hd h =
    let (s0, s1, s2, s3, es) = four_of hdr.src hs in
    let (d0, d1, d2, d3, ed) = four_of hdr.dst hd in
    let total = 20 + length payload in
    let hdr' = record hdr { src = s0 ∷ s1 ∷ s2 ∷ s3 ∷ []; dst = d0 ∷ d1 ∷ d2 ∷ d3 ∷ [] } in
    let sum = Ipv4.checksum (ipv4_header hdr' total 0) in
    let rest =
      drop 4 (drop 4 (drop 2 (drop 1 (drop 1 (drop 2 (drop 2 (drop 2 (drop 1 (drop 1 out))))))))) in
    rw (le→ltb (length out) (20 + length payload) h, es, ed)
      (take_both (ipv4_header hdr' total sum) payload
        (drop total (ipv4_header hdr' total 0 ++ rest)))

pub ipv4-parse-build :
    (hdr : Ipv4Header) (payload out : List ℕ)
    → length hdr.src ≡ 4
    → length hdr.dst ≡ 4
    → 20 + length payload ≤ length out
    → Ipv4.parse (take (20 + length payload) (Ipv4.build hdr payload out).1)
      ≡ some (record hdr { total_len = (20 + length payload) % 65536 }, payload)
unfolding Ipv4.parse ipv4_header
ipv4-parse-build hdr payload out hs hd h =
    let (s0, s1, s2, s3, es) = four_of hdr.src hs in
    let (d0, d1, d2, d3, ed) = four_of hdr.dst hd in
    rw (ipv4_layout hdr payload out hs hd h)
      (ground (arith, es, ed, be16-be_bytes ((20 + length payload) % 65536) (omega arith)))

pub arp-parse-build :
    (pkt : ArpPacket) (out : List ℕ)
    → pkt.op < 65536
    → length pkt.sender_mac ≡ 6
    → length pkt.sender_ip ≡ 4
    → length pkt.target_mac ≡ 6
    → length pkt.target_ip ≡ 4
    → 28 ≤ length out
    → Arp.parse (Arp.build pkt out).1 ≡ some pkt
unfolding Arp.parse Arp.build copy_at
arp-parse-build pkt out op sm si tm ti h =
    let (a0, a1, a2, a3, a4, a5, ea) = six_of pkt.sender_mac sm in
    let (b0, b1, b2, b3, eb) = four_of pkt.sender_ip si in
    let (c0, c1, c2, c3, c4, c5, ec) = six_of pkt.target_mac tm in
    let (d0, d1, d2, d3, ed) = four_of pkt.target_ip ti in
    rw (le→ltb (length out) 28 h, ea, eb, ec, ed)
      (ground (arith, ea, eb, ec, ed, be16-be_bytes pkt.op op))
