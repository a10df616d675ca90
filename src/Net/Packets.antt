-- ===== src/Net/Packets.antt =====
-- Whole packets: a datagram in an IPv4 packet in an Ethernet frame, and the checksum of its header.
use ferrugem.Prelude.{
  ℕ, ◌+◌, ◌%◌, ◌^◌, ◌<◌, ◌≤◌, ◌≡◌, refl, arith, some, List, [], ◌∷◌, ◌++◌, take, length,
}
use ferrugem.Bytes.{four_of, AllBytes}
use ferrugem.Net.Ethernet
use ferrugem.Net.Ethernet.{MacAddr, ethertype_ipv4}
use ferrugem.Net.Ipv4
use ferrugem.Net.Ipv4.{Ipv4Header}
use ferrugem.Net.Ipv4.Checksum.{
  words, ones_complement, checksum-zero, checksum-words, ones_complement-full,
}
use ferrugem.Net.Udp
use ferrugem.Net.RoundTrip.{
  udp-parse-build, ethernet-parse-build, ipv4-parse-build, ipv4_header, ipv4_layout,
}

-- The bytes that each layer hands to the next.
abbrev pub datagram : (src dst : ℕ) → (payload out : List ℕ) → List ℕ
datagram src dst payload out = take (8 + length payload) (Udp.build src dst payload out).1

abbrev pub packet : Ipv4Header → (payload out : List ℕ) → List ℕ
packet hdr payload out = take (20 + length payload) (Ipv4.build hdr payload out).1

abbrev pub frame : (dst src : MacAddr) → (etype : ℕ) → (payload out : List ℕ) → List ℕ
frame dst src etype payload out =
    take (14 + length payload) (Ethernet.build dst src etype payload out).1

-- Each parser reads back what its builder wrote of a datagram in an IPv4 packet in a frame, if the
-- addresses have their lengths, the ports are 16-bit, and each buffer is long enough: the addresses,
-- the type, the ports and the payload, and the IPv4 header with the packet's length for `total_len`.
pub frame-parse-build :
    (dst src : MacAddr) (hdr : Ipv4Header) (sport dport : ℕ) (payload out out' out'' : List ℕ)
    → length dst ≡ 6
    → length src ≡ 6
    → length hdr.src ≡ 4
    → length hdr.dst ≡ 4
    → sport < 65536
    → dport < 65536
    → let d = datagram sport dport payload out in
      let p = packet hdr d out' in
      let f = frame dst src ethertype_ipv4 p out'' in
      8 + length payload ≤ length out
      → 20 + length d ≤ length out'
      → 14 + length p ≤ length out''
      → (Ethernet.parse f ≡ some (dst, src, ethertype_ipv4, p))
        × (Ipv4.parse p ≡ some (record hdr { total_len = (20 + length d) % 65536 }, d))
        × (Udp.parse d ≡ some (sport, dport, payload))
frame-parse-build dst src hdr sport dport payload out out' out'' hd hs is id sp dp h h' h'' = (
  ethernet-parse-build dst src ethertype_ipv4 (packet hdr (datagram sport dport payload out) out')
      out'' hd hs (omega arith) h'',
  ipv4-parse-build hdr (datagram sport dport payload out) out' is id h',
  udp-parse-build sport dport payload out sp dp h,
)

header_words :
    (hdr : Ipv4Header) (total sum : ℕ)
    → length hdr.src ≡ 4
    → length hdr.dst ≡ 4
    → sum < 65536
    → words (ipv4_header hdr total sum) ≡ words (ipv4_header hdr total 0) + sum
unfolding ipv4_header
header_words hdr total sum is id h =
    let (s0, s1, s2, s3, es) = four_of hdr.src is in
    let (d0, d1, d2, d3, ed) = four_of hdr.dst id in rw (es, ed) (omega arith)

header_bounds :
    (hdr : Ipv4Header) (total : ℕ)
    → length hdr.src ≡ 4
    → length hdr.dst ≡ 4
    → AllBytes hdr.src
    → AllBytes hdr.dst
    → hdr.ttl < 256
    → hdr.protocol < 256
    → (0 < words (ipv4_header hdr total 0)) × (words (ipv4_header hdr total 0) < 2 ^ 31)
unfolding ipv4_header
header_bounds hdr total is id bs bd ht hp =
    let (s0, s1, s2, s3, es) = four_of hdr.src is in
    let (d0, d1, d2, d3, ed) = four_of hdr.dst id in
    let bs' : AllBytes (s0 ∷ s1 ∷ s2 ∷ s3 ∷ []) = rw es at bs in
    let bd' : AllBytes (d0 ∷ d1 ∷ d2 ∷ d3 ∷ []) = rw ed at bd in
    rw (es, ed) (omega arith, omega arith)

length-header :
    (hdr : Ipv4Header) (total sum : ℕ)
    → length hdr.src ≡ 4
    → length hdr.dst ≡ 4
    → length (ipv4_header hdr total sum) ≡ 20
unfolding ipv4_header
length-header hdr total sum is id =
    let (s0, s1, s2, s3, es) = four_of hdr.src is in
    let (d0, d1, d2, d3, ed) = four_of hdr.dst id in rw (es, ed) refl

take_header :
    (hdr : Ipv4Header) (total sum : ℕ) (rest : List ℕ)
    → length hdr.src ≡ 4
    → length hdr.dst ≡ 4
    → take 20 (ipv4_header hdr total sum ++ rest) ≡ ipv4_header hdr total sum
unfolding ipv4_header
take_header hdr total sum rest is id =
    let (s0, s1, s2, s3, es) = four_of hdr.src is in
    let (d0, d1, d2, d3, ed) = four_of hdr.dst id in rw (es, ed)

-- The 20 bytes of the header that `build` wrote, taken as 16-bit words, sum to 0xFFFF in one's
-- complement, and their checksum, as a receiver takes it, is zero, if the addresses have four bytes
-- each, the fields are bytes and the buffer is long enough.
pub checksum-build :
    (hdr : Ipv4Header) (payload out : List ℕ)
    → length hdr.src ≡ 4
    → length hdr.dst ≡ 4
    → AllBytes hdr.src
    → AllBytes hdr.dst
    → hdr.ttl < 256
    → hdr.protocol < 256
    → 20 + length payload ≤ length out
    → let header = take 20 (packet hdr payload out) in
      (length header ≡ 20) × (ones_complement (words header) ≡ 0xFFFF) × (Ipv4.checksum header ≡ 0)
checksum-build hdr payload out is id bs bd ht hp h =
    let total = 20 + length payload in
    let blank = ipv4_header hdr total 0 in
    let sum = Ipv4.checksum blank in
    let (pos, small) = header_bounds hdr total is id bs bd ht hp in
    let fits : sum < 65536 = omega (arith, checksum-words blank (omega arith)) in
    let full = ipv4_header hdr total sum in
    let added = header_words hdr total sum is id fits in
    rw (ipv4_layout hdr payload out is id h, take_header hdr total sum payload is id)
      (
        length-header hdr total sum is id,
        ones_complement-full blank full pos small added,
        checksum-zero blank full pos small added,
      )
