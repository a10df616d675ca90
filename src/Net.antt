-- ===== src/Net.antt =====
-- kernel/src/net: the parsers and builders of packet headers. No other part of the kernel calls them
-- yet. A buffer is a list of bytes; a builder returns its length and the buffer that it wrote to.
pub mod Ethernet
pub mod Arp
pub mod Ipv4
pub mod Icmp
pub mod Udp
pub mod Tcp
pub mod RoundTrip
pub mod Packets
mod Tests
use ferrugem.Prelude.{ℕ, ◌+◌, ◌*◌, List, get_or}

-- `u16::from_be_bytes([d[o], d[o + 1]])`, within `d`.
abbrev pub be16 : List ℕ → ℕ → ℕ
be16 d o = get_or d o 0 * 256 + get_or d (o + 1) 0

-- `u32::from_be_bytes` of the four bytes from `o` on.
abbrev pub be32 : List ℕ → ℕ → ℕ
be32 d o = be16 d o * 65536 + be16 d (o + 2)
