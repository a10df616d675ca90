-- ===== src/Net/Udp.antt =====
-- kernel/src/net/udp.rs: UDP datagrams, sent without a checksum.
use ferrugem.Prelude.{ℕ, ◌+◌, ◌%◌, ◌^◌, Option, none, some, List, length, drop, if◌then◌else◌, ltb}
use ferrugem.Bytes.{be_bytes, copy_at}
use ferrugem.Net.{be16}

unfoldable pub parse : List ℕ → Option (ℕ × ℕ × List ℕ)
parse buf = if ltb (length buf) 8 then none else some (be16 buf 0, be16 buf 2, drop 8 buf)

unfoldable pub build : (src dst : ℕ) → (payload out : List ℕ) → ℕ × List ℕ
build src dst payload out =
    let len = 8 + length payload in
    if ltb (length out) len then (0, out) else (
      len,
      copy_at 8 payload (
          copy_at 6 (be_bytes 0) (
            copy_at 4 (be_bytes (len % 2 ^ 16))
              (copy_at 2 (be_bytes dst) (copy_at 0 (be_bytes src) out)))),
    )
