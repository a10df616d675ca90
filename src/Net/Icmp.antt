-- ===== src/Net/Icmp.antt =====
-- kernel/src/net/icmp.rs: ICMP echo messages.
use ferrugem.Prelude.{
  ℕ, ◌+◌, Option, none, some, List, [], ◌∷◌, length, take, drop, if◌then◌else◌, ltb,
}
use ferrugem.Bytes.{be_bytes, copy_at}
use ferrugem.Net.{be16}
use ferrugem.Net.Ipv4.{checksum}

abbrev pub type_echo_request : ℕ
type_echo_request = 8

abbrev pub type_echo_reply : ℕ
type_echo_reply = 0

unfoldable pub parse_echo : List ℕ → Option (ℕ × ℕ × List ℕ)
parse_echo buf = if ltb (length buf) 8 then none else some (be16 buf 4, be16 buf 6, drop 8 buf)

unfoldable pub build_reply : (id seq : ℕ) → (payload out : List ℕ) → ℕ × List ℕ
build_reply id seq payload out =
    let len = 8 + length payload in
    if ltb (length out) len
    then (0, out)
    else (let filled = copy_at 8 payload (
          copy_at 6 (be_bytes seq) (
            copy_at 4 (be_bytes id) (
              copy_at 2 (be_bytes 0)
                (copy_at 1 (0 ∷ []) (copy_at 0 (type_echo_reply ∷ []) out))))) in
        (len, copy_at 2 (be_bytes (checksum (take len filled))) filled))
