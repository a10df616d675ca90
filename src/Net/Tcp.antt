-- ===== src/Net/Tcp.antt =====
-- kernel/src/net/tcp.rs: the states of a connection, and the parser of segments.
use ferrugem.Prelude.{
  ℕ, ◌*◌, ◌/◌, Option, none, some, List, length, drop, get_or, if◌then◌else◌, ltb,
}
use ferrugem.Net.{be16, be32}

pub data TcpState : Type 0 where
  closed listen syn_sent syn_received established fin_wait1 fin_wait2 close_wait closing last_ack
        time_wait :
      TcpState

unfoldable pub parse : List ℕ → Option (ℕ × ℕ × ℕ × ℕ × ℕ × List ℕ)
parse buf =
    let off = get_or buf 12 0 / 16 * 4 in
    if ltb (length buf) 20
    then none
    else if ltb (length buf) off
    then none
    else some (be16 buf 0, be16 buf 2, be32 buf 4, be32 buf 8, get_or buf 13 0, drop off buf)
