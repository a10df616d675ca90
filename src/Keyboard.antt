-- ===== src/Keyboard.antt =====
-- kernel/src/drivers/keyboard/src/ps2.rs: scancodes as ASCII. The rest of the file talks to ports.
use Prim.Native.Nat.{bit_and}
use ferrugem.Prelude.{
  ℕ, Option, none, some, List, [], ◌∷◌, not, if◌then◌else◌, length, ltb, ◌==◌, get_or,
}

-- Key-down codes of a US keyboard, unshifted.
unfoldable pub scancode_map : List ℕ
scancode_map =
    0 ∷ 0 ∷ b'1' ∷ b'2' ∷ b'3' ∷ b'4' ∷ b'5' ∷ b'6' ∷ b'7' ∷ b'8' ∷ b'9' ∷ b'0' ∷ b'-' ∷ b'=' ∷ 8
    ∷ 9 ∷ b'q' ∷ b'w' ∷ b'e' ∷ b'r' ∷ b't' ∷ b'y' ∷ b'u' ∷ b'i' ∷ b'o' ∷ b'p' ∷ b'[' ∷ b']' ∷ 10 ∷ 0
    ∷ b'a' ∷ b's' ∷ b'd' ∷ b'f' ∷ b'g' ∷ b'h' ∷ b'j' ∷ b'k' ∷ b'l' ∷ b';' ∷ 39 ∷ b'`' ∷ 0 ∷ 92
    ∷ b'z' ∷ b'x' ∷ b'c' ∷ b'v' ∷ b'b' ∷ b'n' ∷ b'm' ∷ b',' ∷ b'.' ∷ b'/' ∷ 0 ∷ 0 ∷ 0 ∷ b' ' ∷ []

unfoldable pub scancode_to_ascii : ℕ → Option ℕ
scancode_to_ascii sc =
    let c = get_or scancode_map sc 0 in
    if not (bit_and sc 0x80 == 0)
    then none
    else if ltb sc (length scancode_map)
    then (if not (c == 0) then some c else none)
    else none
