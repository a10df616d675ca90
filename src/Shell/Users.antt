-- ===== src/Shell/Users.antt =====
-- The user table of kernel/src/shell/users.rs. `USERS` and `COUNT` are one record. Names are bytes;
-- `name_str` is the bytes of a name, all names being ASCII.
pub mod Lookup
mod Tests
use ferrugem.Prelude.{
  ℕ, ◌+◌, Bool, true, false, ◌&&◌, Option, none, some, List, [], ◌∷◌, ◌++◌, ◌==◌, leb, min,
  if◌then◌else◌, get_or, set, take, drop, length, replicate, find_in,
}
use ferrugem.Vfs.Path.{Bytes, bytes_eq}

abbrev pub max_users : ℕ
max_users = 8

pub record User : Type 0 where
  pub uid : ℕ
  pub gid : ℕ
  pub used : Bool
  pub name : Bytes
  pub name_len : ℕ

unfoldable pub no_user : User
no_user = record { uid = 0; gid = 0; used = false; name = replicate 32 0; name_len = 0 }

unfoldable pub name_str : User → Bytes
name_str u = take u.name_len u.name

pub record Users : Type 0 where
  pub users : List User
  pub count : ℕ

abbrev pub user_at : Users → ℕ → User
user_at t i = get_or t.users i no_user

-- The statics as they start.
unfoldable pub no_users : Users
no_users = record { users = replicate max_users no_user; count = 0 }

-- A name longer than the field is cut.
unfoldable pub add : (uid gid : ℕ) → Bytes → Users → Users
add uid gid name t =
    let n = min (length name) 32 in
    let old = user_at t t.count in
    let user : User = record {
      uid = uid;
      gid = gid;
      used = true;
      name = take n name ++ drop n old.name;
      name_len = n;
    } in
    if leb max_users t.count
    then t
    else record { users = set t.users t.count user; count = t.count + 1 }

-- "root"
abbrev pub root_name : Bytes
root_name = 114 ∷ 111 ∷ 111 ∷ 116 ∷ []

-- "ferrugem"
abbrev pub ferrugem_name : Bytes
ferrugem_name = 102 ∷ 101 ∷ 114 ∷ 114 ∷ 117 ∷ 103 ∷ 101 ∷ 109 ∷ []

unfoldable pub init : Users → Users
unfolding add
init t = add 1000 1000 ferrugem_name (add 0 0 root_name t)

abbrev pub user_found : Users → Option ℕ → Option User
user_found t none = none
user_found t (some i) = some (user_at t i)

unfoldable pub lookup_by_name : Bytes → Users → Option User
unfolding name_str
lookup_by_name name t =
    user_found t
      (find_in 0 t.count (λ i. (user_at t i).used && bytes_eq (name_str (user_at t i)) name))

unfoldable pub lookup_by_uid : ℕ → Users → Option User
lookup_by_uid uid t =
    user_found t (find_in 0 t.count (λ i. (user_at t i).used && (user_at t i).uid == uid))

unfoldable pub list : Users → List User
list t = take t.count t.users
