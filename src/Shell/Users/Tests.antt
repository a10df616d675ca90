-- ===== src/Shell/Users/Tests.antt =====
-- The user table at a concrete input.
use ferrugem.Prelude.{◌≡◌, refl, none, some, [], ◌∷◌, length, min, arith, find_in}
use ferrugem.Shell.Users.{Users, User, no_users, init, add, lookup_by_uid, max_users}
use ferrugem.Shell.Users.Lookup.{lookup_by_uid-add}

abbrev started : Users
started = init no_users

started-length : length started.users ≡ max_users
unfolding init no_users add
started-length = refl

started-count : started.count ≡ 2
unfolding init no_users add
started-count = refl

seven-absent : lookup_by_uid 7 started ≡ none
unfolding lookup_by_uid init no_users add find_in
seven-absent = refl

-- The user "a" with uid 7.
user_seven :
    (u : User) × (lookup_by_uid 7 (add 7 8 (97 ∷ []) started) ≡ some u)
    × (u.uid ≡ 7)
    × (u.gid ≡ 8)
    × (u.name_len ≡ min 1 32)
user_seven =
    lookup_by_uid-add 7 8 (97 ∷ []) started started-length (omega (arith, started-count))
      seven-absent
