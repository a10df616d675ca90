-- ===== src/Shell/Users/Lookup.antt =====
-- Looking up a user that was added.
use ferrugem.Prelude.{
  ℕ, ◌+◌, ◌<◌, ◌≡◌, refl, Bool, true, false, ◌&&◌, none, some, ◌==◌, leb, length, set, find_in,
  find_in-some, find_in-none, arith, Option-cases, inl, inr, get_or-set_self, get_or-set_ne,
  ℕ_discrete, min, take, drop, ◌++◌, ap, sym, ◌∙◌,
}
use ferrugem.Vfs.Path.{Bytes}
use ferrugem.Shell.Users.{Users, User, no_user, user_at, max_users, add, lookup_by_uid}

abbrev has_uid : ℕ → Users → ℕ → Bool
has_uid uid t i = (user_at t i).used && (user_at t i).uid == uid

absent-below :
    (uid : ℕ) (t : Users)
    → lookup_by_uid uid t ≡ none
    → (i : ℕ) → i < t.count
    → has_uid uid t i ≡ false
unfolding lookup_by_uid
absent-below uid t absent i h = elim (Option-cases (find_in 0 t.count (has_uid uid t))) [
  | inl e ↦ find_in-none 0 t.count (has_uid uid t) e i (omega arith) (omega arith)
  | inr (k, e) ↦ absurd (ground (arith, e, absent))
]

-- Where a table of eight has room and nobody has the uid yet, a user who is added is found by it,
-- with the gid given and the length of the name, at most 32.
pub lookup_by_uid-add :
    (uid gid : ℕ) (name : Bytes) (t : Users)
    → length t.users ≡ max_users
    → t.count < max_users
    → lookup_by_uid uid t ≡ none
    → (u : User) × (lookup_by_uid uid (add uid gid name t) ≡ some u)
      × (u.uid ≡ uid)
      × (u.gid ≡ gid)
      × (u.name_len ≡ min (length name) 32)
unfolding lookup_by_uid add
lookup_by_uid-add uid gid name t len room absent =
    let open_ : leb 8 t.count ≡ false = ground arith in
    let n = min (length name) 32 in
    let user : User = record {
      uid = uid;
      gid = gid;
      used = true;
      name = take n name ++ drop n (user_at t t.count).name;
      name_len = n;
    } in
    let t' : Users = record { users = set t.users t.count user; count = t.count + 1 } in
    let here : user_at t' t.count ≡ user =
      get_or-set_self t.users t.count user no_user (omega (arith, len)) in
    let added : add uid gid name t ≡ t' = rw (open_, add) refl in
    let hit : has_uid uid t' t.count ≡ true = rw here (ground arith) in
    rw added (elim (Option-cases (find_in 0 (t.count + 1) (has_uid uid t'))) [
      | inl e ↦ absurd (
          cc (
            find_in-none 0 (t.count + 1) (has_uid uid t') e t.count (omega arith) (omega arith),
            hit,
          ))
      | inr (k, e) ↦
          let first = find_in-some 0 (t.count + 1) (has_uid uid t') k e in
          elim (ℕ_discrete t.count k) [
            | yes last ↦
                let found : find_in 0 (t.count + 1) (has_uid uid t') ≡ some t.count =
                  e ∙ ap some (sym last) in
                (user, rw found (ap some here), refl, refl, refl)
            | no ne ↦
                let kept : user_at t' k ≡ user_at t k =
                  get_or-set_ne t.users t.count k user no_user ne in
                let below : has_uid uid t k ≡ true = rw kept at first.passes in
                absurd (cc (absent-below uid t absent k (omega (arith, first.below, ne)), below))
          ]
    ])
