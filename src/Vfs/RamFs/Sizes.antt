-- ===== src/Vfs/RamFs/Sizes.antt =====
-- The bounds of the file system's arrays.
use ferrugem.Prelude.{
  ℕ, zero, suc, ◌+◌, ◌≤◌, ◌≡◌, refl, ◌∙◌, ap, true, not, min, take, drop, length, replicate, get_or,
  set, arith, inl, inr, Option-cases, find_in, ◌++◌, length-take, length-append, length-drop,
  length-set, length-replicate, get_or-set_self, get_or-set_ne, subst, sym, dec_lt, ℕ_discrete, [],
  ◌∷◌,
}
use ferrugem.Vfs.Path.{Bytes, slash}
use ferrugem.Vfs.RamFs.{
  RamFs, Inode, InodeKind, dir, empty, inode_at, update_inode, copy_at, set_name, alloc, max_data,
  max_inodes, max_name, new, init_root,
}
use ferrugem.Vfs.RamFs.Ops.{fill, create, store_bytes}

pub record Fits (n : Inode) : Type 0 where
  pub bytes_len : length n.bytes ≡ max_data
  pub size_le : n.size ≤ max_data
  pub name_room : length n.name ≡ max_name
  pub name_le : n.name_len ≤ max_name

-- The table has its 64 inodes, and each has its arrays whole, with its sizes within them.
pub record IsValid (fs : RamFs) : Type 0 where
  pub inodes : length fs ≡ max_inodes
  pub fits : (i : ℕ) → Fits (inode_at fs i)

pub length-copy_at :
    (offset : ℕ) (src dst : Bytes)
    → offset + length src ≤ length dst
    → length (copy_at offset src dst) ≡ length dst
unfolding copy_at
length-copy_at offset src dst h = omega (
  arith,
  length-append (take offset dst) (src ++ drop (offset + length src) dst),
  length-append src (drop (offset + length src) dst),
  length-take offset dst,
  length-drop (offset + length src) dst,
)

empty-Fits : Fits empty
unfolding empty
empty-Fits = record {
  bytes_len = length-replicate {A = ℕ} max_data 0;
  size_le = omega arith;
  name_room = length-replicate {A = ℕ} max_name 0;
  name_le = omega arith;
}

set-IsValid : (fs : RamFs) (i : ℕ) (n : Inode) → IsValid fs → Fits n → IsValid (set fs i n)
set-IsValid fs i n v f = record {
  inodes = length-set fs i n ∙ v.inodes;
  fits = λ j. elim (ℕ_discrete i j) [
    | no ne ↦ subst Fits (sym (get_or-set_ne fs i j n empty ne)) (v.fits j)
    | yes e ↦ elim (dec_lt i (length fs)) [
      | yes lt ↦
          subst Fits
            (sym (ap (λ k. inode_at (set fs i n) k) (sym e) ∙ get_or-set_self fs i n empty lt)) f
      | no ge ↦ subst Fits (sym (beyond fs i j (omega arith))) (v.fits j)
    ]
  ];
}
  where
    beyond :
        (xs : RamFs) (i j : ℕ) → length xs ≤ i → get_or (set xs i n) j empty ≡ get_or xs j empty
    beyond [] i j h = refl
    beyond (x ∷ xs) zero j h = absurd (omega arith)
    beyond (x ∷ xs) (suc i) zero h = refl
    beyond (x ∷ xs) (suc i) (suc j) h = beyond xs i j (omega arith)

pub update-IsValid :
    (f : Inode → Inode) (i : ℕ) (fs : RamFs)
    → ((n : Inode) → Fits n → Fits (f n))
    → IsValid fs
    → IsValid (update_inode f i fs)
unfolding update_inode
update-IsValid f i fs keeps v = set-IsValid fs i (f (inode_at fs i)) v (keeps _ (v.fits i))

pub set_name-Fits : (s : Bytes) (n : Inode) → Fits n → Fits (set_name s n)
unfolding set_name
set_name-Fits s n f = record {
  bytes_len = f.bytes_len;
  size_le = f.size_le;
  name_room =
      length-copy_at 0 (take (min (length s) max_name) s) n.name
        (omega (arith, length-take (min (length s) max_name) s, f.name_room))
      ∙ f.name_room;
  name_le = omega arith;
}

fill-Fits :
    (kind : InodeKind) (parent uid gid mode : ℕ) (name : Bytes) (n : Inode)
    → Fits n
    → Fits (fill kind parent uid gid mode name n)
unfolding fill
fill-Fits kind parent uid gid mode name n f =
    set_name-Fits name
      (record n { kind = kind; parent = parent; uid = uid; gid = gid; mode = mode })
      (record {
        bytes_len = f.bytes_len;
        size_le = f.size_le;
        name_room = f.name_room;
        name_le = f.name_le;
      })

pub store_bytes-Fits : (src : Bytes) (n : Inode) → Fits n → Fits (store_bytes src n)
unfolding store_bytes
store_bytes-Fits src n f = record {
  bytes_len =
      length-copy_at 0 (take (min (length src) max_data) src) n.bytes
        (omega (arith, length-take (min (length src) max_data) src, f.bytes_len))
      ∙ f.bytes_len;
  size_le = omega arith;
  name_room = f.name_room;
  name_le = f.name_le;
}

alloc-IsValid : (fs : RamFs) → IsValid fs → IsValid (alloc fs).1
unfolding alloc
alloc-IsValid fs v = elim (Option-cases (find_in 1 63 (λ i. not (inode_at fs i).used))) [
  | inl e ↦ rw (e, alloc) v
  | inr (i, e) ↦
      rw (e, alloc)
        (set-IsValid fs i (record empty { used = true }) v
          (record {
            bytes_len = empty-Fits.bytes_len;
            size_le = empty-Fits.size_le;
            name_room = empty-Fits.name_room;
            name_le = empty-Fits.name_le;
          }))
]

pub create-IsValid :
    (kind : InodeKind) (parent uid gid mode : ℕ) (name : Bytes) (fs : RamFs)
    → IsValid fs
    → IsValid (create kind parent uid gid mode name fs).1
unfolding create
create-IsValid kind parent uid gid mode name fs v = elim (Option-cases (alloc fs).0) [
  | inl e ↦ rw (e, create) (alloc-IsValid fs v)
  | inr (i, e) ↦
      rw (e, create)
        (update-IsValid (fill kind parent uid gid mode name) i (alloc fs).1
          (fill-Fits kind parent uid gid mode name) (alloc-IsValid fs v))
]

pub new-IsValid : IsValid new
unfolding new
new-IsValid = record {
  inodes = length-replicate max_inodes empty;
  fits = λ i. subst Fits (sym (all_empty max_inodes i)) empty-Fits;
}
  where
    all_empty : (n i : ℕ) → get_or (replicate n empty) i empty ≡ empty
    all_empty zero i = refl
    all_empty (suc n) zero = refl
    all_empty (suc n) (suc i) = all_empty n i

pub init_root-IsValid : (fs : RamFs) → IsValid fs → IsValid (init_root fs)
unfolding init_root
init_root-IsValid fs v =
    update-IsValid
      (λ r. record r {
        used = true;
        kind = dir;
        name = set r.name 0 slash;
        name_len = 1;
        parent = 0;
        uid = 0;
        gid = 0;
        mode = 493;
      })
      0 fs
      (λ n f. record {
        bytes_len = f.bytes_len;
        size_le = f.size_le;
        name_room = length-set n.name 0 slash ∙ f.name_room;
        name_le = omega arith;
      })
      v
