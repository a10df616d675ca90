-- ===== src/Vfs/RamFs/Tests.antt =====
-- The RAM file system at concrete inputs.
use ferrugem.Prelude.{ℕ, ◌-◌, ◌≡◌, refl, ◌≢◌, true, [], ◌∷◌, min, take, drop, length, arith}
use ferrugem.Vfs.Path.{Bytes, trim_start, split_parent}
use ferrugem.Vfs.RamFs.{
  RamFs, new, init_root, inode_at, copy_at, max_data, empty, update_inode, resolve_parent, perm,
}
use ferrugem.Vfs.RamFs.Ops.{read_bytes, mkdir}
use ferrugem.Vfs.RamFs.Inodes.{inode_read, inode_write, is_file}
use ferrugem.Vfs.RamFs.Refused.{serve, serve-refused, make_dir}
use ferrugem.Vfs.RamFs.Sizes.{IsValid, new-IsValid, init_root-IsValid, update-IsValid}
use ferrugem.Vfs.RamFs.Keeps.{serve-IsValid}
use ferrugem.Vfs.RamFs.Files.{inode_write_lem, inode_read_lem}

abbrev root : RamFs
root = init_root new

-- "/a".
abbrev path : Bytes
path = 47 ∷ 97 ∷ []

-- A file of two bytes in inode 3.
abbrev one_file : RamFs
one_file = update_inode (λ n. record n { used = true; size = 2 }) 3 new

one_file-IsValid : IsValid one_file
one_file-IsValid =
    update-IsValid (λ n. record n { used = true; size = 2 }) 3 new
      (λ n f. record {
        bytes_len = f.bytes_len;
        size_le = omega arith;
        name_room = f.name_room;
        name_le = f.name_le;
      })
      new-IsValid

one_file-is_file : is_file one_file 3 ≡ true
unfolding update_inode new empty
one_file-is_file = refl

one_file-size : (inode_at one_file 3).size ≡ 2
unfolding update_inode new empty
one_file-size = refl

inode_write_lem_example :
    let n = min 3 (max_data - 1) in
    let (fs', written) = inode_write 3 1 (7 ∷ 8 ∷ 9 ∷ []) one_file in
    (written ≡ n)
    × (read_bytes fs' 3 ≡ copy_at 1 (take n (7 ∷ 8 ∷ 9 ∷ [])) (read_bytes one_file 3))
    × ((j : ℕ) → 3 ≢ j → inode_at fs' j ≡ inode_at one_file j)
inode_write_lem_example =
    inode_write_lem 3 1 (7 ∷ 8 ∷ 9 ∷ []) one_file one_file-IsValid one_file-is_file
      (omega (arith, one_file-size)) (omega arith)

inode_read_lem_example :
    let contents = read_bytes one_file 3 in
    let n = min 2 (length contents - 1) in
    inode_read one_file 3 1 (5 ∷ 5 ∷ []) ≡ (copy_at 0 (take n (drop 1 contents)) (5 ∷ 5 ∷ []), n)
inode_read_lem_example = inode_read_lem 3 1 (5 ∷ 5 ∷ []) one_file one_file-IsValid one_file-is_file

serve-IsValid_example : IsValid (serve (make_dir path 0 0 0 493) root).1
serve-IsValid_example =
    serve-IsValid (make_dir path 0 0 0 493) root (init_root-IsValid new new-IsValid)

-- A user that is not root may not make a directory in the root.
serve-refused_example : (serve (make_dir path 0 7 7 493) root).1 ≡ root
unfolding serve mkdir resolve_parent trim_start split_parent init_root new perm
serve-refused_example = serve-refused (make_dir path 0 7 7 493) root refl
