-- ===== src/Vfs/RamFs/Files.antt =====
-- Files as byte sequences: what the reads and writes by inode do to the contents.
use ferrugem.Prelude.{
  ℕ, ◌+◌, ◌-◌, ◌%◌, ◌^◌, ◌<◌, ◌≤◌, ◌≡◌, refl, ◌≢◌, sym, true, false, [], ◌++◌, ◌==◌, ltb, min,
  if◌then◌else◌, take, drop, length, get_elem?, arith, list_ext, get_elem?-take, get_elem?-drop,
  get_elem?-append, length-take, get_or-set_self, get_or-set_ne, dec_lt, ℕ_discrete,
  take-append-drop,
}
use ferrugem.Vfs.Path.{Bytes}
use ferrugem.Vfs.RamFs.{RamFs, Inode, empty, inode_at, update_inode, copy_at, max_data}
use ferrugem.Vfs.RamFs.Ops.{read_bytes}
use ferrugem.Vfs.RamFs.Sizes.{IsValid}
use ferrugem.Vfs.RamFs.Inodes.{is_file, inode_read, inode_write, patched}

pub get_elem?-copy_at :
    (offset : ℕ) (src dst : Bytes) (i : ℕ)
    → offset ≤ length dst
    → get_elem? (copy_at offset src dst) i ≡ (
        if ltb i offset
        then get_elem? dst i
        else if ltb i (offset + length src)
        then get_elem? src (i - offset)
        else get_elem? dst i)
unfolding copy_at
get_elem?-copy_at offset src dst i h =
    let len : length (take offset dst) ≡ offset = omega (arith, length-take offset dst) in
    let front : get_elem? (copy_at offset src dst) i ≡ (
        if ltb i offset
        then get_elem? (take offset dst) i
        else get_elem? (src ++ drop (offset + length src) dst) (i - offset)) =
      rw len at (get_elem?-append (take offset dst) (src ++ drop (offset + length src) dst) i) in
    let middle = get_elem?-append src (drop (offset + length src) dst) (i - offset) in
    let back = get_elem?-drop (offset + length src) dst (i - offset - length src) in
    elim (dec_lt i offset) [
      | yes lt ↦ ground (arith, front, get_elem?-take offset dst i)
      | no ge ↦ elim (dec_lt i (offset + length src)) [
        | yes lt ↦ ground (arith, front, middle)
        | no beyond ↦
            let same : offset + length src + (i - offset - length src) ≡ i = omega arith in
            ground (arith, front, middle, rw same at back)
      ]
    ]

copy_at-nil : (offset : ℕ) (xs : Bytes) → copy_at offset [] xs ≡ xs
unfolding copy_at
copy_at-nil offset xs =
    let e : offset + 0 ≡ offset = omega arith in rw e (take-append-drop offset xs)

-- Patching the array and then taking the larger size is patching the contents.
splice :
    (offset size : ℕ) (u bytes : Bytes)
    → offset ≤ size
    → size ≤ length bytes
    → let end = offset + length u in
      take (if ltb size end then end else size) (copy_at offset u bytes)
      ≡ copy_at offset u (take size bytes)
splice offset size u bytes below inside = list_ext _ _ (λ i. ground (
  arith,
  get_elem?-take (if ltb size (offset + length u) then offset + length u else size)
      (copy_at offset u bytes) i,
  get_elem?-copy_at offset u bytes i,
  get_elem?-copy_at offset u (take size bytes) i,
  get_elem?-take size bytes i,
  length-take size bytes,
))

read-patched :
    (offset end n : ℕ) (src : Bytes) (node : Inode)
    → end - offset ≡ n
    → end ≡ offset + length (take n src)
    → offset ≤ node.size
    → node.size ≤ length node.bytes
    → let node' = patched offset end src node in
      take node'.size node'.bytes ≡ copy_at offset (take n src) (take node.size node.bytes)
read-patched offset end n src node left at_end below inside =
    rw (left, at_end) (splice offset node.size (take n src) node.bytes below inside)

inode_at-update :
    (f : Inode → Inode) (idx : ℕ) (fs : RamFs)
    → idx < length fs
    → (inode_at (update_inode f idx fs) idx ≡ f (inode_at fs idx))
      × ((j : ℕ) → idx ≢ j → inode_at (update_inode f idx fs) j ≡ inode_at fs j)
unfolding update_inode
inode_at-update f idx fs h = (
  get_or-set_self fs idx (f (inode_at fs idx)) empty h,
  λ j ne. get_or-set_ne fs idx j (f (inode_at fs idx)) empty ne,
)

-- In a valid file system, a write to a file at an offset within its contents, whose end does not
-- pass 2 ^ 64, writes as many bytes as the array has room for, says how many, and puts exactly
-- these over the contents from there on, which grow if need be. No other inode changes.
pub inode_write_lem :
    (idx offset : ℕ) (src : Bytes) (fs : RamFs)
    → IsValid fs
    → is_file fs idx ≡ true
    → offset ≤ (inode_at fs idx).size
    → offset + length src < 2 ^ 64
    → let n = min (length src) (max_data - offset) in
      let (fs', written) = inode_write idx offset src fs in
      (written ≡ n)
      × (read_bytes fs' idx ≡ copy_at offset (take n src) (read_bytes fs idx))
      × ((j : ℕ) → idx ≢ j → inode_at fs' j ≡ inode_at fs j)
unfolding inode_write read_bytes
inode_write_lem idx offset src fs v is below fits =
    let f = v.fits idx in
    let n = min (length src) (max_data - offset) in
    let end = min ((offset + length src) % 2 ^ 64) max_data in
    let left : end - offset ≡ n = omega (arith, f.size_le) in
    let inside : idx < length fs = ground (arith, v.inodes) in
    let room : (inode_at fs idx).size ≤ length (inode_at fs idx).bytes =
      omega (arith, f.size_le, f.bytes_len) in
    elim (ℕ_discrete n 0) [
      | yes none_left ↦
          let stop : (end - offset == 0) ≡ true = ground arith in
          rw (is, left, none_left)
            (
              refl,
              sym (copy_at-nil offset (take (inode_at fs idx).size (inode_at fs idx).bytes)),
              λ j ne. refl,
            )
      | no some_left ↦
          let go_on : (n == 0) ≡ false = ground arith in
          let (here, others) = inode_at-update (patched offset end src) idx fs inside in
          let len : length (take n src) ≡ n = omega (arith, length-take n src) in
          let at_end : end ≡ offset + length (take n src) = omega (arith, len, f.size_le) in
          rw (is, left, go_on, here)
            (refl, read-patched offset end n src (inode_at fs idx) left at_end below room, others)
    ]

slice-contents :
    (offset size n : ℕ) (bytes : Bytes)
    → n ≤ size - offset
    → take n (drop (min offset size) bytes) ≡ take n (drop offset (take size bytes))
slice-contents offset size n bytes h = list_ext _ _ (λ i.
    let shift : i < n → min offset size + i ≡ offset + i = λ lt. omega arith in
    elim (dec_lt i n) [
      | yes lt ↦ ground (
        arith,
        get_elem?-take n (drop (min offset size) bytes) i,
        get_elem?-take n (drop offset (take size bytes)) i,
        rw (shift lt) at (get_elem?-drop (min offset size) bytes i),
        get_elem?-drop offset (take size bytes) i,
        get_elem?-take size bytes (offset + i),
      )
      | no ge ↦ ground (
        arith,
        get_elem?-take n (drop (min offset size) bytes) i,
        get_elem?-take n (drop offset (take size bytes)) i,
      )
    ])

-- In a valid file system, a read of a file gives the bytes of the contents from the offset on, as
-- many as there are and as the buffer holds, says how many, and leaves the rest of the buffer. An
-- offset past the end reads nothing.
pub inode_read_lem :
    (idx offset : ℕ) (buf : Bytes) (fs : RamFs)
    → IsValid fs
    → is_file fs idx ≡ true
    → let contents = read_bytes fs idx in
      let n = min (length buf) (length contents - offset) in
      inode_read fs idx offset buf ≡ (copy_at 0 (take n (drop offset contents)) buf, n)
unfolding inode_read read_bytes
inode_read_lem idx offset buf fs v is =
    let f = v.fits idx in
    let node = inode_at fs idx in
    let size : length (take node.size node.bytes) ≡ node.size =
      omega (arith, length-take node.size node.bytes, f.size_le, f.bytes_len) in
    let left : min (length buf) (node.size - min offset node.size)
        ≡ min (length buf) (node.size - offset) =
      omega arith in
    let few : min (length buf) (node.size - offset) ≤ node.size - offset = omega arith in
    rw (
      is,
      size,
      left,
      slice-contents offset node.size (min (length buf) (node.size - offset)) node.bytes few,
    )
