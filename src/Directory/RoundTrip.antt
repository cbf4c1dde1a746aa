-- ===== src/Directory/RoundTrip.antt =====
-- src/core/directory.c, `parse_directory_entries`: it reads back the listings that the format lays
-- out, entry by entry.
use squashfs_fuse.Common.{
  ℕ, true, ◌==◌, if◌then◌else◌, drop-drop, zero, suc, ◌+◌, ◌-◌, ◌*◌, ◌%◌, ◌^◌, ◌≤◌, ◌<◌, Option,
  none, List, [], ◌∷◌, ◌++◌, map, append-nil, append_assoc, ◌≡◌, ◌≢◌, refl, sym, ◌∙◌, arith,
  Option-cases, Bool-cases, inl, inr, length, length-append, take, drop, take-append, drop-append,
  leb,
}
use squashfs_fuse.Common.Bits.{bit_or_fields}
use squashfs_fuse.Directory.Listing.{
  Item, Group, items, put_item, put_items, put_group, put_groups, ItemFits, ItemsFit, GroupsFit,
  number_read, dirent_of, dirents,
}
use squashfs_fuse.Directory.{
  DirHeader, Collected, sign_extend_32, sign_extend_16, entry_type, grow, parse_entry,
  parse_entries, parse_headers, parse_directory_entries,
}
use squashfs_fuse.Inode.Parse.{allocate}
use squashfs_fuse.Inode.{
  InodeType, dir, file, symlink, blkdev, chrdev, fifo, socket, ldir, lfile, lsymlink, lblkdev,
  lchrdev, lfifo, lsocket, of_u16, value,
}
use squashfs_fuse.Result.{ok}
use squashfs_fuse.Utils.Endian.{le16_to_cpu-put_le16, le32_to_cpu-put_le32}
use squashfs_fuse.Utils.{Bytes, u16, u32, u64}

entry_type-value : (t : InodeType) → value t ≤ 7 → entry_type (value t) ≡ ok t
unfolding value of_u16
entry_type-value dir h = refl
entry_type-value file h = refl
entry_type-value symlink h = refl
entry_type-value blkdev h = refl
entry_type-value chrdev h = refl
entry_type-value fifo h = refl
entry_type-value socket h = refl
entry_type-value ldir h = absurd (omega arith)
entry_type-value lfile h = absurd (omega arith)
entry_type-value lsymlink h = absurd (omega arith)
entry_type-value lblkdev h = absurd (omega arith)
entry_type-value lchrdev h = absurd (omega arith)
entry_type-value lfifo h = absurd (omega arith)
entry_type-value lsocket h = absurd (omega arith)

-- The signed difference, added to the header's number.
relative_number :
    (base number : ℕ)
    → base < 2 ^ 32
    → base ≤ number + 2 ^ 15
    → number < base + 2 ^ 15
    → u64 (sign_extend_32 base + sign_extend_16 ((number + 2 ^ 16 - base) % 2 ^ 16))
      ≡ number_read base number
relative_number base number small above below = ground arith

module _ (malloc : ℕ → Option ℕ) (memory : (size : ℕ) → malloc size ≢ none) where
  room : (size : ℕ) → (address : ℕ) × (allocate malloc size ≡ ok address)
  room size = elim (Option-cases (malloc size)) [
    | inl refused ↦ absurd (memory size refused)
    | inr (address, got) ↦ (address, ground arith)
  ]

  -- Growing keeps the entries.
  grow-entries : (c : Collected) → (k : ℕ) × (grow malloc c ≡ ok (record c { capacity = k }))
  unfolding grow
  grow-entries c =
      let next = if c.capacity == 0 then 16 else c.capacity * 2 in
      let (address, got) = room (next * 32) in
      elim (Bool-cases (leb c.capacity (length c.entries))) [
        | inl full ↦ (next, ground (arith, got))
        | inr free ↦ (c.capacity, ground arith)
      ]

  parse_entry-put_item :
      (header : DirHeader) (e : Item) (rest : Bytes) (c : Collected)
      → header.inode_number < 2 ^ 32
      → ItemFits header.inode_number e
      → (k : ℕ) × (parse_entry malloc header (put_item header.inode_number e rest) c
          ≡ ok (
            rest,
            record {
              entries = c.entries ++ (dirent_of header.inode_number header.start e ∷ []);
              capacity = k;
            },
          ))
  unfolding parse_entry
  parse_entry-put_item header e rest c small f =
      let stored = (e.number + 2 ^ 16 - header.inode_number) % 2 ^ 16 in
      let n = length e.name in
      let buf = put_item header.inode_number e rest in
      let (k, grown) = grow-entries c in
      let (address, got) = room (n + 1) in
      let name_len : u16 (n - 1 + 1) ≡ n = omega arith in
      let ref = bit_or_fields 16 header.start e.offset f.offset in
      let long : length (e.name ++ rest) ≡ n + length rest = length-append e.name rest in
      let big : leb (8 + n) (length buf) ≡ true = ground (arith, long) in
      let kept : take n (e.name ++ rest) ≡ e.name = take-append e.name rest in
      let left : drop (8 + n) buf ≡ rest = sym (drop-drop 8 n buf) ∙ drop-append e.name rest in
      let eight : leb 8 (length buf) ≡ true = ground (arith, long) in
      (
        k,
        rw (
          eight,
          le16_to_cpu-put_le16 e.offset (drop 2 buf) f.offset,
          le16_to_cpu-put_le16 stored (drop 4 buf) (omega arith),
          le16_to_cpu-put_le16 (value e.type) (drop 6 buf) (omega arith),
          le16_to_cpu-put_le16 (n - 1) (drop 8 buf) (omega arith),
          name_len,
          big,
          entry_type-value e.type f.basic,
          grown,
          got,
          kept,
          relative_number header.inode_number e.number small f.above f.below,
          ref,
          left,
        ),
      )

  parse_entries-put_items :
      (header : DirHeader) (es : List Item) (rest : Bytes) (c : Collected)
      → header.inode_number < 2 ^ 32
      → ItemsFit header.inode_number es
      → (k : ℕ) × (parse_entries malloc (length es) header (put_items header.inode_number es rest) c
          ≡ ok (
            rest,
            record {
              entries = c.entries ++ map (dirent_of header.inode_number header.start) es;
              capacity = k;
            },
          ))
  unfolding parse_entries
  parse_entries-put_items header [] rest c small f =
      (c.capacity, λ i. ok (rest, record c { entries = sym (append-nil c.entries) i }))
  parse_entries-put_items header (e ∷ es) rest c small f =
      let (k, one) =
        parse_entry-put_item header e (put_items header.inode_number es rest) c small f.0 in
      let d = dirent_of header.inode_number header.start e in
      let grown : Collected = record { entries = c.entries ++ (d ∷ []); capacity = k } in
      let (l, more) = parse_entries-put_items header es rest grown small f.1 in
      let joined =
        append_assoc c.entries (d ∷ []) (map (dirent_of header.inode_number header.start) es) in
      (l, rw (one, more, joined))

  length-put_items :
      (base : ℕ) (es : List Item) (rest : Bytes) → length rest ≤ length (put_items base es rest)
  length-put_items base [] rest = omega arith
  length-put_items base (e ∷ es) rest =
      omega (arith, length-append e.name (put_items base es rest), length-put_items base es rest)

  length-put_groups : (gs : List Group) → length gs ≤ length (put_groups gs)
  length-put_groups [] = omega arith
  length-put_groups (g ∷ gs) =
      omega (arith, length-put_items g.base (items g) (put_groups gs), length-put_groups gs)

  parse_headers-put_groups :
      (fuel : ℕ) (gs : List Group) (c : Collected)
      → length gs ≤ fuel
      → GroupsFit gs
      → (k : ℕ) × (parse_headers malloc fuel (put_groups gs) c
          ≡ ok (record { entries = c.entries ++ dirents gs; capacity = k }))
  unfolding parse_headers
  parse_headers-put_groups fuel [] c enough f =
      (c.capacity, λ i. ok (record c { entries = sym (append-nil c.entries) i }))
  parse_headers-put_groups zero (g ∷ gs) c enough f = absurd (omega arith)
  parse_headers-put_groups (suc fuel) (g ∷ gs) c enough f =
      let header : DirHeader = record {
        count = length g.others;
        start = g.start;
        inode_number = g.base;
      } in
      let rest = put_groups gs in
      let buf = put_group g rest in
      let n : u32 (length g.others + 1) ≡ length (items g) = omega (arith, f.0.count) in
      let twelve : leb 12 (length buf) ≡ true = ground arith in
      let (k, one) = parse_entries-put_items header (items g) rest c f.0.base f.0.listed in
      let grown : Collected = record {
        entries = c.entries ++ map (dirent_of g.base g.start) (items g);
        capacity = k;
      } in
      let (l, more) = parse_headers-put_groups fuel gs grown (omega arith) f.1 in
      let joined = append_assoc c.entries (map (dirent_of g.base g.start) (items g)) (dirents gs) in
      (
        l,
        rw (
          twelve,
          le32_to_cpu-put_le32 (length g.others) (drop 4 buf) (omega (arith, f.0.count)),
          le32_to_cpu-put_le32 g.start (drop 8 buf) f.0.start,
          le32_to_cpu-put_le32 g.base (drop 12 buf) (omega (arith, f.0.base)),
          n,
          one,
          more,
          joined,
        ),
      )

  -- A listing whose fields fit their widths, with basic types, names of 1 to 65535 bytes and numbers
  -- within 2 ^ 15 of their header's, is read: every item, in order, with its name NUL-terminated, its type
  -- and the reference of its inode; provided that no allocation fails. The inode's number is read back
  -- where the header's is below 2 ^ 31. From there on the header's number is taken for a negative one, and
  -- the inode's comes out 2 ^ 32 less, in 64 bits.
  pub parse_directory_entries-put_groups :
      (gs : List Group)
      → GroupsFit gs
      → parse_directory_entries malloc (put_groups gs) ≡ ok (dirents gs)
  unfolding parse_directory_entries
  parse_directory_entries-put_groups gs f =
      let raw = put_groups gs in
      let empty : Collected = record { entries = []; capacity = 0 } in
      let (k, all) = parse_headers-put_groups (length raw) gs empty (length-put_groups gs) f in
      rw all
