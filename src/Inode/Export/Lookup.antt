-- ===== src/Inode/Export/Lookup.antt =====
-- src/core/inode.c, `sqfs_inode_load`: the kept block changes nothing of what is found, until a read
-- into it fails.
use squashfs_fuse.Common.{
  ℕ, ◌+◌, ◌-◌, ◌*◌, ◌/◌, ◌%◌, ◌≤◌, not, ◌||◌, ◌&&◌, ◌⊎◌, inl, inr, none, some, ◌∷◌, ◌++◌, ◌≡◌, ◌≢◌,
  refl, arith, Bool-cases, Option-cases, length, length-drop, drop, drop-append_short, leb, ◌==◌,
}
use squashfs_fuse.Inode.Export.{ExportCache, fill, fetch, follow, load}
use squashfs_fuse.Inode.Load.{get_by_ref}
use squashfs_fuse.Inode.{Inode}
use squashfs_fuse.Metadata.{meta_block_size, meta_read_block}
use squashfs_fuse.Platform.{Platform}
use squashfs_fuse.Result.{
  Error, Result, ok, err, fault, not_found, ◌>>=◌, ◌>>◌, check, Result-cases,
}
use squashfs_fuse.Superblock.{Superblock, invalid_offset}
use squashfs_fuse.Utils.{Bytes, u64, le32_to_cpu, le64_to_cpu}

-- A field that lies within a list is not changed by what follows.
le64_to_cpu-append : (xs ys : Bytes) → 8 ≤ length xs → le64_to_cpu (xs ++ ys) ≡ le64_to_cpu xs
unfolding le64_to_cpu le32_to_cpu
le64_to_cpu-append (a ∷ b ∷ c ∷ d ∷ e ∷ f ∷ g ∷ h ∷ xs) ys long = refl
le64_to_cpu-append _ ys long = absurd (omega arith)

module _ (p : Platform) (sb : Superblock) where
  -- The table as it stands in the image: the reference of an inode number.
  abbrev pub find : ℕ → Result ℕ
  find inode_num = do
    check (not (inode_num == 0)) not_found
    check (sb.has_export && not (sb.disk.export_table == invalid_offset)) not_found
    raw ← p.pread_all 8 (u64 (sb.disk.export_table + (inode_num - 1) / 1024 * 8))
    let addr = le64_to_cpu raw
    check (not (addr == invalid_offset || addr == 0)) not_found
    bytes ← meta_read_block p addr
    let offset = (inode_num - 1) % 1024 * 8
    check (leb (offset + 8) (length bytes)) not_found
    ok (le64_to_cpu (drop offset bytes))

  -- The kept block is empty, or it holds what the image has at its address.
  abbrev pub IsCoherent : ExportCache → Type 0
  IsCoherent c =
      (c.block ≡ none)
      ⊎ ((bytes : Bytes) × (rest : Bytes) × (c.block ≡ some (bytes ++ rest))
          × (c.size ≡ length bytes)
          × (meta_read_block p c.addr ≡ ok bytes))

  module _ (memory : (size : ℕ) → p.malloc size ≢ none) (fresh spoiled stale : Bytes) where
    follow-there :
        (c : ExportCache) (bytes rest : Bytes) (k : ℕ)
        → c.block ≡ some (bytes ++ rest)
        → c.size ≡ length bytes
        → follow p sb fresh spoiled stale c k
          ≡ check (leb (k * 8 + 8) (length bytes)) not_found
            >> get_by_ref p sb (le64_to_cpu (drop (k * 8) bytes)) stale
    unfolding follow
    follow-there c bytes rest k kept size = elim (Bool-cases (leb (k * 8 + 8) (length bytes))) [
      | inl fits ↦
          let within = drop-append_short (k * 8) bytes rest (ground arith) in
          let long = length-drop (k * 8) bytes in
          let same = le64_to_cpu-append (drop (k * 8) bytes) rest (ground arith) in
          rw (kept, size, within, same) (ground arith)
      | inr out ↦ rw size (ground arith)
    ]

    -- What `fetch` leaves: the block that stands in the image, or its error.
    abbrev IsFetched : ExportCache × Result (Unit {0}) → ℕ → Type 0
    IsFetched r addr =
        ((bytes : Bytes) × (rest : Bytes) × (r.1 ≡ ok tt)
          × (r.0.block ≡ some (bytes ++ rest))
          × (r.0.size ≡ length bytes)
          × (r.0.addr ≡ addr)
          × (meta_read_block p addr ≡ ok bytes))
        ⊎ (((e : Error) × (r.1 ≡ err e) × (meta_read_block p addr ≡ err e))
            ⊎ ((r.1 ≡ fault) × (meta_read_block p addr ≡ fault)))

    fill-IsFetched :
        (c : ExportCache) (contents : Bytes) (addr : ℕ)
        → IsFetched (fill p sb fresh spoiled stale c contents addr) addr
    unfolding fill
    fill-IsFetched c contents addr = elim (Result-cases (meta_read_block p addr)) [
      | inl (bytes, read) ↦ inl (
        bytes,
        drop (length bytes) contents,
        ground arith,
        ground arith,
        ground arith,
        ground arith,
        read,
      )
      | inr (inl (e, failed)) ↦ inr (inl (e, ground arith, failed))
      | inr (inr undefined) ↦ inr (inr (ground arith, undefined))
    ]

    fetch-IsFetched :
        (c : ExportCache) (addr : ℕ)
        → IsCoherent c
        → IsFetched (fetch p sb fresh spoiled stale c addr) addr
    unfolding fetch
    fetch-IsFetched c addr (inl empty) = elim (Option-cases (p.malloc meta_block_size)) [
      | inl refused ↦ absurd (memory meta_block_size refused)
      | inr (address, got) ↦
          let is : fetch p sb fresh spoiled stale c addr
              ≡ fill p sb fresh spoiled stale c fresh addr =
            ground arith in
          rw is (fill-IsFetched c fresh addr)
    ]
    fetch-IsFetched c addr (inr (bytes, rest, kept, size, read)) =
        elim (Bool-cases (c.addr == addr)) [
          | inl same ↦
              let at : c.addr ≡ addr = ground arith in
              let is : fetch p sb fresh spoiled stale c addr ≡ (c, ok tt) = ground arith in
              rw is (inl (bytes, rest, refl, kept, size, at, rw at at read))
          | inr other ↦
              let is : fetch p sb fresh spoiled stale c addr
                  ≡ fill p sb fresh spoiled stale c (bytes ++ rest) addr =
                ground arith in
              rw is (fill-IsFetched c (bytes ++ rest) addr)
        ]

    -- What a call gives, and what it leaves.
    load-both :
        (c : ExportCache) (n : ℕ)
        → IsCoherent c
        → ((load p sb fresh spoiled stale c n).1 ≡ find n >>= λ ref. get_by_ref p sb ref stale)
          × ((i : Inode)
              → (load p sb fresh spoiled stale c n).1 ≡ ok i
              → IsCoherent (load p sb fresh spoiled stale c n).0)
    unfolding load
    load-both c n coherent =
        elim (Result-cases (p.pread_all 8 (u64 (sb.disk.export_table + (n - 1) / 1024 * 8)))) [
          | inr (inr undefined) ↦ ground (arith, undefined)
          | inr (inl (e, failed)) ↦ ground (arith, failed)
          | inl (raw, read) ↦ elim (fetch-IsFetched c (le64_to_cpu raw) coherent) [
            | inl (bytes, rest, good, kept, size, at, block) ↦
                let fetched = (fetch p sb fresh spoiled stale c (le64_to_cpu raw)).0 in
                let followed = follow-there fetched bytes rest ((n - 1) % 1024) kept size in
                (
                  ground (arith, read, good, block, followed),
                  λ i h.
                      let is : (load p sb fresh spoiled stale c n).0 ≡ fetched = ground arith in
                      rw is (inr (bytes, rest, kept, size, rw at (block))),
                )
            | inr (inl (e, failed, why)) ↦ ground (arith, read, failed, why)
            | inr (inr (undefined, why)) ↦ ground (arith, read, undefined, why)
          ]
        ]

    -- While the block that is kept is the image's, and no allocation fails, an inode is found by its
    -- number just as if the table were read each time.
    pub load-find :
        (c : ExportCache) (n : ℕ)
        → IsCoherent c
        → (load p sb fresh spoiled stale c n).1 ≡ find n >>= λ ref. get_by_ref p sb ref stale
    load-find c n coherent = (load-both c n coherent).0

    -- A call that succeeds, where no allocation fails, keeps the kept block as the image has it.
    pub load-IsCoherent :
        (c : ExportCache) (n : ℕ) (i : Inode)
        → IsCoherent c
        → (load p sb fresh spoiled stale c n).1 ≡ ok i
        → IsCoherent (load p sb fresh spoiled stale c n).0
    load-IsCoherent c n i coherent found = (load-both c n coherent).1 i found
