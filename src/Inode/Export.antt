-- ===== src/Inode/Export.antt =====
-- src/core/inode.c, `sqfs_inode_load`: an inode by its number, through the export table, with the
-- last block of that table kept in static variables.
pub mod Lookup
use squashfs_fuse.Common.{
  ℕ, ◌+◌, ◌-◌, ◌*◌, ◌/◌, ◌%◌, not, ◌&&◌, ◌||◌, Bool, true, false, Option, none, some, length, drop,
  ltb, ◌==◌, if◌then◌else◌,
}
use squashfs_fuse.Inode.Load.{get_by_ref, overlay}
use squashfs_fuse.Inode.{Inode}
use squashfs_fuse.Metadata.{meta_block_size, meta_read_block}
use squashfs_fuse.Platform.{Platform}
use squashfs_fuse.Result.{Result, ok, err, fault, not_found, no_memory}
use squashfs_fuse.Superblock.{Superblock, invalid_offset, table_valid}
use squashfs_fuse.Utils.{Bytes, u64, le64_to_cpu}

-- `export_meta_block`, none for NULL, with its contents; `export_meta_size`;
-- `export_meta_block_addr`.
pub record ExportCache : Type 0 where
  pub block : Option Bytes
  pub size : ℕ
  pub addr : ℕ

-- `fresh` is what stands in a new block of memory, `spoiled` what a read that fails leaves in the
-- block; `stale` is as in `get_by_ref`.
module _ (p : Platform) (sb : Superblock) (fresh spoiled stale : Bytes) where
  -- `sqfs_meta_read_block` into the block.
  unfoldable pub fill : ExportCache → Bytes → ℕ → ExportCache × Result (Unit {0})
  fill c contents addr = elim (meta_read_block p addr) [
    | ok bytes ↦
        (record { block = some (overlay bytes contents); size = length bytes; addr = addr }, ok tt)
    | err e ↦ (record c { block = some spoiled }, err e)
    | fault ↦ (c, fault)
  ]

  unfoldable pub fetch : ExportCache → ℕ → ExportCache × Result (Unit {0})
  unfolding fill
  fetch c addr = elim c.block [
    | none ↦ elim (p.malloc meta_block_size) [
      | none ↦ (c, err no_memory)
      | some _ ↦ fill c fresh addr
    ]
    | some contents ↦ if c.addr == addr then (c, ok tt) else fill c contents addr
  ]

  -- The reference at `index_in_block`, and the inode behind it.
  unfoldable pub follow : ExportCache → ℕ → Result Inode
  follow c index_in_block =
      let offset = index_in_block * 8 in
      if ltb c.size (offset + 8) then err not_found else elim c.block [
        | none ↦ fault
        | some contents ↦ get_by_ref p sb (le64_to_cpu (drop offset contents)) stale
      ]

  unfoldable pub load : ExportCache → ℕ → ExportCache × Result Inode
  unfolding fetch follow
  load c inode_num =
      if inode_num == 0
      then (c, err not_found)
      else if not sb.has_export || (sb.disk.export_table == invalid_offset)
      then (c, err not_found)
      else elim (p.pread_all 8 (u64 (sb.disk.export_table + (inode_num - 1) / 1024 * 8))) [
        | err e ↦ (c, err e)
        | fault ↦ (c, fault)
        | ok raw ↦
            let addr = le64_to_cpu raw in
            if (addr == invalid_offset) || (addr == 0)
            then (c, err not_found)
            else (let found = fetch c addr in
                elim found.1 [
                  | err e ↦ (found.0, err e)
                  | fault ↦ (found.0, fault)
                  | ok _ ↦ (found.0, follow found.0 ((inode_num - 1) % 1024))
                ])
      ]
