-- ===== src/Tests/Shared.antt =====
-- Reads of the files of Tests.Read and Tests.Fragment through the cache of src/core/cache.c, empty at first,
-- with room for two entries.
use squashfs_fuse.Cache.Calls.Ownership.{holding}
use squashfs_fuse.Cache.Heap.{Cell, load-nonnull, nonnull-test}
use squashfs_fuse.Cache.Nodes.{nodes, first_or}
use squashfs_fuse.Cache.Usage.{Seg}
use squashfs_fuse.Cache.{Ptr, null, Heap, Cache, load}
use squashfs_fuse.Common.{
  ℕ, zero, suc, ◌+◌, ◌<◌, true, false, none, some, List, [], ◌∷◌, ◌++◌, ◌≡◌, refl, ap, ◌∙◌, arith,
  length, slice, ◌==◌,
}
use squashfs_fuse.Data.Read.{data_read, read_loop}
use squashfs_fuse.Data.{
  file_ctx_init, calculate_block_layout, file_block_location, add_sizes, data_read_block,
}
use squashfs_fuse.Directory.Table.Chain.{contents}
use squashfs_fuse.Fragment.{
  read_block, location, get_entry, entry_at, fragment_size, fragment_is_uncompressed,
}
use squashfs_fuse.Inode.{is_file}
use squashfs_fuse.Metadata.{read_block_from_disk}
use squashfs_fuse.Result.{ok}
use squashfs_fuse.Shared.Coherent.{IsCoherent, IsFresh}
use squashfs_fuse.Shared.Reads
use squashfs_fuse.Shared.Reads.{shared_ops, with_tail}
use squashfs_fuse.Shared.{Store}
use squashfs_fuse.Tests.Cache
use squashfs_fuse.Tests.Fragment
use squashfs_fuse.Tests.Load.{memory}
use squashfs_fuse.Tests.Metadata.{platform}
use squashfs_fuse.Tests.Read
use squashfs_fuse.Tests.Read.{held_at}
use squashfs_fuse.Utils.Pread.{read_image}
use squashfs_fuse.Utils.{block_size, block_is_uncompressed, le32_to_cpu, le64_to_cpu}

-- An address above those of all objects of the cache.
abbrev sum_of : ℕ → Heap → Ptr → ℕ
sum_of zero h a = 0
sum_of (suc fuel) h a = elim (a == null) [
  | true ↦ 0
  | false ↦ elim (load h a) [ none ↦ 0 | some e ↦ e.value + sum_of fuel h e.next ]
]

abbrev object : Cache → Ptr
object c = 1 + sum_of (c.current_entries + 1) c.heap c.head

abbrev values : List Cell → ℕ
values [] = 0
values (x ∷ xs) = x.value + values xs

sum_of-values :
    (fuel : ℕ) (h : Heap) (prev : Ptr) (xs : List Cell)
    → Seg h prev xs null
    → length xs < fuel
    → sum_of fuel h (first_or null (nodes xs)) ≡ values xs
sum_of-values zero h prev xs linked enough = absurd (omega arith)
sum_of-values (suc fuel) h prev [] linked enough = refl
sum_of-values (suc fuel) h prev (x ∷ xs) (at, linked) enough =
    let (e, there, (key, value, size, before, next)) = at in
    let known = nonnull-test x.addr (load-nonnull h x.addr there) in
    rw (sum_of, known, there, value, next)
      (ap (λ n. x.value + n) (sum_of-values fuel h x.addr xs linked (omega arith)))

holding-above : (v : Ptr) (xs : List Cell) → values xs < v → holding v xs ≡ 0
holding-above v [] above = refl
holding-above v (x ∷ xs) above =
    let other : (x.value == v) ≡ false = ground (arith, above) in
    let rest = holding-above v xs (omega arith) in rw other (omega (arith, rest))

object-IsFresh : IsFresh object
object-IsFresh c xs rep =
    let sum : sum_of (c.current_entries + 1) c.heap c.head ≡ values xs =
      ap (sum_of (c.current_entries + 1) c.heap) rep.used.head
      ∙ sum_of-values (c.current_entries + 1) c.heap null xs rep.used.linked
          (omega (arith, rep.entries)) in
    (λ e. omega (arith, e), holding-above (object c) xs (omega arith))

abbrev start : Store
start = record { cache = Cache.empty; text = λ a. [] }

start-IsCoherent : IsCoherent held_at start
start-IsCoherent = record { cells = []; cache = Cache.empty-IsCache; all_true = tt }

data_read-blocks_example :
    (t : Store) × (data_read
        (platform Read.image)
        (shared_ops
          (platform Read.image)
          Cache.platform
          object
          Cache.malloc-IsSound
          object-IsFresh
          Read.sb
          none
          Read.ctx
          held_at)
        Read.sb
        20
        Read.inode
        2
        6
        start
        (9 ∷ 9 ∷ 9 ∷ 9 ∷ [])
      ≡ some (t, ok (slice (contents Read.blocks) 2 6)))
    × IsCoherent held_at t
data_read-blocks_example =
    Reads.data_read-blocks (platform Read.image) Cache.platform object Cache.malloc-IsSound
      object-IsFresh Read.sb none Read.ctx held_at Read.blocks
      (refl, (refl, (omega arith, omega arith))) (omega arith) Read.each Read.inode 20 2 6 start
      (9 ∷ 9 ∷ 9 ∷ 9 ∷ []) (memory Read.image) refl (unfold is_file in refl)
      (unfold file_ctx_init calculate_block_layout is_file in refl) (omega arith) refl (omega arith)
      (omega arith) start-IsCoherent

data_read-tail_example :
    (t : Store) × (data_read
        (platform Fragment.image)
        (shared_ops
          (platform Fragment.image)
          Cache.platform
          object
          Cache.malloc-IsSound
          object-IsFresh
          Fragment.sb
          (some Fragment.table)
          Fragment.ctx
          held_at)
        Fragment.sb
        20
        Fragment.inode
        2
        9
        start
        []
      ≡ some (t, ok (slice (contents Fragment.blocks ++ slice (held_at 0) 0 1) 2 9)))
    × IsCoherent held_at t
data_read-tail_example =
    Reads.data_read-tail (platform Fragment.image) Cache.platform object Cache.malloc-IsSound
      object-IsFresh Fragment.sb (some Fragment.table) Fragment.ctx held_at Fragment.blocks
      (refl, tt) Fragment.each 1 Fragment.inode 20 2 9 start [] (memory Fragment.image) refl
      (unfold read_block location get_entry entry_at le64_to_cpu le32_to_cpu fragment_size
          fragment_is_uncompressed read_image in
        refl)
      (omega arith) (omega arith) refl (omega arith) refl (omega arith) (unfold is_file in refl)
      (unfold file_ctx_init calculate_block_layout is_file in refl) (omega arith) refl (omega arith)
      (omega arith) start-IsCoherent

read_loop-stuck_example :
    read_loop
      (platform Read.image)
      (shared_ops
        (platform Read.image)
        Cache.platform
        object
        Cache.malloc-IsSound
        object-IsFresh
        Read.sb
        none
        Read.ctx
        held_at)
      Read.ctx
      50
      9
      2
      start
      []
      []
    ≡ none
read_loop-stuck_example =
    Reads.read_loop-stuck (platform Read.image) Cache.platform object Cache.malloc-IsSound
      object-IsFresh Read.sb none Read.ctx held_at 50 9 2 start [] [] 5 1 false start-IsCoherent
      refl (omega arith)
      (unfold file_block_location add_sizes block_size block_is_uncompressed in refl) (omega arith)
      (unfold data_read_block read_block_from_disk read_image block_size block_is_uncompressed in
        refl)
      refl
