-- ===== src/Fragment/Table.antt =====
-- src/core/fragment.c, `sqfs_fragment_table_load` and `sqfs_fragment_get_entry`: the entries that an
-- image lists in metadata blocks, 512 to a block, are found by their numbers.
use squashfs_fuse.Common.{
  ℕ, zero, suc, ◌+◌, ◌-◌, ◌*◌, ◌/◌, ◌^◌, ◌≤◌, ◌<◌, min, true, false, some, none, List, [], ◌∷◌,
  ◌++◌, append_assoc, ◌≡◌, ◌≢◌, refl, sym, ap, ◌∙◌, inl, inr, arith, length, length-append,
  length-drop, Bool-cases, take, drop, replicate, length-replicate, take-append, take-all,
  drop-append, drop-drop, get_elem?, ltb, leb, ◌==◌,
}
use squashfs_fuse.Directory.Table.Chain.{contents}
use squashfs_fuse.Fragment.{
  FragEntry, entries_per_block, entry_size, table_init, entry_at, copy_entries,
  read_fragment_table_index, load_loop, load_fragment_entries, load_entries, table_load, get_entry,
}
use squashfs_fuse.Metadata.Block.{allocate-ok}
use squashfs_fuse.Metadata.{meta_block_size, meta_read_block}
use squashfs_fuse.Platform.{Platform}
use squashfs_fuse.Result.{Result, ok, err, not_found}
use squashfs_fuse.Superblock.{Superblock}
use squashfs_fuse.Utils.Endian.{put_le32, put_le64, le32_to_cpu-put_le32, le64_to_cpu-put_le64}
use squashfs_fuse.Utils.{Bytes, u32, le64_to_cpu}

-- The format of the table.
abbrev pub put_entry : FragEntry → Bytes → Bytes
put_entry e rest = put_le64 e.start (put_le32 e.size (put_le32 e.unused rest))

abbrev pub put_entries : List FragEntry → Bytes → Bytes
put_entries [] rest = rest
put_entries (e ∷ es) rest = put_entry e (put_entries es rest)

abbrev pub EntryFits : FragEntry → Type 0
EntryFits e = (e.start < 2 ^ 64) × (e.size < 2 ^ 32) × (e.unused < 2 ^ 32)

abbrev pub AllFit : List FragEntry → Type 0
AllFit [] = Unit
AllFit (e ∷ es) = EntryFits e × AllFit es

-- What the number of an entry stands for.
abbrev pub find_entry : List FragEntry → ℕ → Result FragEntry
find_entry es idx = elim (get_elem? es idx) [ none ↦ err not_found | some e ↦ ok e ]

entry_at-put_entry : (e : FragEntry) (rest : Bytes) → EntryFits e → entry_at (put_entry e rest) ≡ e
unfolding entry_at
entry_at-put_entry e rest fits =
    let start = le64_to_cpu-put_le64 e.start (put_le32 e.size (put_le32 e.unused rest)) fits.0 in
    let size = le32_to_cpu-put_le32 e.size (put_le32 e.unused rest) fits.1 in
    let unused = le32_to_cpu-put_le32 e.unused rest fits.2 in rw (start, size, unused) refl

-- The elements of the array.
entry_at-drop :
    (es : List FragEntry) (rest : Bytes) (idx : ℕ)
    → AllFit es
    → idx < length es
    → ok (entry_at (drop (idx * entry_size) (put_entries es rest))) ≡ find_entry es idx
entry_at-drop [] rest idx fits within = absurd (omega arith)
entry_at-drop (e ∷ es) rest zero fits within =
    ap ok (entry_at-put_entry e (put_entries es rest) fits.0)
entry_at-drop (e ∷ es) rest (suc idx) fits within =
    let bytes = put_entry e (put_entries es rest) in
    let shift : suc idx * entry_size ≡ entry_size + idx * entry_size = omega arith in
    let behind : drop (idx * entry_size) (put_entries es rest) ≡ drop (suc idx * entry_size) bytes =
      drop-drop entry_size (idx * entry_size) bytes ∙ ap (λ t. drop t bytes) (sym shift) in
    rw (← behind) (entry_at-drop es rest idx fits.1 (omega arith))

find_entry-beyond :
    (es : List FragEntry) (idx : ℕ) → length es ≤ idx → find_entry es idx ≡ err not_found
find_entry-beyond [] idx h = refl
find_entry-beyond (e ∷ es) zero h = absurd (omega arith)
find_entry-beyond (e ∷ es) (suc idx) h = find_entry-beyond es idx (omega arith)

-- The blocks of a table of `count` entries, 512 in each but the last.
abbrev pub Chunks : ℕ → List Bytes → Type 0
Chunks count [] = count ≡ 0
Chunks count (b ∷ bs) =
    (0 < count)
    × (length b ≡ min count entries_per_block * entry_size)
    × Chunks (count - entries_per_block) bs

length-Chunks :
    (count : ℕ) (bs : List Bytes) → Chunks count bs → length bs ≡ (count + 511) / entries_per_block
length-Chunks count [] h = omega arith
length-Chunks count (b ∷ bs) h = omega (arith, length-Chunks (count - entries_per_block) bs h.2)

empty_of_length : (xs : Bytes) → length xs ≡ 0 → xs ≡ []
empty_of_length [] h = refl
empty_of_length (x ∷ xs) h = absurd (omega arith)

copy_entries-append :
    (filled tail part : Bytes) (offset : ℕ)
    → length filled ≡ offset
    → copy_entries (filled ++ tail) offset part ≡ (filled ++ part) ++ drop (length part) tail
unfolding copy_entries
copy_entries-append filled tail part offset h =
    let before : take offset (filled ++ tail) ≡ filled =
      ap (λ t. take t (filled ++ tail)) (sym h) ∙ take-append filled tail in
    let behind : drop (offset + length part) (filled ++ tail) ≡ drop (length part) tail =
      sym (drop-drop offset (length part) (filled ++ tail))
      ∙ ap (drop (length part))
          (ap (λ t. drop t (filled ++ tail)) (sym h) ∙ drop-append filled tail) in
    rw (before, behind) (sym (append_assoc filled part (drop (length part) tail)))

module _ (p : Platform) where
  -- The index lists where the blocks stand.
  abbrev pub Indexed : Bytes → List Bytes → Type 0
  Indexed index [] = Unit
  Indexed index (b ∷ bs) =
      (meta_read_block p (le64_to_cpu index) ≡ ok b) × Indexed (drop 8 index) bs

  load_loop-Chunks :
      (bs : List Bytes) (index : Bytes) (count r : ℕ) (filled tail : Bytes)
      → count < 2 ^ 32
      → length filled ≡ r * entry_size
      → length tail ≡ (count - r) * entry_size
      → Indexed index bs
      → Chunks (count - r) bs
      → load_loop p (length bs) index count r (filled ++ tail) ≡ ok (filled ++ contents bs)
  unfolding load_loop
  load_loop-Chunks [] index count r filled tail small done left indexed chunks =
      ap (λ t. ok (filled ++ t)) (empty_of_length tail (omega arith))
  load_loop-Chunks (b ∷ bs) index count r filled tail small done left indexed chunks =
      let n = min (count - r) entries_per_block in
      let in_block : min (u32 (count + 2 ^ 32 - r)) entries_per_block ≡ n = omega arith in
      let big : leb (n * entry_size) (length b) ≡ true = ground arith in
      let whole : take (n * entry_size) b ≡ b = take-all (n * entry_size) b (omega arith) in
      let copied = copy_entries-append filled tail b (r * entry_size) done in
      let joined = length-append filled b in
      let behind = length-drop (length b) tail in
      let later : count - r - entries_per_block ≡ count - u32 (r + n) = omega arith in
      let rest =
        load_loop-Chunks bs (drop 8 index) count (u32 (r + n)) (filled ++ b) (drop (length b) tail)
          small (omega arith) (omega arith) indexed.1 (rw later at chunks.2) in
      rw (load_loop, indexed.0, in_block, big, whole, copied)
        (rest ∙ ap ok (append_assoc filled b (contents bs)))

  module _ (sb : Superblock) (memory : (size : ℕ) → p.malloc size ≢ none) where
    load_entries-Chunks :
        (count : ℕ) (bs : List Bytes) (index : Bytes)
        → 0 < count
        → count + 511 < 2 ^ 32
        → p.pread_all (length bs * 8) sb.disk.frag_table ≡ ok index
        → Indexed index bs
        → Chunks count bs
        → load_entries p sb count ≡ ok (contents bs)
    unfolding load_entries load_fragment_entries read_fragment_table_index
    load_entries-Chunks count bs index some_there small read indexed chunks =
        let blocks = length-Chunks count bs chunks in
        let (_, array) = allocate-ok p memory (count * entry_size) in
        let (_, list) = allocate-ok p memory (length bs * 8) in
        let (_, buffer) = allocate-ok p memory meta_block_size in
        let filled : (count == 0) ≡ false = ground arith in
        let number : u32 (count + 511) / entries_per_block ≡ length bs = omega arith in
        let positive : ltb 0 (length bs) ≡ true = ground arith in
        let start : count ≡ count - 0 = omega arith in
        let zeros = replicate {A = ℕ} (count * entry_size) 0 in
        let loop =
          load_loop-Chunks bs index count 0 [] zeros (omega arith) refl
            (omega (arith, length-replicate {A = ℕ} (count * entry_size) 0)) indexed
            (rw start at chunks) in
        rw
          (
            load_entries, array, read_fragment_table_index, filled, number, list, read, positive,
            load_fragment_entries, buffer,
          )
          loop

    -- A table of at least one and at most 2 ^ 32 - 512 fragments (above that the code's count of blocks
    -- wraps around) that stands in metadata blocks, 512 entries to each but the last, and whose fields fit
    -- their widths, is loaded; then each entry is found by its number, and no number behind them is found,
    -- if no allocation fails.
    pub table_load-put_entries :
        (es : List FragEntry) (bs : List Bytes) (index : Bytes) (idx : ℕ)
        → sb.has_fragments ≡ true
        → sb.disk.frag_count ≡ length es
        → 0 < length es
        → length es + 511 < 2 ^ 32
        → AllFit es
        → p.pread_all (length bs * 8) sb.disk.frag_table ≡ ok index
        → Indexed index bs
        → Chunks (length es) bs
        → contents bs ≡ put_entries es []
        → ((table_load p sb table_init).1 ≡ ok tt)
          × (get_entry (some (table_load p sb table_init).0) idx ≡ find_entry es idx)
    unfolding table_load get_entry
    table_load-put_entries es bs index idx has count some_there small fits read indexed chunks is =
        let loaded =
          load_entries-Chunks sb.disk.frag_count bs index (omega arith) (omega arith) read indexed
            (rw count chunks) in
        let filled : (sb.disk.frag_count == 0) ≡ false = ground arith in
        elim (Bool-cases (leb sb.disk.frag_count idx)) [
          | inl beyond ↦
              let none_there = find_entry-beyond es idx (ground arith) in
              rw (table_load, loaded, filled, has) (refl, rw (beyond, none_there) refl)
          | inr within ↦
              let there = entry_at-drop es [] idx fits (ground arith) in
              rw (table_load, loaded, filled, has) (refl, rw (within, is) there)
        ]
