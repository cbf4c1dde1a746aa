-- ===== src/Directory/Listing.antt =====
-- src/core/directory.h, the layout of a listing, as a writer of images would fill it.
use squashfs_fuse.Common.{
  ℕ, ◌+◌, ◌-◌, ◌*◌, ◌%◌, ◌^◌, ◌≤◌, ◌<◌, List, [], ◌∷◌, ◌++◌, length, map, ltb, if◌then◌else◌,
}
use squashfs_fuse.Directory.{Dirent}
use squashfs_fuse.Inode.{InodeType, value}
use squashfs_fuse.Utils.Endian.{put_le16, put_le32}
use squashfs_fuse.Utils.{Bytes}

-- A file or directory of a listing: its inode's number and place, its type and name.
pub record Item : Type 0 where
  pub offset : ℕ
  pub number : ℕ
  pub type : InodeType
  pub name : Bytes

-- The items that share a header: the metadata block of their inodes, and the number that the
-- numbers of their inodes are stored against.
pub record Group : Type 0 where
  pub start : ℕ
  pub base : ℕ
  pub first : Item
  pub others : List Item

abbrev pub items : Group → List Item
items g = g.first ∷ g.others

abbrev pub put_item : ℕ → Item → Bytes → Bytes
put_item base e rest = put_le16 e.offset (
    put_le16 ((e.number + 2 ^ 16 - base) % 2 ^ 16)
      (put_le16 (value e.type) (put_le16 (length e.name - 1) (e.name ++ rest))))

abbrev pub put_items : ℕ → List Item → Bytes → Bytes
put_items base [] rest = rest
put_items base (e ∷ es) rest = put_item base e (put_items base es rest)

abbrev pub put_group : Group → Bytes → Bytes
put_group g rest =
    put_le32 (length g.others)
      (put_le32 g.start (put_le32 g.base (put_items g.base (items g) rest)))

abbrev pub put_groups : List Group → Bytes
put_groups [] = []
put_groups (g ∷ gs) = put_group g (put_groups gs)

-- A name has 1 to 65535 bytes, a number is within 2 ^ 15 of the header's.
pub record ItemFits (base : ℕ) (e : Item) : Type 0 where
  pub offset : e.offset < 2 ^ 16
  pub above : base ≤ e.number + 2 ^ 15
  pub below : e.number < base + 2 ^ 15
  pub basic : value e.type ≤ 7
  pub named : 0 < length e.name
  pub short : length e.name < 2 ^ 16

abbrev pub ItemsFit : ℕ → List Item → Type 0
ItemsFit base [] = Unit
ItemsFit base (e ∷ es) = ItemFits base e × ItemsFit base es

pub record GroupFits (g : Group) : Type 0 where
  pub start : g.start < 2 ^ 32
  pub base : g.base < 2 ^ 32
  pub count : length g.others < 2 ^ 32 - 1
  pub listed : ItemsFit g.base (items g)

abbrev pub GroupsFit : List Group → Type 0
GroupsFit [] = Unit
GroupsFit (g ∷ gs) = GroupFits g × GroupsFit gs

-- The number that an item's inode is given: its own, if the header's is below 2 ^ 31, and else the one
-- that is 2 ^ 32 less in 64 bits, since the header's is taken for a negative number.
abbrev pub number_read : ℕ → ℕ → ℕ
number_read base number =
    if ltb base (2 ^ 31) then number else (number + (2 ^ 64 - 2 ^ 32)) % 2 ^ 64

-- What the program makes of an item.
abbrev pub dirent_of : ℕ → ℕ → Item → Dirent
dirent_of base start e = record {
  name = e.name ++ (0 ∷ []);
  inode_number = number_read base e.number;
  inode_ref = start * 2 ^ 16 + e.offset;
  type = e.type;
}

abbrev pub dirents : List Group → List Dirent
dirents [] = []
dirents (g ∷ gs) = map (dirent_of g.base g.start) (items g) ++ dirents gs
