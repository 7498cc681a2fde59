-- ===== src/FileDriver/Host.antt =====
-- What yeetbox-server/src/storage/file.rs calls and does not implement, as a parameter of the
-- model: the tree of files (tokio::fs and the operating system) and ULIDs (crate ulid). The laws
-- are those of a POSIX file system, where no other process works on the tree during a request;
-- every operation may fail.
mod Nodes
mod Operations
pub mod Sample
use yeetbox.Common.{
  ℕ, ◌^◌, ◌<◌, ◌≤◌, ◌≡◌, ◌≢◌, Bool, true, false, not, ◌&&◌, Option, none, some, List, [], ◌∷◌, ◌++◌,
  Bytes, bytes_eq, length, take, drop, if◌then◌else◌,
}
use yeetbox.Common.Int.{ℤ}
use yeetbox.Env.{IoResult, done, failed}
use yeetbox.FileDriver.Paths.{FilePath, parent_dir, is_kept, is_rooted, has_slash, leads_up}

-- The kinds of `std::io::Error` that the driver tells apart, by their number in POSIX.
abbrev pub kind_not_found : ℕ
kind_not_found = 2

abbrev pub kind_already_exists : ℕ
kind_already_exists = 17

-- What `lstat` sees at a path: the last component is not followed if it is a link.
pub data Node : Type 0 where
  folder : Node
  file : Bytes → Node
  link : FilePath → Node

-- `std::fs::Metadata`, as far as the driver reads it. Times are in nanoseconds from the Unix epoch.
pub record Metadata : Type 0 where
  pub is_symlink : Bool
  pub mode : ℕ
  pub uid : ℕ
  pub gid : ℕ
  pub created : IoResult ℤ
  pub modified : IoResult ℤ
  pub accessed : IoResult ℤ
  pub ctime : ℤ
  pub len : ℕ
  pub dev : ℕ
  pub nlink : ℕ
  pub ino : ℕ
  pub blksize : ℕ
  pub blocks : ℕ

pub record DirEntry : Type 0 where
  pub file_name : Bytes
  pub metadata : IoResult Metadata

-- An entry of the directory has the name.
abbrev pub has_name : Bytes → List DirEntry → Bool
has_name x [] = false
has_name x (e ∷ es) = if bytes_eq e.file_name x then true else has_name x es

-- A name in a directory.
abbrev pub is_name : Bytes → Bool
is_name x = is_kept x && not (bytes_eq x parent_dir) && not (has_slash x)

-- What appending to a path finds there, if it may create a regular file.
abbrev pub appendable : Option Node → Option Bytes
appendable none = some []
appendable (some (file bs)) = some bs
appendable (some folder) = none
appendable (some (link p)) = none

pub record FileTree : Type 1 where
  pub Disk : Type 0
  pub entry : Disk → FilePath → Option Node
  pub create_dir_all : FilePath → Disk → IoResult Disk
  pub create_dir : FilePath → Disk → IoResult Disk
  -- `OpenOptions::new().append(true).create(true).open(p)`
  pub open_append : FilePath → Disk → IoResult Disk
  -- `write` may take a part of the data only: it says how many bytes it took.
  pub write : FilePath → Bytes → Disk → IoResult (Disk × ℕ)
  pub rename : FilePath → FilePath → Disk → IoResult Disk
  pub symlink : FilePath → FilePath → Disk → IoResult Disk
  pub read_link : FilePath → Disk → IoResult FilePath
  pub try_exists : FilePath → Disk → IoResult Bool
  -- `fs::metadata`, which follows links; only whether it fails is of interest.
  pub stat : FilePath → Disk → IoResult (Unit {0})
  pub open_read : FilePath → Disk → IoResult (Unit {0})
  pub read : FilePath → ℕ → ℕ → Disk → IoResult Bytes
  pub remove_dir_all : FilePath → Disk → IoResult Disk
  -- The entries that `next_entry` gives, and how they end.
  pub read_dir : FilePath → Disk → IoResult (List DirEntry × IoResult (Unit {0}))
  -- Making something new leaves what there is.
  pub create_dir_all_keeps :
      (p : FilePath) (d : Disk) {d' : Disk}
      → create_dir_all p d ≡ done d'
      → (q : FilePath) {n : Node} → entry d q ≡ some n
      → entry d' q ≡ some n
  pub create_dir_keeps :
      (p : FilePath) (d : Disk) {d' : Disk}
      → create_dir p d ≡ done d'
      → (q : FilePath) {n : Node} → entry d q ≡ some n
      → entry d' q ≡ some n
  pub open_append_keeps :
      (p : FilePath) (d : Disk) {d' : Disk}
      → open_append p d ≡ done d'
      → (q : FilePath) {n : Node} → entry d q ≡ some n
      → entry d' q ≡ some n
  -- Whatever is written, what exists goes on existing.
  pub write_keeps :
      (p : FilePath) (bs : Bytes) (d : Disk) {d' : Disk} {k : ℕ}
      → write p bs d ≡ done (d', k)
      → (q : FilePath) → entry d q ≢ none
      → entry d' q ≢ none
  -- A new directory is empty, and one that was there is as before.
  pub child-create_dir_all :
      (p : FilePath) (d : Disk) {d' : Disk}
      → create_dir_all p d ≡ done d'
      → leads_up p ≡ false
      → (x : Bytes) → is_name x ≡ true
      → entry d' (p ++ (x ∷ [])) ≡ entry d (p ++ (x ∷ []))
  pub entry-open_append :
      (p : FilePath) (d : Disk) {d' : Disk} {old : Bytes}
      → open_append p d ≡ done d'
      → appendable (entry d p) ≡ some old
      → entry d' p ≡ some (file old)
  pub entry-write :
      (p : FilePath) (bs : Bytes) (d : Disk) {d' : Disk} {k : ℕ} {old : Bytes}
      → write p bs d ≡ done (d', k)
      → entry d p ≡ some (file old)
      → entry d' p ≡ some (file (old ++ take k bs))
  pub entry-rename :
      (p q : FilePath) (d : Disk) {d' : Disk} {bs : Bytes}
      → rename p q d ≡ done d'
      → entry d p ≡ some (file bs)
      → entry d' q ≡ some (file bs)
  -- What has another name than the file that is moved goes on existing.
  pub rename_keeps :
      (p q : FilePath) (x : Bytes) (d : Disk) {d' : Disk} {bs : Bytes}
      → rename (p ++ (x ∷ [])) q d ≡ done d'
      → entry d (p ++ (x ∷ [])) ≡ some (file bs)
      → (r : FilePath) (y : Bytes) → is_name y ≡ true
      → bytes_eq x y ≡ false
      → entry d (r ++ (y ∷ [])) ≢ none
      → entry d' (r ++ (y ∷ [])) ≢ none
  -- `symlink` does not replace.
  pub symlink_free :
      (t p : FilePath) (d : Disk) {d' : Disk} → symlink t p d ≡ done d' → entry d p ≡ none
  pub entry-symlink :
      (t p : FilePath) (d : Disk) {d' : Disk} → symlink t p d ≡ done d' → entry d' p ≡ some (link t)
  pub symlink_keeps :
      (t p : FilePath) (d : Disk) {d' : Disk}
      → symlink t p d ≡ done d'
      → (q : FilePath) {n : Node} → entry d q ≡ some n
      → entry d' q ≡ some n
  -- A read through an absolute link to a file gives a part of the file.
  pub read_link_part :
      (p t : FilePath) (offset n : ℕ) (d : Disk) {bs c : Bytes}
      → read p offset n d ≡ done bs
      → entry d p ≡ some (link t)
      → is_rooted t ≡ true
      → entry d t ≡ some (file c)
      → (length bs ≤ n) × (bs ≡ take (length bs) (drop offset c))
  pub open_read_exists :
      (p : FilePath) (d : Disk) {u : Unit {0}} → open_read p d ≡ done u → entry d p ≢ none
  pub entry-remove_dir_all :
      (p : FilePath) (d : Disk) {d' : Disk}
      → remove_dir_all p d ≡ done d'
      → (rest : FilePath) → entry d' (p ++ rest) ≡ none
  pub has_name-read_dir :
      (p : FilePath) (d : Disk) {es : List DirEntry}
      → read_dir p d ≡ done (es, done tt)
      → (x : Bytes) → is_name x ≡ true
      → (has_name x es ≡ false → entry d (p ++ (x ∷ [])) ≡ none)
        × (has_name x es ≡ true → entry d (p ++ (x ∷ [])) ≢ none)

pub record Host : Type 1 where
  pub tree : FileTree
  pub ulid_text : ℕ → Bytes
  pub ulid_to_bytes : ℕ → Bytes
  pub ulid_from_bytes : Bytes → ℕ
  -- `Ulid::new`, by the time of the call.
  pub new_ulid : ℕ → ℕ
  pub ulid_text-no_slash : (u : ℕ) → has_slash (ulid_text u) ≡ false
  pub ulid_to_bytes_length : (u : ℕ) → length (ulid_to_bytes u) ≡ 16
  pub ulid_from_bytes-to_bytes : (u : ℕ) → u < 2 ^ 128 → ulid_from_bytes (ulid_to_bytes u) ≡ u

-- `write` takes all of its data.
pub record WritesWhole (H : Host) : Type 0 where
  pub whole :
      (p : FilePath) (bs : Bytes) (d : H.tree.Disk) {d' : H.tree.Disk} {k : ℕ}
      → H.tree.write p bs d ≡ done (d', k)
      → k ≡ length bs
