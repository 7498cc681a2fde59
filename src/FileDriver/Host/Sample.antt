-- ===== src/FileDriver/Host/Sample.antt =====
-- A host whose tree of files is an association list, at which the theorems that take a host are
-- evaluated.
use yeetbox.Common.{
  ℕ, ◌+◌, ◌/◌, ◌%◌, ◌≡◌, ◌≢◌, refl, Bool, true, false, Option, none, some, List, [], ◌∷◌, ◌++◌,
  Bytes, bytes_eq, bytes_eq_iff, length, arith, if◌then◌else◌, Option-cases, inl, inr,
}
use yeetbox.Common.Int.{pos}
use yeetbox.Env.{IoResult, done, failed}
use yeetbox.Status.{is_some, none_of_is_some}
use yeetbox.Words.{to_be_bytes, from_be_bytes}
use yeetbox.Env.Sample.{ulid_bytes_length, ulid_bytes_round}
use yeetbox.FileDriver.Paths.{FilePath, has_slash}
use yeetbox.FileDriver.Host.{
  Node, folder, file, link, Metadata, DirEntry, has_name, FileTree, Host, kind_not_found,
}
use yeetbox.FileDriver.Host.Nodes.{Nodes, path_eq, lookup}
use yeetbox.FileDriver.Host.Operations.{
  folder_made, node_made, file_opened, file_written, node_moved, link_target, file_content,
  followed, part_read, unit_if, tree_removed, folder_made_keeps, node_made_keeps, node_made_free,
  node_made_entry, folder_made_child, file_opened_keeps, file_opened_entry, file_written_entry,
  file_written_keeps, node_moved_entry, node_moved_keeps, part_read_part, opened_exists,
  tree_removed_entry,
}

-- The name of a path in the directory.
abbrev child : FilePath → FilePath → Option Bytes
child [] [] = none
child [] (x ∷ []) = some x
child [] (x ∷ y ∷ q) = none
child (a ∷ p) [] = none
child (a ∷ p) (b ∷ q) = if bytes_eq a b then child p q else none

abbrev is_link : Node → Bool
is_link folder = false
is_link (file c) = false
is_link (link t) = true

abbrev size : Node → ℕ
size folder = 0
size (file c) = length c
size (link t) = 0

abbrev metadata_of : Node → Metadata
metadata_of n = record {
  is_symlink = is_link n;
  mode = 0o644;
  uid = 1;
  gid = 2;
  created = failed 95;
  modified = done (pos 1_700_000_000_000_000_000);
  accessed = done (pos 1_700_000_000_000_000_001);
  ctime = pos 1_700_000_000;
  len = size n;
  dev = 0;
  nlink = 1;
  ino = 0;
  blksize = 4096;
  blocks = 1;
}

abbrev named : Node → Option Bytes → List DirEntry → List DirEntry
named n none es = es
named n (some x) es = record { file_name = x; metadata = done (metadata_of n) } ∷ es

abbrev children : FilePath → Nodes → List DirEntry
children p [] = []
children p ((q, n) ∷ d) = named n (child p q) (children p d)

abbrev listed : FilePath → Nodes → Option Node → IoResult (List DirEntry × IoResult (Unit {0}))
listed p d none = failed kind_not_found
listed p d (some folder) = done (children p d, done tt)
listed p d (some (file c)) = failed 20
listed p d (some (link t)) = failed 20

child_path : (p q : FilePath) (x : Bytes) → path_eq q (p ++ (x ∷ [])) ≡ true → child p q ≡ some x
child_path [] [] x h = ground arith
child_path [] (y ∷ []) x h = ground (arith, bytes_eq_iff y x)
child_path [] (y ∷ z ∷ q) x h = ground arith
child_path (a ∷ p) [] x h = ground arith
child_path (a ∷ p) (b ∷ q) x h =
    ground (arith, child_path p q x, bytes_eq_iff a b, bytes_eq_iff b a)

path_child : (p q : FilePath) (x : Bytes) → child p q ≡ some x → path_eq q (p ++ (x ∷ [])) ≡ true
path_child [] [] x h = ground arith
path_child [] (y ∷ []) x h = ground (arith, bytes_eq_iff y x)
path_child [] (y ∷ z ∷ q) x h = ground arith
path_child (a ∷ p) [] x h = ground arith
path_child (a ∷ p) (b ∷ q) x h =
    ground (arith, path_child p q x, bytes_eq_iff a b, bytes_eq_iff b a)

has_name-children :
    (p : FilePath) (d : Nodes) (x : Bytes)
    → has_name x (children p d) ≡ is_some (lookup d (p ++ (x ∷ [])))
has_name-children p [] x = refl
has_name-children p ((q, n) ∷ d) x = elim (Option-cases (child p q)) [
  | inl other ↦ ground (arith, has_name-children p d x, child_path p q x, other)
  | inr (y, found) ↦
      ground (
        arith,
        has_name-children p d x,
        child_path p q x,
        path_child p q x,
        bytes_eq_iff y x,
        found,
      )
]

pub has_name-listed :
    (p : FilePath) (d : Nodes) {es : List DirEntry}
    → listed p d (lookup d p) ≡ done (es, done tt)
    → (x : Bytes)
    → (has_name x es ≡ false → lookup d (p ++ (x ∷ [])) ≡ none)
      × (has_name x es ≡ true → lookup d (p ++ (x ∷ [])) ≢ none)
has_name-listed p d e x = (
  λ no_. ground (arith, has_name-children p d x, none_of_is_some (lookup d (p ++ (x ∷ [])))),
  λ there gone. ground (arith, has_name-children p d x),
)

abbrev pub sample_tree : FileTree
sample_tree = record {
  Disk = Nodes;
  entry = lookup;
  create_dir_all = λ p d. folder_made p d (lookup d p);
  create_dir = λ p d. node_made p folder d (lookup d p);
  open_append = λ p d. file_opened p d (lookup d p);
  write = λ p bs d. file_written p bs d (lookup d p);
  rename = λ p q d. node_moved p q d (lookup d p);
  symlink = λ t p d. node_made p (link t) d (lookup d p);
  read_link = λ p d. link_target (lookup d p);
  try_exists = λ p d. done (is_some (followed d (lookup d p)));
  stat = λ p d. unit_if (followed d (lookup d p));
  open_read = λ p d. unit_if (file_content (followed d (lookup d p)));
  read = λ p offset n d. part_read offset n (file_content (followed d (lookup d p)));
  remove_dir_all = λ p d. tree_removed p d (lookup d p);
  read_dir = λ p d. listed p d (lookup d p);
  create_dir_all_keeps = folder_made_keeps;
  create_dir_keeps = λ p d e. node_made_keeps p folder d e;
  open_append_keeps = file_opened_keeps;
  write_keeps = file_written_keeps;
  child-create_dir_all = λ p d e up x name. folder_made_child p d e x;
  entry-open_append = file_opened_entry;
  entry-write = file_written_entry;
  entry-rename = node_moved_entry;
  rename_keeps = λ p q x d e there r y name other. node_moved_keeps p q x d e there r y other;
  symlink_free = λ t p d e. node_made_free p (link t) d e;
  entry-symlink = λ t p d e. node_made_entry p (link t) d e;
  symlink_keeps = λ t p d e. node_made_keeps p (link t) d e;
  read_link_part = λ p t offset n d e h1 rooted h2. part_read_part p t offset n d e h1 h2;
  open_read_exists = opened_exists;
  entry-remove_dir_all = tree_removed_entry;
  has_name-read_dir = λ p d e x name. has_name-listed p d e x;
}

-- Two characters for each byte, of which none is a slash.
abbrev text_of : Bytes → Bytes
text_of [] = []
text_of (b ∷ bs) = (48 + b / 16) ∷ (48 + b % 16) ∷ text_of bs

text_of-no_slash : (bs : Bytes) → has_slash (text_of bs) ≡ false
text_of-no_slash [] = refl
text_of-no_slash (b ∷ bs) = ground (arith, text_of-no_slash bs)

pub ulid_no_slash : (u : ℕ) → has_slash (text_of (to_be_bytes 16 u)) ≡ false
ulid_no_slash u = text_of-no_slash (to_be_bytes 16 u)

instance abbrev pub sample_host : Host
sample_host = record {
  tree = sample_tree;
  ulid_text = λ u. text_of (to_be_bytes 16 u);
  ulid_to_bytes = to_be_bytes 16;
  ulid_from_bytes = from_be_bytes;
  new_ulid = λ tick. tick + 1000;
  ulid_text-no_slash = ulid_no_slash;
  ulid_to_bytes_length = ulid_bytes_length;
  ulid_from_bytes-to_bytes = ulid_bytes_round;
}
