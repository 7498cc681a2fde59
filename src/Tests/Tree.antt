-- ===== src/Tests/Tree.antt =====
-- The file driver at a file that is there already, at crowded directories, and at paths.
use yeetbox.Common.{
  ℕ, zero, suc, ◌+◌, ◌≡◌, ◌≢◌, ◌↔◌, refl, Bool, true, false, none, some, List, [], ◌∷◌, ◌++◌, Bytes,
  arith, inl, inr, sym, subst, bytes_eq, Bool-cases, not, ◌&&◌, if◌then◌else◌,
}
use yeetbox.Status.{ok, err, internal}
use yeetbox.Words.{add64}
use yeetbox.Env.{IoResult, done, failed}
use yeetbox.Authn.{from_utf8}
use yeetbox.Storage.State.{codes}
use yeetbox.Storage.Request.{ListArg, DeleteArg}
use yeetbox.FileDriver.Paths.{FilePath, components, push, pop, target_path, kept}
use yeetbox.FileDriver.Paths.Confined.{target_path-parts, target_path-absolute}
use yeetbox.FileDriver.Host.{
  Host, FileTree, Node, folder, file, link, appendable, is_name, kind_already_exists,
}
use yeetbox.FileDriver.Host.Sample.{sample_host, sample_tree}
use yeetbox.FileDriver.Numbers.{pad12}
use yeetbox.FileDriver.State.{FileWorld, ◌>>=◌, change, look, try_look}
use yeetbox.FileDriver.Upload.{upload, publish, next_version, reserve, head_file_name}
use yeetbox.FileDriver.Upload.Received.{IsChosen, blob_path_of}
use yeetbox.FileDriver.Upload.Publish.{head_path_of, first_path}
use yeetbox.FileDriver.Upload.Reserve.{
  next_path, candidate, major_after, AllTaken, reserve-terminates,
}
use yeetbox.FileDriver.Upload.Again.{
  upload-head_taken, next_version-AllTaken, next_version-last_try,
}
use yeetbox.FileDriver.Download.{download}
use yeetbox.FileDriver.Delete.{delete}
use yeetbox.FileDriver.Delete.Effect.{download-delete}
use yeetbox.FileDriver.Entries.{ListEntry, is_reserved, list_entries}
use yeetbox.FileDriver.Listing.{list, succeeded}
use yeetbox.FileDriver.Listing.Effect.{lists, list-shows}
use yeetbox.Tests.Files.{strs, bar_path, piece, download_bar}

reserve-terminates_example :
    reserve ⦃H = sample_host⦄ (1000 + 5) 1 7 bar_path ≡ reserve 1000 1 7 bar_path
reserve-terminates_example = reserve-terminates 5 7 bar_path

target_path-parts_example :
    target_path (codes "/" ∷ codes "tmp" ∷ []) (codes "a" ∷ codes "." ∷ codes "b" ∷ [])
    ≡ ok ((codes "/" ∷ codes "tmp" ∷ []) ++ kept (codes "a" ∷ codes "." ∷ codes "b" ∷ []))
unfolding from_utf8
target_path-parts_example =
    target_path-parts (codes "/") (codes "tmp" ∷ []) (codes "a" ∷ codes "." ∷ codes "b" ∷ [])
      ((refl, refl), ((refl, refl), ((refl, refl), tt)))

target_path-absolute_example :
    target_path (codes "/" ∷ codes "tmp" ∷ []) ((codes "a" ∷ []) ++ (codes "/etc" ∷ codes "x" ∷ []))
    ≡ ok (components (codes "/etc") ++ kept (codes "x" ∷ []))
unfolding from_utf8
target_path-absolute_example =
    target_path-absolute (codes "/" ∷ codes "tmp" ∷ []) (codes "a" ∷ []) (codes "x" ∷ [])
      (codes "/etc") (refl, tt) refl refl ((refl, refl), tt)

-- All the directories that a loop may try are there.
abbrev Disk : Type 0
Disk = sample_tree.Disk

abbrev no_dir : FilePath → Disk → IoResult Disk
no_dir p d = failed kind_already_exists

no_dir_keeps :
    (p : FilePath) (d : Disk) {d' : Disk}
    → no_dir p d ≡ done d'
    → (q : FilePath) {n : Node} → sample_tree.entry d q ≡ some n
    → sample_tree.entry d' q ≡ some n
no_dir_keeps p d e = absurd (cc e)

abbrev crowded_tree : FileTree
crowded_tree = record sample_tree { create_dir = no_dir; create_dir_keeps = no_dir_keeps }

abbrev crowded_host : Host
crowded_host = record sample_host { tree = crowded_tree }

crowded : (n major : ℕ) (path : FilePath) → AllTaken ⦃H = crowded_host⦄ n major path []
unfolding AllTaken
crowded zero major path = tt
crowded (suc n) major path = (refl, crowded n (add64 major 1) (next_path major path))

abbrev crowded_world : FileWorld ⦃H = crowded_host⦄
crowded_world = record { path = bar_path; disk = []; tick = 0 }

next_version-AllTaken_example :
    next_version ⦃H = crowded_host⦄ (codes "b" ∷ []) bar_path 7 crowded_world
    ≡ publish ⦃H = crowded_host⦄
        (codes "b" ∷ [])
        (push (candidate 1000 7 bar_path) (pad12 0))
        bar_path
        crowded_world
next_version-AllTaken_example =
    next_version-AllTaken ⦃H = crowded_host⦄ (codes "b" ∷ []) bar_path 7 crowded_world
      (crowded 1000 7 bar_path)

-- Only the directory of the 999th round can be made.
abbrev ends : Bytes → FilePath → Bool
ends x [] = false
ends x (c ∷ []) = bytes_eq c x
ends x (c ∷ d ∷ p) = ends x (d ∷ p)

abbrev last_dir : FilePath → Disk → IoResult Disk
last_dir p d =
    if ends (codes "000000001006") p then sample_tree.create_dir p d else failed kind_already_exists

last_dir_keeps :
    (p : FilePath) (d : Disk) {d' : Disk}
    → last_dir p d ≡ done d'
    → (q : FilePath) {n : Node} → sample_tree.entry d q ≡ some n
    → sample_tree.entry d' q ≡ some n
last_dir_keeps p d e = elim (Bool-cases (ends (codes "000000001006") p)) [
  | inl is_last ↦ sample_tree.create_dir_keeps p d (rw is_last at e)
  | inr other ↦ absurd (cc (rw other at e))
]

abbrev last_tree : FileTree
last_tree = record sample_tree { create_dir = last_dir; create_dir_keeps = last_dir_keeps }

abbrev last_host : Host
last_host = record sample_host { tree = last_tree }

abbrev last_world : FileWorld ⦃H = last_host⦄
last_world = record { path = bar_path; disk = []; tick = 0 }

all_taken : ℕ → ℕ → FilePath → Bool
all_taken zero major path = true
all_taken (suc n) major path =
    not (ends (codes "000000001006") (next_path major path))
    && all_taken n (add64 major 1) (next_path major path)

all_taken_sound :
    (n major : ℕ) (path : FilePath)
    → all_taken n major path ≡ true
    → AllTaken ⦃H = last_host⦄ n major path []
unfolding all_taken AllTaken
all_taken_sound zero major path h = tt
all_taken_sound (suc n) major path h =
    elim (Bool-cases (ends (codes "000000001006") (next_path major path))) [
      | inl is_last ↦ absurd (cc (rw is_last at h))
      | inr other ↦
          (rw other refl, all_taken_sound n (add64 major 1) (next_path major path) (rw other at h))
    ]

taken_998 : all_taken 998 7 bar_path ≡ true
unfolding all_taken pad12 push pop
taken_998 = refl

made_dir :
    last_tree.create_dir (next_path (major_after 998 7) (candidate 998 7 bar_path)) []
    ≡ done ((next_path (major_after 998 7) (candidate 998 7 bar_path), folder) ∷ [])
unfolding major_after candidate pad12 push pop
made_dir = refl

next_version-last_try_example :
    next_version ⦃H = last_host⦄ (codes "b" ∷ []) bar_path 7 last_world ≡ (
      err (internal "failed to create new version"),
      record last_world {
        disk = (next_path (major_after 998 7) (candidate 998 7 bar_path), folder) ∷ [];
      },
    )
next_version-last_try_example =
    next_version-last_try ⦃H = last_host⦄ (codes "b" ∷ []) bar_path 7 last_world
      ((next_path (major_after 998 7) (candidate 998 7 bar_path), folder) ∷ [])
      (all_taken_sound 998 7 bar_path taken_998) made_dir

-- A tree with the file of three bytes at its place.
abbrev base : FilePath
base = codes "/" ∷ codes "tmp" ∷ codes "yeetbox" ∷ []

abbrev bar_disk : Disk
bar_disk =
    (base, folder)
    ∷ (base ++ (codes "foo" ∷ []), folder)
    ∷ (bar_path, folder)
    ∷ (first_path bar_path, file (7 ∷ 8 ∷ 9 ∷ []))
    ∷ (head_path_of bar_path, link (first_path bar_path))
    ∷ []

abbrev bar_world : FileWorld
bar_world = record { path = base; disk = bar_disk; tick = 1 }

bar_world_path : target_path bar_world.path strs ≡ ok bar_path
unfolding from_utf8 target_path push
bar_world_path = refl

blob_at :
    (ulid : ℕ)
    → ulid ≡ 1001
    → appendable (sample_tree.entry bar_disk (blob_path_of bar_path ulid)) ≢ none
blob_at ulid e =
    subst (λ u. appendable (sample_tree.entry bar_disk (blob_path_of bar_path u)) ≢ none) (sym e)
      (λ h. cc h)

new_blob :
    (ulid : ℕ)
    → IsChosen [] bar_world ulid
    → appendable (sample_tree.entry bar_disk (blob_path_of bar_path ulid)) ≢ none
new_blob ulid (inl (e, new)) = blob_at ulid new
new_blob ulid (inr (n, old)) = absurd (omega arith)

has_head : sample_tree.entry bar_disk (head_path_of bar_path) ≢ none
has_head = λ h. cc h

upload-head_taken_example : upload (piece (5 ∷ []) [] false) bar_world ≢ (ok [], bar_world)
upload-head_taken_example =
    upload-head_taken (piece (5 ∷ []) [] false) bar_world bar_world []
      (record { path = strs; version = none }) bar_path refl bar_world_path refl refl refl new_blob
      has_head

abbrev delete_bar : DeleteArg
delete_bar = record { target = some (record { path = strs; version = none }); shred = false }

abbrev deleted : FileWorld
deleted = (delete delete_bar bar_world).1

deleted_ok : delete delete_bar bar_world ≡ (ok false, deleted)
unfolding from_utf8 delete target_path push ◌>>=◌ change
deleted_ok = refl

download-delete_example :
    download download_bar deleted ≢ (ok (record { contents = []; more = false }), deleted)
download-delete_example =
    download-delete delete_bar download_bar bar_world deleted deleted false
      (record { contents = []; more = false }) (record { path = strs; version = none })
      (record { path = strs; version = none }) (codes "/")
      (codes "tmp" ∷ codes "yeetbox" ∷ codes "foo" ∷ codes "bar" ∷ []) refl refl refl bar_world_path
      deleted_ok

abbrev list_foo : ListArg
list_foo = record {
  target = some (record { path = codes "foo" ∷ []; version = none });
  attrs = false;
  limit = 0;
  skip = 0;
  folders = false;
  thumbnails = false;
}

abbrev listing : List ListEntry
listing = record { relative_name = codes "bar"; attrs = none } ∷ []

abbrev foo_path : FilePath
foo_path = codes "/" ∷ codes "tmp" ∷ codes "yeetbox" ∷ codes "foo" ∷ []

foo_given : target_path bar_world.path (codes "foo" ∷ []) ≡ ok foo_path
unfolding from_utf8 target_path push
foo_given = refl

listed_ok : list list_foo bar_world ≡ (ok listing, bar_world)
unfolding from_utf8 list target_path push pop ◌>>=◌ look try_look list_entries
listed_ok = refl

list-shows_example :
    (succeeded (sample_tree.stat (foo_path ++ (head_file_name ∷ [])) bar_disk) ≡ false)
    × (bar_world ≡ bar_world)
    × ((x : Bytes)
        → is_name x ≡ true
        → (lists x listing ≡ true)
          ↔ ((is_reserved x ≡ false) × (sample_tree.entry bar_disk (foo_path ++ (x ∷ [])) ≢ none)))
list-shows_example =
    list-shows list_foo bar_world bar_world listing
      (record { path = codes "foo" ∷ []; version = none }) foo_path refl foo_given refl listed_ok
