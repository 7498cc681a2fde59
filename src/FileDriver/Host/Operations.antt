-- ===== src/FileDriver/Host/Operations.antt =====
-- The operations of the sample of a tree of files, and that they keep the laws. The parents of a
-- directory are not made with it, and a link is followed once.
use yeetbox.Common.{
  ℕ, ◌≤◌, ◌≡◌, ◌≢◌, false, Option, none, some, [], ◌∷◌, ◌++◌, Bytes, bytes_eq, length, length-take,
  take, drop, arith, Option-cases, inl, inr,
}
use yeetbox.Env.{IoResult, done, failed}
use yeetbox.Env.Sample.{take-length, take-length_take}
use yeetbox.FileDriver.Paths.{FilePath}
use yeetbox.FileDriver.Host.{
  Node, folder, file, link, appendable, kind_not_found, kind_already_exists,
}
use yeetbox.FileDriver.Host.Nodes.{
  Nodes, path_eq_iff, lookup, without, without_below, put, lookup-without, lookup-put,
  starts-append, lookup-without_below, path_eq-snoc, path_eq-child,
}

-- What the operations give, by the node that they find.
abbrev pub folder_made : FilePath → Nodes → Option Node → IoResult Nodes
folder_made p d none = done (put p folder d)
folder_made p d (some folder) = done d
folder_made p d (some (file c)) = failed kind_already_exists
folder_made p d (some (link t)) = failed kind_already_exists

abbrev pub node_made : FilePath → Node → Nodes → Option Node → IoResult Nodes
node_made p n d none = done (put p n d)
node_made p n d (some m) = failed kind_already_exists

abbrev pub file_opened : FilePath → Nodes → Option Node → IoResult Nodes
file_opened p d none = done (put p (file []) d)
file_opened p d (some folder) = failed 21
file_opened p d (some (file c)) = done d
file_opened p d (some (link t)) = failed 40

abbrev pub file_written : FilePath → Bytes → Nodes → Option Node → IoResult (Nodes × ℕ)
file_written p bs d none = failed kind_not_found
file_written p bs d (some folder) = failed 21
file_written p bs d (some (file c)) = done (put p (file (c ++ bs)) d, length bs)
file_written p bs d (some (link t)) = failed 40

abbrev pub node_moved : FilePath → FilePath → Nodes → Option Node → IoResult Nodes
node_moved p q d none = failed kind_not_found
node_moved p q d (some n) = done (put q n (without p d))

abbrev pub link_target : Option Node → IoResult FilePath
link_target none = failed kind_not_found
link_target (some folder) = failed 22
link_target (some (file c)) = failed 22
link_target (some (link t)) = done t

abbrev pub file_content : Option Node → Option Bytes
file_content none = none
file_content (some folder) = none
file_content (some (file c)) = some c
file_content (some (link t)) = none

abbrev pub followed : Nodes → Option Node → Option Node
followed d none = none
followed d (some folder) = some folder
followed d (some (file c)) = some (file c)
followed d (some (link t)) = lookup d t

abbrev pub part_read : ℕ → ℕ → Option Bytes → IoResult Bytes
part_read offset n none = failed kind_not_found
part_read offset n (some c) = done (take n (drop offset c))

abbrev pub unit_if : {A : Type 0} → Option A → IoResult (Unit {0})
unit_if none = failed kind_not_found
unit_if (some a) = done tt

abbrev pub tree_removed : FilePath → Nodes → Option Node → IoResult Nodes
tree_removed p d none = failed kind_not_found
tree_removed p d (some n) = done (without_below p d)

pub folder_made_keeps :
    (p : FilePath) (d : Nodes) {d' : Nodes}
    → folder_made p d (lookup d p) ≡ done d'
    → (q : FilePath) {n : Node} → lookup d q ≡ some n
    → lookup d' q ≡ some n
folder_made_keeps p d e q h = ground (arith, lookup-put p folder d q, path_eq_iff p q)

pub node_made_keeps :
    (p : FilePath) (m : Node) (d : Nodes) {d' : Nodes}
    → node_made p m d (lookup d p) ≡ done d'
    → (q : FilePath) {n : Node} → lookup d q ≡ some n
    → lookup d' q ≡ some n
node_made_keeps p m d e q h = ground (arith, lookup-put p m d q, path_eq_iff p q)

pub node_made_free :
    (p : FilePath) (m : Node) (d : Nodes) {d' : Nodes}
    → node_made p m d (lookup d p) ≡ done d'
    → lookup d p ≡ none
node_made_free p m d e = ground arith

pub node_made_entry :
    (p : FilePath) (m : Node) (d : Nodes) {d' : Nodes}
    → node_made p m d (lookup d p) ≡ done d'
    → lookup d' p ≡ some m
node_made_entry p m d e = ground (arith, lookup-put p m d p, path_eq_iff p p)

pub folder_made_child :
    (p : FilePath) (d : Nodes) {d' : Nodes}
    → folder_made p d (lookup d p) ≡ done d'
    → (x : Bytes) → lookup d' (p ++ (x ∷ [])) ≡ lookup d (p ++ (x ∷ []))
folder_made_child p d e x = ground (arith, lookup-put p folder d (p ++ (x ∷ [])), path_eq-child p x)

pub file_opened_keeps :
    (p : FilePath) (d : Nodes) {d' : Nodes}
    → file_opened p d (lookup d p) ≡ done d'
    → (q : FilePath) {n : Node} → lookup d q ≡ some n
    → lookup d' q ≡ some n
file_opened_keeps p d e q h = ground (arith, lookup-put p (file []) d q, path_eq_iff p q)

pub file_opened_entry :
    (p : FilePath) (d : Nodes) {d' : Nodes} {old : Bytes}
    → file_opened p d (lookup d p) ≡ done d'
    → appendable (lookup d p) ≡ some old
    → lookup d' p ≡ some (file old)
file_opened_entry p d e h = ground (arith, lookup-put p (file []) d p, path_eq_iff p p)

pub file_written_entry :
    (p : FilePath) (bs : Bytes) (d : Nodes) {d' : Nodes} {k : ℕ} {old : Bytes}
    → file_written p bs d (lookup d p) ≡ done (d', k)
    → lookup d p ≡ some (file old)
    → lookup d' p ≡ some (file (old ++ take k bs))
file_written_entry p bs d {old = old} e h =
    ground (arith, lookup-put p (file (old ++ bs)) d p, path_eq_iff p p, take-length bs)

pub file_written_keeps :
    (p : FilePath) (bs : Bytes) (d : Nodes) {d' : Nodes} {k : ℕ}
    → file_written p bs d (lookup d p) ≡ done (d', k)
    → (q : FilePath) → lookup d q ≢ none
    → lookup d' q ≢ none
file_written_keeps p bs d e q h gone = h (elim (Option-cases (file_content (lookup d p))) [
  | inl other ↦ ground arith
  | inr (c, found) ↦ ground (arith, lookup-put p (file (c ++ bs)) d q, path_eq_iff p q)
])

pub node_moved_entry :
    (p q : FilePath) (d : Nodes) {d' : Nodes} {bs : Bytes}
    → node_moved p q d (lookup d p) ≡ done d'
    → lookup d p ≡ some (file bs)
    → lookup d' q ≡ some (file bs)
node_moved_entry p q d {bs = bs} e h =
    ground (arith, lookup-put q (file bs) (without p d) q, path_eq_iff q q)

pub node_moved_keeps :
    (p q : FilePath) (x : Bytes) (d : Nodes) {d' : Nodes} {bs : Bytes}
    → node_moved (p ++ (x ∷ [])) q d (lookup d (p ++ (x ∷ []))) ≡ done d'
    → lookup d (p ++ (x ∷ [])) ≡ some (file bs)
    → (r : FilePath) (y : Bytes) → bytes_eq x y ≡ false
    → lookup d (r ++ (y ∷ [])) ≢ none
    → lookup d' (r ++ (y ∷ [])) ≢ none
node_moved_keeps p q x d {bs = bs} e h r y other there gone = there (
    ground (
      arith,
      lookup-put q (file bs) (without (p ++ (x ∷ [])) d) (r ++ (y ∷ [])),
      lookup-without (p ++ (x ∷ [])) d (r ++ (y ∷ [])),
      path_eq-snoc p r x y other,
    ))

pub part_read_part :
    (p t : FilePath) (offset n : ℕ) (d : Nodes) {bs c : Bytes}
    → part_read offset n (file_content (followed d (lookup d p))) ≡ done bs
    → lookup d p ≡ some (link t)
    → lookup d t ≡ some (file c)
    → (length bs ≤ n) × (bs ≡ take (length bs) (drop offset c))
part_read_part p t offset n d {c = c} e h1 h2 =
    ground (arith, length-take n (drop offset c), take-length_take n (drop offset c))

pub opened_exists :
    (p : FilePath) (d : Nodes) {u : Unit {0}}
    → unit_if (file_content (followed d (lookup d p))) ≡ done u
    → lookup d p ≢ none
opened_exists p d e gone = ground arith

pub tree_removed_entry :
    (p : FilePath) (d : Nodes) {d' : Nodes}
    → tree_removed p d (lookup d p) ≡ done d'
    → (rest : FilePath) → lookup d' (p ++ rest) ≡ none
tree_removed_entry p d e rest =
    ground (arith, lookup-without_below p d (p ++ rest), starts-append p rest)
