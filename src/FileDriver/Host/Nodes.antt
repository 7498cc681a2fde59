-- ===== src/FileDriver/Host/Nodes.antt =====
-- Association lists from paths to nodes, for the sample of a tree of files.
use yeetbox.Common.{
  ◌≡◌, ◌↔◌, refl, Bool, true, false, ◌&&◌, Option, none, some, List, [], ◌∷◌, ◌++◌, Bytes, bytes_eq,
  bytes_eq_iff, bytes_eq_refl, arith, if◌then◌else◌,
}
use yeetbox.FileDriver.Paths.{FilePath}
use yeetbox.FileDriver.Host.{Node}

abbrev pub path_eq : FilePath → FilePath → Bool
path_eq [] [] = true
path_eq [] (y ∷ q) = false
path_eq (x ∷ p) [] = false
path_eq (x ∷ p) (y ∷ q) = bytes_eq x y && path_eq p q

pub path_eq_iff : (p q : FilePath) → (path_eq p q ≡ true) ↔ (p ≡ q)
path_eq_iff [] [] = ground arith
path_eq_iff [] (y ∷ q) = ground arith
path_eq_iff (x ∷ p) [] = ground arith
path_eq_iff (x ∷ p) (y ∷ q) = ground (arith, bytes_eq_iff x y, path_eq_iff p q)

abbrev pub Nodes : Type 0
Nodes = List (FilePath × Node)

abbrev pub lookup : Nodes → FilePath → Option Node
lookup [] q = none
lookup ((p, n) ∷ d) q = if path_eq p q then some n else lookup d q

abbrev pub without : FilePath → Nodes → Nodes
without q [] = []
without q ((p, n) ∷ d) = let rest = without q d in if path_eq q p then rest else (p, n) ∷ rest

-- The path begins with the other.
abbrev pub starts : FilePath → FilePath → Bool
starts [] q = true
starts (x ∷ p) [] = false
starts (x ∷ p) (y ∷ q) = bytes_eq x y && starts p q

abbrev pub without_below : FilePath → Nodes → Nodes
without_below q [] = []
without_below q ((p, n) ∷ d) =
    let rest = without_below q d in if starts q p then rest else (p, n) ∷ rest

abbrev pub put : FilePath → Node → Nodes → Nodes
put p n d = (p, n) ∷ without p d

pub lookup-without :
    (p : FilePath) (d : Nodes) (q : FilePath)
    → lookup (without p d) q ≡ (if path_eq p q then none else lookup d q)
lookup-without p [] q = ground arith
lookup-without p ((r, n) ∷ d) q =
    ground (arith, lookup-without p d q, path_eq_iff p r, path_eq_iff r q, path_eq_iff p q)

pub lookup-put :
    (p : FilePath) (n : Node) (d : Nodes) (q : FilePath)
    → lookup (put p n d) q ≡ (if path_eq p q then some n else lookup d q)
lookup-put p n d q = ground (arith, lookup-without p d q)

pub starts-append : (p rest : FilePath) → starts p (p ++ rest) ≡ true
starts-append [] rest = refl
starts-append (x ∷ p) rest = rw (bytes_eq_refl x) (starts-append p rest)

pub lookup-without_below :
    (p : FilePath) (d : Nodes) (q : FilePath)
    → starts p q ≡ true
    → lookup (without_below p d) q ≡ none
lookup-without_below p [] q h = refl
lookup-without_below p ((r, n) ∷ d) q h =
    ground (arith, lookup-without_below p d q, path_eq_iff r q)

pub path_eq-snoc :
    (p q : FilePath) (x y : Bytes)
    → bytes_eq x y ≡ false
    → path_eq (p ++ (x ∷ [])) (q ++ (y ∷ [])) ≡ false
path_eq-snoc [] [] x y h = rw h refl
path_eq-snoc [] (b ∷ []) x y h = ground arith
path_eq-snoc [] (b ∷ c ∷ q) x y h = ground arith
path_eq-snoc (a ∷ []) [] x y h = ground arith
path_eq-snoc (a ∷ c ∷ p) [] x y h = ground arith
path_eq-snoc (a ∷ p) (b ∷ q) x y h = ground (arith, path_eq-snoc p q x y h)

pub path_eq-child : (p : FilePath) (x : Bytes) → path_eq p (p ++ (x ∷ [])) ≡ false
path_eq-child [] x = refl
path_eq-child (a ∷ p) x = ground (arith, path_eq-child p x)
