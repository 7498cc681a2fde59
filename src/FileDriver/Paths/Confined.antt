-- ===== src/FileDriver/Paths/Confined.antt =====
-- Where the paths of requests lead (`strs_to_path` of yeetbox-server/src/storage/file.rs).
use yeetbox.Common.{
  ◌≡◌, refl, ap, true, false, List, [], ◌∷◌, ◌++◌, Bytes, bytes_eq, bytes_eq_iff, arith, Bool-cases,
  inl, inr,
}
use mathlib.Core.List.{append_assoc, append-nil}
use yeetbox.Status.{ok}
use yeetbox.Authn.{from_utf8}
use yeetbox.FileDriver.Paths.{
  FilePath, root_dir, cur_dir, has_slash, is_absolute, split_slash, parts_of, is_kept, kept,
  components, join, push, strs_onto, strs_to_path, target_path,
}

split_slash-no_slash : (s : Bytes) → has_slash s ≡ false → split_slash s ≡ (s, [])
split_slash-no_slash [] h = refl
split_slash-no_slash (c ∷ s) h = ground (arith, split_slash-no_slash s)

-- UTF-8 without a slash: what one string of a request should be.
abbrev pub IsPart : Bytes → Type 0
IsPart s = (from_utf8 s ≡ true) × (has_slash s ≡ false)

abbrev pub AllParts : List Bytes → Type 0
AllParts [] = Unit
AllParts (s ∷ strs) = IsPart s × AllParts strs

abbrev pub AllUtf8 : List Bytes → Type 0
AllUtf8 [] = Unit
AllUtf8 (s ∷ strs) = (from_utf8 s ≡ true) × AllUtf8 strs

is_absolute-no_slash : (s : Bytes) → has_slash s ≡ false → is_absolute s ≡ false
is_absolute-no_slash [] h = refl
is_absolute-no_slash (c ∷ s) h = ground arith

is_root-no_slash : (s : Bytes) → has_slash s ≡ false → bytes_eq s root_dir ≡ false
is_root-no_slash [] h = refl
is_root-no_slash (c ∷ s) h = ground arith

-- A part is added to a path that is not empty if it is kept.
pub push-part :
    (c : Bytes) (path : FilePath) (s : Bytes)
    → has_slash s ≡ false
    → push (c ∷ path) s ≡ (c ∷ path) ++ kept (s ∷ [])
unfolding push components join
push-part c path s h = elim (Bool-cases (bytes_eq s cur_dir)) [
  | inl cur ↦ rw ((bytes_eq_iff s cur_dir).0 cur) refl
  | inr other ↦ elim (Bool-cases (bytes_eq s [])) [
    | inl nil ↦ rw ((bytes_eq_iff s []).0 nil) refl
    | inr full ↦
        rw (is_absolute-no_slash s h, split_slash-no_slash s h, other, full, is_root-no_slash s h)
          (rw (other) refl)
  ]
]

append_kept :
    (path : FilePath) (s : Bytes) (strs : List Bytes)
    → (path ++ kept (s ∷ [])) ++ kept strs ≡ path ++ kept (s ∷ strs)
append_kept path s strs = elim (Bool-cases (is_kept s)) [
  | inl e ↦ rw e (append_assoc path (s ∷ []) (kept strs))
  | inr e ↦ rw (e, append-nil) refl
]

strs_onto-parts :
    (c : Bytes) (path : FilePath) (strs : List Bytes)
    → AllParts strs
    → strs_onto (c ∷ path) strs ≡ ok ((c ∷ path) ++ kept strs)
unfolding strs_onto
strs_onto-parts c path [] h = rw append-nil refl
strs_onto-parts c path (s ∷ strs) h =
    rw (h.0.0, push-part c path s h.0.1, strs_onto-parts c (path ++ kept (s ∷ [])) strs h.1)
      (ap ok (append_kept (c ∷ path) s strs))

-- Below a base that is not empty, strings that are UTF-8 without a slash lead to the base followed
-- by those of them that are neither empty nor `.`, in their order.
pub target_path-parts :
    (b : Bytes) (base : FilePath) (strs : List Bytes)
    → AllParts strs
    → target_path (b ∷ base) strs ≡ ok ((b ∷ base) ++ kept strs)
unfolding target_path strs_to_path strs_onto push components join
target_path-parts b base [] h = refl
target_path-parts b base (s ∷ strs) h = elim (Bool-cases (bytes_eq s cur_dir)) [
  | inl cur ↦
      rw (h.0.0, (bytes_eq_iff s cur_dir).0 cur) (rw (strs_onto-parts cur_dir [] strs h.1) refl)
  | inr other ↦ elim (Bool-cases (bytes_eq s [])) [
    | inl nil ↦ rw (h.0.0, (bytes_eq_iff s []).0 nil) (target_path-parts b base strs h.1)
    | inr full ↦
        rw (h.0.0, is_absolute-no_slash s h.0.1, split_slash-no_slash s h.0.1, other, full)
          (rw (strs_onto-parts s [] strs h.1, is_root-no_slash s h.0.1, other) refl)
  ]
]

-- `push` of an absolute path, whatever there was.
push-absolute :
    (path : FilePath) (s : Bytes)
    → is_absolute s ≡ true
    → push path s ≡ root_dir ∷ kept (parts_of (split_slash s))
unfolding push components join
push-absolute [] s h = rw h refl
push-absolute (c ∷ path) s h = rw h refl

strs_onto-absolute :
    (path : FilePath) (before after : List Bytes) (s : Bytes)
    → AllUtf8 before
    → from_utf8 s ≡ true
    → is_absolute s ≡ true
    → AllParts after
    → strs_onto path (before ++ (s ∷ after))
      ≡ ok ((root_dir ∷ kept (parts_of (split_slash s))) ++ kept after)
unfolding strs_onto
strs_onto-absolute path [] after s h1 h2 h3 h4 =
    rw (h2, push-absolute path s h3) (strs_onto-parts root_dir _ after h4)
strs_onto-absolute path (t ∷ before) after s h1 h2 h3 h4 =
    rw (h1.0) (strs_onto-absolute (push path t) before after s h1.1 h2 h3 h4)

-- A string of the request that is UTF-8 and begins with a slash leads out of the base, if those
-- before it are UTF-8 and those after it UTF-8 without a slash: what stands before it, the base
-- included, is dropped, and the path is that of this string followed by those after it that are
-- neither empty nor `.`.
pub target_path-absolute :
    (base : FilePath) (before after : List Bytes) (s : Bytes)
    → AllUtf8 before
    → from_utf8 s ≡ true
    → is_absolute s ≡ true
    → AllParts after
    → target_path base (before ++ (s ∷ after)) ≡ ok (components s ++ kept after)
unfolding target_path strs_to_path join components
target_path-absolute [] before after s h1 h2 h3 h4 =
    rw (strs_onto-absolute [] before after s h1 h2 h3 h4, h3) refl
target_path-absolute (b ∷ base) before after s h1 h2 h3 h4 =
    rw (strs_onto-absolute [] before after s h1 h2 h3 h4, h3) refl
