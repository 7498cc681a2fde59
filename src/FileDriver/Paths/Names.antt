-- ===== src/FileDriver/Paths/Names.antt =====
-- Names below a path (yeetbox-server/src/storage/file.rs): what `push` and `pop` do with them.
use yeetbox.Common.{◌≡◌, refl, ap, ◌∙◌, true, false, [], ◌∷◌, ◌++◌, Bytes, bytes_eq, arith}
use yeetbox.FileDriver.Paths.{
  FilePath, root_dir, has_slash, leads_up, is_kept, is_rooted, push, pop,
}
use yeetbox.FileDriver.Paths.Confined.{push-part}
use yeetbox.FileDriver.Host.{is_name}

-- The path begins with the root.
pub push-name :
    (p : FilePath) (x : Bytes) → is_rooted p ≡ true → is_name x ≡ true → push p x ≡ p ++ (x ∷ [])
push-name [] x h n = absurd (cc h)
push-name (c ∷ p) x h n =
    let no_slash : has_slash x ≡ false = ground arith in
    let is_part : is_kept x ≡ true = ground arith in push-part c p x no_slash ∙ rw is_part refl

is_root-name : (x : Bytes) → is_name x ≡ true → bytes_eq x root_dir ≡ false
is_root-name [] h = refl
is_root-name (c ∷ x) h = ground arith

pub pop-snoc : (p : FilePath) (x : Bytes) → is_name x ≡ true → pop (p ++ (x ∷ [])) ≡ p
unfolding pop
pop-snoc [] x h = rw (is_root-name x h) refl
pop-snoc (c ∷ []) x h = rw (is_root-name x h) refl
pop-snoc (c ∷ d ∷ p) x h = ap (λ q. c ∷ q) (pop-snoc (d ∷ p) x h)

pub is_rooted-append : (p q : FilePath) → is_rooted p ≡ true → is_rooted (p ++ q) ≡ true
is_rooted-append [] q h = absurd (cc h)
is_rooted-append (c ∷ p) q h = h

pub leads_up-name :
    (p : FilePath) (x : Bytes)
    → leads_up p ≡ false
    → is_name x ≡ true
    → leads_up (p ++ (x ∷ [])) ≡ false
leads_up-name [] x h n = ground arith
leads_up-name (c ∷ p) x h n = ground (arith, leads_up-name p x)
