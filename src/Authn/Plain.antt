-- ===== src/Authn/Plain.antt =====
-- Which attempts the authenticator accepts (yeetbox-server/src/authn.rs).
use yeetbox.Common.{
  ℕ, ◌≤◌, ◌≡◌, ◌≢◌, ◌↔◌, ◌⊎◌, inl, inr, refl, sym, ap, subst, ◌∙◌, Bool, true, false, not, some,
  List, [], ◌∷◌, ◌++◌, Bytes, bytes_eq, bytes_eq_iff, bytes_eq_refl, Option-cases, length, ltb,
  ◌==◌, ==_iff, arith, Bool-cases, if◌then◌else◌,
}
use yeetbox.Env.{assoc}
use yeetbox.Authn.{
  AuthenticateArg, SimpleAuth, Attempt, decided, utf8_error, accept, reject, anonymous, plain,
  from_utf8, split, split_at, is_password, acts_for_another, check_plain, check_parts,
  attempt_authn,
}

-- No byte is NUL.
abbrev pub NoNul : Bytes → Type 0
NoNul [] = Unit
NoNul (c ∷ cs) = (c ≢ 0) × NoNul cs

-- The parts with a NUL between them.
abbrev pub join : Bytes × List Bytes → Bytes
join (part, []) = part
join (part, next ∷ parts) = part ++ (0 ∷ join (next, parts))

join-split_at :
    (b : Bool) (c : ℕ) (parts : Bytes × List Bytes)
    → (b ≡ true → c ≡ 0)
    → join (split_at b c parts) ≡ c ∷ join parts
join-split_at true c (part, parts) e = ap (λ x. x ∷ join (part, parts)) (sym (e refl))
join-split_at false c (part, []) e = refl
join-split_at false c (part, next ∷ parts) e = refl

-- What was split is found again by joining it.
join-split : (bs : Bytes) → join (split bs) ≡ bs
join-split [] = refl
join-split (c ∷ cs) =
    join-split_at (c == 0) c (split cs) ((==_iff c 0).0) ∙ ap (λ x. c ∷ x) (join-split cs)

abbrev NoNuls : List Bytes → Type 0
NoNuls [] = Unit
NoNuls (part ∷ parts) = NoNul part × NoNuls parts

split_at-NoNuls :
    (b : Bool) (c : ℕ) (parts : Bytes × List Bytes)
    → (b ≡ false → c ≢ 0)
    → NoNuls (parts.0 ∷ parts.1)
    → NoNuls ((split_at b c parts).0 ∷ (split_at b c parts).1)
split_at-NoNuls true c (part, parts) e h = (tt, h)
split_at-NoNuls false c (part, parts) e (h, hs) = ((e refl, h), hs)

split-NoNuls : (bs : Bytes) → NoNuls ((split bs).0 ∷ (split bs).1)
split-NoNuls [] = (tt, tt)
split-NoNuls (c ∷ cs) = split_at-NoNuls (c == 0) c (split cs) (λ e. ground arith) (split-NoNuls cs)

-- A part without NULs is split off whole.
split-part :
    (part rest : Bytes)
    → NoNul part
    → split (part ++ (0 ∷ rest)) ≡ (part, (split rest).0 ∷ (split rest).1)
split-part [] rest h = refl
split-part (c ∷ cs) rest (h, hs) = rw (not_nul c h, split-part cs rest hs) refl
  where
    not_nul : (c : ℕ) → c ≢ 0 → (c == 0) ≡ false
    not_nul c h = ground arith

not_long : (n : ℕ) → n ≤ 1000 → ltb 1000 n ≡ false
not_long n h = ground arith

split_last : (part : Bytes) → NoNul part → split part ≡ (part, [])
split_last [] h = refl
split_last (c ∷ cs) (h, hs) = rw (not_nul c h, split_last cs hs) refl
  where
    not_nul : (c : ℕ) → c ≢ 0 → (c == 0) ≡ false
    not_nul c h = ground arith

-- What RFC 4616 asks of the message, and the table of the passwords of the name in it.
pub record IsPlainProof (db : List (Bytes × Bytes)) (assertion : Bytes) : Type 0 where
  pub authzid : Bytes
  pub authcid : Bytes
  pub passwd : Bytes
  pub has_parts : assertion ≡ authzid ++ (0 ∷ (authcid ++ (0 ∷ passwd)))
  pub authzid_plain : NoNul authzid
  pub authcid_plain : NoNul authcid
  pub passwd_plain : NoNul passwd
  pub same_identity : (authzid ≡ []) ⊎ (authzid ≡ authcid)
  pub authcid_utf8 : from_utf8 authcid ≡ true
  pub passwd_utf8 : from_utf8 passwd ≡ true
  pub has_password : assoc authcid db ≡ some passwd

abbrev pub IsAccepted : List (Bytes × Bytes) → AuthenticateArg → Type 0
IsAccepted db arg =
    (arg.mechanism ≡ anonymous)
    ⊎ ((arg.mechanism ≡ plain) × (length arg.assertion ≤ 1000) × IsPlainProof db arg.assertion)

same_identity_of : (x y : Bytes) → acts_for_another x y ≡ false → (x ≡ []) ⊎ (x ≡ y)
same_identity_of [] y h = inl refl
same_identity_of (c ∷ x) y h = elim (Bool-cases (bytes_eq (c ∷ x) y)) [
  | inl e ↦ inr ((bytes_eq_iff (c ∷ x) y).0 e)
  | inr e ↦ absurd (ground arith)
]

password_of :
    (db : List (Bytes × Bytes)) (authcid passwd : Bytes)
    → is_password db authcid passwd ≡ true
    → assoc authcid db ≡ some passwd
password_of db authcid passwd h = elim (Option-cases (assoc authcid db)) [
  | inl e ↦ absurd (cc (rw (is_password, e) at h))
  | inr (pw, e) ↦ e ∙ ap some ((bytes_eq_iff pw passwd).0 (rw (is_password, e) at h))
]

is_password-assoc :
    (db : List (Bytes × Bytes)) (authcid passwd : Bytes)
    → assoc authcid db ≡ some passwd
    → is_password db authcid passwd ≡ true
is_password-assoc db authcid passwd e = rw (is_password, e, bytes_eq_refl passwd) refl

-- The chain of tests of `check_plain` accepts in one way only.
accepts_once :
    (a b c d : Bool)
    → (if a
        then decided reject
        else if not b
        then utf8_error
        else if not c
        then utf8_error
        else if d
        then decided accept
        else decided reject)
      ≡ decided accept
    → (a ≡ false) × (b ≡ true) × (c ≡ true) × (d ≡ true)
accepts_once true b c d h = absurd (cc h)
accepts_once false false c d h = absurd (cc h)
accepts_once false true false d h = absurd (cc h)
accepts_once false true true false h = absurd (cc h)
accepts_once false true true true h = (refl, refl, refl, refl)

check_plain_accepts :
    (db : List (Bytes × Bytes)) (x y z : Bytes)
    → check_plain db x y z ≡ decided accept
    → (acts_for_another x y ≡ false)
      × (from_utf8 y ≡ true)
      × (from_utf8 z ≡ true)
      × (is_password db y z ≡ true)
unfolding check_plain
check_plain_accepts db x y z h = accepts_once _ _ _ _ h

check_parts_accepts :
    (db : List (Bytes × Bytes)) (parts : Bytes × List Bytes)
    → NoNuls (parts.0 ∷ parts.1)
    → check_parts db parts ≡ decided accept
    → IsPlainProof db (join parts)
unfolding check_parts
check_parts_accepts db (x, []) n h = absurd (cc h)
check_parts_accepts db (x, y ∷ []) n h = absurd (cc h)
check_parts_accepts db (x, y ∷ z ∷ w ∷ rest) n h = absurd (cc h)
check_parts_accepts db (x, y ∷ z ∷ []) (nx, (ny, (nz, u))) h =
    let (same, uy, uz, pw) = check_plain_accepts db x y z h in
    record {
      authzid = x;
      authcid = y;
      passwd = z;
      has_parts = refl;
      authzid_plain = nx;
      authcid_plain = ny;
      passwd_plain = nz;
      same_identity = same_identity_of x y same;
      authcid_utf8 = uy;
      passwd_utf8 = uz;
      has_password = password_of db y z pw;
    }

acts_for_itself : (x y : Bytes) → (x ≡ []) ⊎ (x ≡ y) → acts_for_another x y ≡ false
acts_for_itself x y (inl e) = rw e refl
acts_for_itself x y (inr e) = rw (e, bytes_eq_refl y) (ground arith)

check_parts-IsPlainProof :
    (db : List (Bytes × Bytes)) (assertion : Bytes)
    → IsPlainProof db assertion
    → check_parts db (split assertion) ≡ decided accept
unfolding check_parts check_plain
check_parts-IsPlainProof db assertion p =
    rw
      (
        p.has_parts,
        split-part p.authzid (p.authcid ++ (0 ∷ p.passwd)) p.authzid_plain,
        split-part p.authcid p.passwd p.authcid_plain,
        split_last p.passwd p.passwd_plain,
        acts_for_itself p.authzid p.authcid p.same_identity,
        p.authcid_utf8,
        p.passwd_utf8,
        is_password-assoc db p.authcid p.passwd p.has_password,
      )
      refl

gates_accept :
    (a b c : Bool) (rest : Attempt)
    → (if a
        then decided accept
        else if not b
        then decided reject
        else if c
        then decided reject
        else rest)
      ≡ decided accept
    → (a ≡ true) ⊎ ((b ≡ true) × (c ≡ false) × (rest ≡ decided accept))
gates_accept true b c rest h = inl refl
gates_accept false false c rest h = absurd (cc h)
gates_accept false true true rest h = absurd (cc h)
gates_accept false true false rest h = inr (refl, refl, h)

module _ {DateTime : Type 0} where
  -- An attempt is accepted exactly if its mechanism is ANONYMOUS, or if it is PLAIN with a message
  -- of at most 1000 bytes that is three parts with single NULs between them, of which the first is
  -- empty or equals the second, the others are UTF-8, and the table holds the third as the password
  -- of the second.
  pub attempt_authn-accept_iff :
      (self : SimpleAuth DateTime) (arg : AuthenticateArg)
      → (attempt_authn self arg ≡ decided accept) ↔ IsAccepted self.db arg
  unfolding attempt_authn
  attempt_authn-accept_iff self arg = (
    (λ h. elim (gates_accept _ _ _ (check_parts self.db (split arg.assertion)) h) [
      | inl e ↦ inl ((bytes_eq_iff arg.mechanism anonymous).0 e)
      | inr (is_plain, short, e) ↦ inr (
        (bytes_eq_iff arg.mechanism plain).0 is_plain,
        ground arith,
        subst (IsPlainProof self.db) (join-split arg.assertion)
            (check_parts_accepts self.db (split arg.assertion) (split-NoNuls arg.assertion) e),
      )
    ]),
    λ accepted. elim accepted [
      | inl e ↦ rw (e, bytes_eq_refl anonymous) refl
      | inr (e, short, p) ↦
          rw
            (
              e,
              not_long (length arg.assertion) short,
              check_parts-IsPlainProof self.db arg.assertion p,
            )
            refl
    ],
  )
