-- ===== src/Storage/Upload/Blob.antt =====
-- The blob of an upload (yeetbox-server/src/storage/database.rs): which it is, what a message adds to
-- it, and where it goes in the end.
use yeetbox.Common.{
  none, subst, ◌≤◌, Option-cases, ℕ, ◌≡◌, refl, sym, ap, Bool, true, false, some, ◌++◌, Bytes,
  bytes_eq, bytes_eq_refl, length, take, ◌==◌, ==_iff, length-zero_nil, ◌+◌, [], ◌⊎◌, Bool-cases,
  arith, if◌then◌else◌, inl, inr,
}
use yeetbox.Status.{Result, ok}
use yeetbox.Env.{Env, or_empty, done}
use yeetbox.Storage.State.{World, pure, lift, ◌>>=◌, new_ulid}
use yeetbox.Storage.Upload.{blob_path_of, choose_ulid, write_blob, save_blob}
use yeetbox.Storage.Inversion.{after_change_files, after_write_files, at_return}

-- A token that is empty stands for what was drawn, and one of 16 bytes for what it encodes.
abbrev pub IsTokenOf : ℕ → ℕ → Bytes → ℕ → Type 0
IsTokenOf drawn given c u = ((c ≡ []) × (u ≡ drawn)) ⊎ ((length c ≡ 16) × (u ≡ given))

pub IsTokenOf-unique :
    (drawn given : ℕ) (c : Bytes) {u v : ℕ}
    → IsTokenOf drawn given c u
    → IsTokenOf drawn given c v
    → u ≡ v
IsTokenOf-unique drawn given c (inl (e, eu)) (inl (e', ev)) = cc (eu, ev)
IsTokenOf-unique drawn given c (inl (e, eu)) (inr (n, ev)) = absurd (omega (arith, ap length e))
IsTokenOf-unique drawn given c (inr (n, eu)) (inl (e, ev)) = absurd (omega (arith, ap length e))
IsTokenOf-unique drawn given c (inr (n, eu)) (inr (n', ev)) = cc (eu, ev)

module _ ⦃E : Env⦄ where
  abbrev pub IsChosen : Bytes → World → ℕ → Type 0
  IsChosen c s u = IsTokenOf (E.new_ulid s.tick) (E.ulid_from_bytes c) c u

  tick_after :
      {A : Type 0} {a b : A} {n : ℕ} {t t' : World}
      → ◌≡◌ {A = Result A × World} (ok a, t) (ok b, t')
      → n ≤ t.tick
      → n ≤ t'.tick
  tick_after {A} {a} {b} {n} {t} {t'} e h =
      let same : t ≡ t' = cc e in subst (λ (w : World). n ≤ w.tick) same h

  pub choose_ulid-IsChosen :
      (c : Bytes) (s s' : World) (ulid : ℕ)
      → choose_ulid c s ≡ (ok ulid, s')
      → IsChosen c s ulid × (s'.disk ≡ s.disk) × (s.tick ≤ s'.tick)
  unfolding choose_ulid ◌>>=◌ new_ulid pure lift
  choose_ulid-IsChosen c s s' ulid h = elim (Bool-cases (length c == 0)) [
    | inl none_ ↦
        let e : (ok (E.new_ulid s.tick), record s { tick = s.tick + 1 }) ≡ (ok ulid, s') =
          rw none_ at h in
        (inl (length-zero_nil c ((==_iff _ _).0 none_), cc e), cc e, tick_after e (omega arith))
    | inr some_ ↦ elim (Bool-cases (length c == 16)) [
      | inl fits ↦
          let e : (ok (E.ulid_from_bytes c), s) ≡ (ok ulid, s') = rw (some_, fits) at h in
          (inr ((==_iff _ _).0 fits, cc e), cc e, tick_after e (omega arith))
      | inr unfit ↦ absurd (cc (rw (some_, unfit) at h))
    ]
  ]

  -- The name is the same, or that of a file.
  abbrev pub IsTaken : Bytes → Bytes → E.files.Disk → Type 0
  IsTaken p q d = (bytes_eq p q ≡ true) ⊎ ((bs : Bytes) × (E.files.content d q ≡ some bs))

  -- The end of the file has what was taken of the data.
  pub record Written (p contents : Bytes) (d d' : E.files.Disk) : Type 0 where
    pub opened : E.files.Disk
    pub taken : ℕ
    pub written_by : E.files.write opened p contents ≡ done (d', taken)
    pub appended :
        E.files.content d' p ≡ some (or_empty (E.files.content d p) ++ take taken contents)

  append_content :
      (p contents : Bytes) (n : ℕ) (d d' d'' : E.files.Disk)
      → E.files.content d' p
        ≡ (if bytes_eq p p then some (or_empty (E.files.content d p)) else E.files.content d p)
      → E.files.content d'' p ≡ (
          if bytes_eq p p
          then some (or_empty (E.files.content d' p) ++ take n contents)
          else E.files.content d' p)
      → E.files.content d'' p ≡ some (or_empty (E.files.content d p) ++ take n contents)
  append_content p contents n d d' d'' opened written =
      let opened' = rw (bytes_eq_refl p) at opened in rw (bytes_eq_refl p, opened') at written

  pub opened-Written :
      (c : Bool) (p contents : Bytes) {n : ℕ} (d : E.files.Disk) {d' d'' : E.files.Disk}
      → E.files.open_append c d p ≡ done d'
      → E.files.write d' p contents ≡ done (d'', n)
      → Written p contents d d''
  opened-Written c p contents {n} d {d'} {d''} e1 e2 = record {
    opened = d';
    taken = n;
    written_by = e2;
    appended =
        append_content p contents n d d' d'' (E.files.content-open_append c d p e1 p)
          (E.files.content-write d' p contents e2 p);
  }

  pub write_blob-Written :
      (p contents : Bytes) (s s' : World)
      → write_blob p contents s ≡ (ok tt, s')
      → Written p contents s.disk s'.disk × (s'.tick ≡ s.tick)
  unfolding write_blob
  write_blob-Written p contents s s' h =
      after_change_files _ _ _
        (λ d e1. after_write_files _ _ _ λ d' n e2. at_return _ _ λ _ e3. (
          rw (← e3) (opened-Written true p contents s.disk e1 e2),
          ap (λ (w : World). w.tick) (sym e3),
        ))
        h

  -- The blob keeps its name if it came in one message. Otherwise it has that of a ULID drawn since
  -- the given call, and is not under its old name any more, unless the new name was taken.
  pub record Saved (single : Bool) (base p saved : Bytes) (tick : ℕ) (d d' : E.files.Disk)
      : Type 0 where
    pub named :
        ((single ≡ true) × (saved ≡ p))
        ⊎ ((single ≡ false) × ((k : ℕ) × (tick ≤ k) × (saved ≡ blob_path_of base (E.new_ulid k))))
    pub kept : E.files.content d' saved ≡ E.files.content d p
    pub left : (single ≡ true) ⊎ ((E.files.content d' p ≡ none) ⊎ IsTaken p saved d)

  pub Saved-since :
      {single : Bool} {base p saved : Bytes} {tick tick' : ℕ} {d d' : E.files.Disk}
      → tick ≤ tick'
      → Saved single base p saved tick' d d'
      → Saved single base p saved tick d d'
  Saved-since earlier a = record {
    named = elim a.named [
      | inl one ↦ inl one
      | inr (several, (k, since, named)) ↦ inr (several, (k, omega (arith, earlier, since), named))
    ];
    kept = a.kept;
    left = a.left;
  }

  renamed_left :
      (p q : Bytes) (d d' : E.files.Disk)
      → E.files.rename d p q ≡ done d'
      → (E.files.content d' p ≡ none) ⊎ IsTaken p q d
  renamed_left p q d d' e = elim (Bool-cases (bytes_eq p q)) [
    | inl same ↦ inr (inl same)
    | inr other ↦ elim (Option-cases (E.files.content d q)) [
      | inl free ↦ inl (E.files.rename_leaves d p q e free other)
      | inr (bs, taken) ↦ inr (inr (bs, taken))
    ]
  ]

  pub save_blob-Saved :
      (single : Bool) (base p : Bytes) (s s' : World) (saved : Bytes)
      → save_blob single base p s ≡ (ok saved, s')
      → Saved single base p saved s.tick s.disk s'.disk × (s'.blobs_path ≡ s.blobs_path)
  unfolding save_blob new_ulid ◌>>=◌
  save_blob-Saved true base p s s' saved = at_return _ _ λ e1 e2. (
    rw (← e1, ← e2) (record { named = inl (refl, refl); kept = refl; left = inl refl }),
    ap (λ (w : World). w.blobs_path) (sym e2),
  )
  save_blob-Saved false base p s s' saved = after_change_files _ _ _ λ d e1. at_return _ _ λ e2 e3.
      (
        rw (← e2, ← e3)
            (record {
              named = inr (refl, (s.tick, (omega arith), refl));
              kept = E.files.content-rename _ _ _ e1;
              left = inr (renamed_left p _ s.disk d e1);
            }),
        ap (λ (w : World). w.blobs_path) (sym e3),
      )
