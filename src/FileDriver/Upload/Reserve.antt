-- ===== src/FileDriver/Upload/Reserve.antt =====
-- The loop by which `upload` looks for a free major version (yeetbox-server/src/storage/file.rs).
use yeetbox.Common.{
  ℕ, zero, suc, ◌+◌, ◌≤◌, ◌≡◌, refl, ap, ◌∙◌, true, false, some, leb, ◌==◌, arith, if◌then◌else◌,
  Bool-cases, inl, inr,
}
use yeetbox.Status.{Result, ok}
use yeetbox.Words.{add64}
use yeetbox.Env.{IoResult, done, failed}
use yeetbox.FileDriver.Paths.{FilePath, push, pop}
use yeetbox.FileDriver.Host.{Host, Node, kind_already_exists}
use yeetbox.FileDriver.Numbers.{pad12}
use yeetbox.FileDriver.State.{FileWorld, Action, pure, ◌>>=◌, try_change}
use yeetbox.FileDriver.Upload.{after_try, reserve}

-- The path of the next round.
abbrev pub next_path : ℕ → FilePath → FilePath
next_path major path = push (pop path) (pad12 (add64 major 1))

-- The path after so many rounds.
unfoldable pub candidate : ℕ → ℕ → FilePath → FilePath
candidate zero major path = path
candidate (suc n) major path = candidate n (add64 major 1) (next_path major path)

leb_above : (t : ℕ) → 1001 ≤ t → leb t 1000 ≡ false
leb_above t h = ground arith

leb_below : (t : ℕ) → t ≤ 1000 → leb t 1000 ≡ true
leb_below t h = ground arith

zero_add : (k : ℕ) → 0 + k ≡ k
zero_add k = omega arith

add_zero : (k : ℕ) → k + 0 ≡ k
add_zero k = omega arith

-- The number after so many rounds.
unfoldable pub major_after : ℕ → ℕ → ℕ
major_after zero major = major
major_after (suc n) major = major_after n (add64 major 1)

module _ ⦃H : Host⦄ where
  -- The loop with 1000 rounds of fuel from the start behaves as with any more: the fuel does not
  -- run out before the test of the loop fails.
  pub reserve_fuel :
      (fuel more inc_tries major : ℕ) (path : FilePath)
      → 1001 ≤ inc_tries + fuel
      → reserve (fuel + more) inc_tries major path ≡ reserve fuel inc_tries major path
  unfolding reserve
  reserve_fuel zero zero t major path h = refl
  reserve_fuel zero (suc more) t major path h =
      let e : zero + suc more ≡ suc more = omega arith in
      let above : 1001 ≤ t = omega arith in rw (e, leb_above t above) refl
  reserve_fuel (suc fuel) more t major path h =
      let e : suc fuel + more ≡ suc (fuel + more) = omega arith in
      let again =
        reserve_fuel fuel more (t + 1) (add64 major 1) (next_path major path) (omega arith) in
      rw e (
        ap
          (λ (rest : Action (ℕ × FilePath)).
            if leb t 1000
            then (try_change (H.tree.create_dir (next_path major path)) >>= λ made.
                after_try made (pure (t + 1, next_path major path)) rest)
            else pure (t, path))
          again)

  -- From the start of the loop, 1000 rounds of fuel are as good as any more: the loop ends by its
  -- own test, or before.
  pub reserve-terminates :
      (more major : ℕ) (path : FilePath)
      → reserve (1000 + more) 1 major path ≡ reserve 1000 1 major path
  reserve-terminates more major path = reserve_fuel 1000 more 1 major path (omega arith)

  -- The next directories are all there already.
  unfoldable pub AllTaken : ℕ → ℕ → FilePath → H.tree.Disk → Type 0
  AllTaken zero major path d = Unit
  AllTaken (suc n) major path d =
      (H.tree.create_dir (next_path major path) d ≡ failed kind_already_exists)
      × AllTaken n (add64 major 1) (next_path major path) d

  one_taken :
      (fuel t major : ℕ) (path : FilePath) (s : FileWorld)
      → t ≤ 1000
      → H.tree.create_dir (next_path major path) s.disk ≡ failed kind_already_exists
      → reserve (suc fuel) t major path s
        ≡ reserve fuel (t + 1) (add64 major 1) (next_path major path) s
  unfolding reserve ◌>>=◌ try_change
  one_taken fuel t major path s h taken = rw (leb_below t h) (rw taken refl)

  -- A round that finds its directory there goes on.
  pub reserve-taken :
      (n fuel t major : ℕ) (path : FilePath) (s : FileWorld)
      → t + n ≤ 1001
      → AllTaken n major path s.disk
      → reserve (n + fuel) t major path s
        ≡ reserve fuel (t + n) (major_after n major) (candidate n major path) s
  unfolding AllTaken candidate major_after
  reserve-taken zero fuel t major path s h taken = rw (zero_add fuel, add_zero t) refl
  reserve-taken (suc n) fuel t major path s h taken =
      let rest =
        reserve-taken n fuel (t + 1) (add64 major 1) (next_path major path) s (omega arith)
          taken.1 in
      let e1 : suc n + fuel ≡ suc (n + fuel) = omega arith in
      let e2 : t + suc n ≡ t + 1 + n = omega arith in
      rw (e1, e2) (one_taken (n + fuel) t major path s (omega arith) taken.0 ∙ rest)

  -- A round that makes its directory is the last.
  one_made :
      (fuel t major : ℕ) (path : FilePath) (s : FileWorld) (d : H.tree.Disk)
      → t ≤ 1000
      → H.tree.create_dir (next_path major path) s.disk ≡ done d
      → reserve (suc fuel) t major path s
        ≡ (ok (t + 1, next_path major path), record s { disk = d })
  unfolding reserve ◌>>=◌ try_change
  one_made fuel t major path s d h made = rw (leb_below t h) (rw made refl)

  -- The loop ends in the first round that makes its directory, and has counted one more try.
  pub reserve-made :
      (n fuel major : ℕ) (path : FilePath) (s : FileWorld) (d : H.tree.Disk)
      → n ≤ 999
      → AllTaken n major path s.disk
      → H.tree.create_dir (next_path (major_after n major) (candidate n major path)) s.disk ≡ done d
      → reserve (n + suc fuel) 1 major path s ≡ (
        ok (n + 2, next_path (major_after n major) (candidate n major path)),
        record s { disk = d },
      )
  reserve-made n fuel major path s d h taken made =
      let e : n + 2 ≡ 1 + n + 1 = omega arith in
      rw e (
        reserve-taken n (suc fuel) 1 major path s (omega arith) taken
        ∙ one_made fuel (1 + n) _ _ s d (omega arith) made)

  -- What exists is left alone.
  pub reserve_keeps :
      (fuel t major : ℕ) (path : FilePath) (s : FileWorld) {s' : FileWorld} {r : ℕ × FilePath}
      → reserve fuel t major path s ≡ (ok r, s')
      → (q : FilePath) {n : Node} → H.tree.entry s.disk q ≡ some n
      → H.tree.entry s'.disk q ≡ some n
  unfolding reserve ◌>>=◌ try_change
  reserve_keeps zero t major path s run q there =
      let same : s ≡ _ = ap (λ (x : Result (ℕ × FilePath) × FileWorld). x.1) run in
      rw (← same) there
  reserve_keeps (suc fuel) t major path s {s'} {r} run q {n} there =
      elim (Bool-cases (leb t 1000)) [
        | inr over ↦
            let same : s ≡ s' =
              ap (λ (x : Result (ℕ × FilePath) × FileWorld). x.1) (rw over at run) in
            rw (← same) there
        | inl under ↦
            round (H.tree.create_dir (next_path major path) s.disk) refl (rw under at run) (λ run'.
              reserve_keeps fuel (t + 1) (add64 major 1) (next_path major path) s run' q there)
      ]
    where
      round :
          (made : IoResult H.tree.Disk)
          → H.tree.create_dir (next_path major path) s.disk ≡ made
          → ◌>>=◌
              (try_change (λ d. made))
              (λ tried.
                after_try tried
                  (pure (t + 1, next_path major path))
                  (reserve fuel (t + 1) (add64 major 1) (next_path major path)))
              s
            ≡ (ok r, s')
          → (reserve fuel (t + 1) (add64 major 1) (next_path major path) s ≡ (ok r, s')
              → H.tree.entry s'.disk q ≡ some n)
          → H.tree.entry s'.disk q ≡ some n
      round (done d) e h again =
          let same : record s { disk = d } ≡ s' =
            ap (λ (x : Result (ℕ × FilePath) × FileWorld). x.1) h in
          rw (← same) (H.tree.create_dir_keeps _ _ e q there)
      round (failed k) e h again = elim (Bool-cases (k == kind_already_exists)) [
        | inl taken ↦ again (rw taken at h)
        | inr other ↦ absurd (cc (rw other at h))
      ]
