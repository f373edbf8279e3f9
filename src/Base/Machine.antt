-- ===== src/Base/Machine.antt =====
-- A component that is fed one item at a time and hands items to its sink: the sink's calls are the
-- list that a step returns.
use mathlib.Core.Path.{◌≡◌, refl, ◌∙◌}
use mathlib.Core.List.{List, [], ◌∷◌, ◌++◌, append_assoc}

module _ {ℓ κ μ} {S : Type ℓ} {I : Type κ} {O : Type μ} where
  -- All items in turn; the outputs in the order in which the sink saw them.
  unfoldable pub run : (S → I → S × List O) → S → List I → S × List O
  run step s [] = (s, [])
  run step s (x ∷ xs) = let r = run step (step s x).0 xs in (r.0, (step s x).1 ++ r.1)

  pub run-append :
      (step : S → I → S × List O) (s : S) (xs ys : List I)
      → run step s (xs ++ ys) ≡ (
        (run step (run step s xs).0 ys).0,
        (run step s xs).1 ++ (run step (run step s xs).0 ys).1,
      )
  unfolding run
  run-append step s [] ys = refl
  run-append step s (x ∷ xs) ys = rw (run-append step (step s x).0 xs ys) (rw append_assoc)

  -- One item, where its step is known.
  pub run-cons :
      (step : S → I → S × List O) {s s' : S} {x : I} {out : List O} (xs : List I)
      → step s x ≡ (s', out)
      → run step s (x ∷ xs) ≡ ((run step s' xs).0, out ++ (run step s' xs).1)
  unfolding run
  run-cons step xs h = rw h

  -- Several items, where their run is known.
  pub run-then :
      (step : S → I → S × List O) (s s' : S) (xs ys : List I) (out : List O)
      → run step s xs ≡ (s', out)
      → run step s (xs ++ ys) ≡ ((run step s' ys).0, out ++ (run step s' ys).1)
  run-then step s s' xs ys out h = run-append step s xs ys ∙ rw h refl
