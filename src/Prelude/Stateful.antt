-- ===== src/Prelude/Stateful.antt =====
-- Code that fails and changes a state: a result with the state that is left.
use mathlib.Core.Path.{◌≡◌, refl}
use dev_plane.Prelude.Results.{Result, ok, err}

module _ {E A B W : Type 0} where
  -- what follows a result, unless it is an error
  abbrev pub after : Result E A × W → (A → W → Result E B × W) → Result E B × W
  after (ok a, w) rest = rest a w
  after (err e, w) rest = (err e, w)

  infixl 5 ◌then◌
  abbrev pub ◌then◌ : (W → Result E A × W) → (A → W → Result E B × W) → W → Result E B × W
  (step then rest) w = after (step w) rest

  pub after-ok :
      (p : Result E A × W) (rest : A → W → Result E B × W) {b : B} {w2 : W}
      → after p rest ≡ (ok b, w2)
      → (a : A) × (w1 : W) × (p ≡ (ok a, w1)) × (rest a w1 ≡ (ok b, w2))
  after-ok (ok a, w) rest e = (a, w, refl, e)
  after-ok (err x, w) rest e = cc

module _ {E A W : Type 0} where
  -- a test or a computation that leaves the state
  abbrev pub pure : Result E A → W → Result E A × W
  pure r w = (r, w)
