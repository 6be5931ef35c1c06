-- ===== src/Base/Dict.antt =====
-- Python's `dict` with string keys, as an association list in insertion order: `put` keeps the
-- place of a key that is there.
use Prim.Native.String.{String}
use mathlib.Core.Path.{◌≡◌, refl}
use mathlib.Core.Bool.{Bool}
use mathlib.Core.Option.{Option, none, some}
use mathlib.Core.List.{List, [], ◌∷◌}
use native.Mathlib.Omega.{arith}
use text.Mathlib.Text.{◌==◌}
use text.Mathlib.TextEquality.{eq_iff}
use optimaler_status.Base.Tests.{if◌then◌else◌, is_some}

abbrev pub Dict {ℓ} : Type ℓ → Type ℓ
Dict V = List (String × V)

module _ {ℓ} {V : Type ℓ} where
  -- d.get(k)
  unfoldable pub get : Dict V → String → Option V
  get [] k = none
  get ((j, v) ∷ d) k = if j == k then some v else get d k

  -- k in d
  unfoldable pub contains : Dict V → String → Bool
  unfolding get
  contains d k = is_some (get d k)

  -- d[k] = v
  unfoldable pub put : Dict V → String → V → Dict V
  put [] k v = (k, v) ∷ []
  put ((j, w) ∷ d) k v = if j == k then (j, v) ∷ d else (j, w) ∷ put d k v

  -- A write is seen at its key, and nowhere else.
  pub get-put :
      (d : Dict V) (key other : String) (v : V)
      → get (put d key v) other ≡ (if key == other then some v else get d other)
  unfolding get put
  get-put [] key other v = refl
  get-put ((i, w) ∷ d) key other v =
      ground (arith, get-put d key other v, eq_iff key other, eq_iff i other, eq_iff i key)
