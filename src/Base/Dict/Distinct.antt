-- ===== src/Base/Dict/Distinct.antt =====
-- The keys of a dict are distinct, and its writes keep them so.
use mathlib.Core.List.{[], ◌∷◌}
use mathlib.Core.Option.{none}
use mathlib.Core.Path.{◌≡◌, refl}
use native.Mathlib.Omega.{arith}
use identity_python.Base.Dict.{Dict, lookup, insert, erase, lookup-insert, lookup-erase}
use identity_python.Base.Text.{Str, str_discrete}

module _ {ℓ} {V : Type ℓ} where
  abbrev pub IsDistinct : Dict V → Type ℓ
  IsDistinct [] = Unit
  IsDistinct ((k, v) ∷ d) = (lookup k d ≡ none) × IsDistinct d

  pub insert-IsDistinct : (k : Str) (v : V) (d : Dict V) → IsDistinct d → IsDistinct (insert k v d)
  unfolding insert lookup
  insert-IsDistinct k v [] h = (refl, tt)
  insert-IsDistinct k v ((j, w) ∷ d) h = elim (str_discrete j k) [
    | yes p ↦ ground (arith, p)
    | no p ↦ ground (arith, p, insert-IsDistinct k v d h.1, lookup-insert k j v d)
  ]

  pub erase-IsDistinct : (k : Str) (d : Dict V) → IsDistinct d → IsDistinct (erase k d)
  unfolding erase lookup
  erase-IsDistinct k [] h = tt
  erase-IsDistinct k ((j, w) ∷ d) h = ground (arith, erase-IsDistinct k d h.1, lookup-erase k j d)
