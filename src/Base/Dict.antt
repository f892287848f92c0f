-- ===== src/Base/Dict.antt =====
-- A Python dict keyed by texts: its entries in insertion order.
pub mod Distinct
use mathlib.Core.List.{List, [], ◌∷◌, map}
use mathlib.Core.Logic.{ite}
use mathlib.Core.Option.{Option, none, some}
use mathlib.Core.Path.{◌≡◌, refl}
use native.Mathlib.Omega.{arith}
use identity_python.Base.Text.{Str, str_discrete}

abbrev pub Dict {ℓ} : Type ℓ → Type ℓ
Dict V = List (Str × V)

module _ {ℓ} {V : Type ℓ} where
  -- `d.get(k)`
  unfoldable pub lookup : Str → Dict V → Option V
  lookup k [] = none
  lookup k ((j, v) ∷ d) = ite (str_discrete j k) (some v) (lookup k d)

  -- `d[k] = v`: the entry keeps its place, or is appended
  unfoldable pub insert : Str → V → Dict V → Dict V
  insert k v [] = (k, v) ∷ []
  insert k v ((j, w) ∷ d) = ite (str_discrete j k) ((k, v) ∷ d) ((j, w) ∷ insert k v d)

  -- `d.pop(k, None)`: a dict has one entry for a key at most
  unfoldable pub erase : Str → Dict V → Dict V
  erase k [] = []
  erase k ((j, w) ∷ d) = ite (str_discrete j k) (erase k d) ((j, w) ∷ erase k d)

  -- `d.values()`
  unfoldable pub values : Dict V → List V
  values = map (λ e. e.1)

  pub lookup-insert :
      (k j : Str) (v : V) (d : Dict V)
      → lookup j (insert k v d) ≡ ite (str_discrete k j) (some v) (lookup j d)
  unfolding lookup insert
  lookup-insert k j v [] = refl
  lookup-insert k j v (e ∷ d) = ground (arith, lookup-insert k j v d)

  pub lookup-erase :
      (k j : Str) (d : Dict V) → lookup j (erase k d) ≡ ite (str_discrete k j) none (lookup j d)
  unfolding lookup erase
  lookup-erase k j [] = ground arith
  lookup-erase k j (e ∷ d) = ground (arith, lookup-erase k j d)

  pub lookup-cons_self : (k : Str) (v : V) (d : Dict V) → lookup k ((k, v) ∷ d) ≡ some v
  unfolding lookup
  lookup-cons_self k v d = ground arith
