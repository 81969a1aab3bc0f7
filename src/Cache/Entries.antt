-- ===== src/Cache/Entries.antt =====
-- A map with text keys: what the cache uses of `DashMap`.
use beanstream.Prelude.{
  ◌≤◌, ◌<◌, ◌≡◌, Option, none, some, List, [], ◌∷◌, arith, if◌then◌else◌, length,
}
use beanstream.Text.{Str, str_eq}
use beanstream.Text.Laws.{str_eq_iff}

abbrev pub Table {ℓ} : Type ℓ → Type ℓ
Table V = List (Str × V)

module _ {ℓ} {V : Type ℓ} where
  unfoldable pub get : Str → Table V → Option V
  get k [] = none
  get k ((j, v) ∷ t) = if str_eq j k then some v else get k t

  unfoldable pub remove : Str → Table V → Table V
  remove k [] = []
  remove k ((j, v) ∷ t) = let rest = remove k t in if str_eq j k then rest else (j, v) ∷ rest

  unfoldable pub insert : Str → V → Table V → Table V
  unfolding remove
  insert k v t = (k, v) ∷ remove k t

  unfoldable pub first_key : Table V → Option Str
  first_key [] = none
  first_key ((k, v) ∷ t) = some k

  pub get-remove :
      (k j : Str) (t : Table V) → get j (remove k t) ≡ (if str_eq k j then none else get j t)
  unfolding get remove
  get-remove k j [] = ground arith
  get-remove k j ((i, v) ∷ t) =
      ground (arith, get-remove k j t, str_eq_iff i k, str_eq_iff i j, str_eq_iff k j)

  pub get-insert :
      (k j : Str) (v : V) (t : Table V)
      → get j (insert k v t) ≡ (if str_eq k j then some v else get j t)
  unfolding get insert
  get-insert k j v t = ground (arith, get-remove k j t)

  pub length-remove : (k : Str) (t : Table V) → length (remove k t) ≤ length t
  unfolding remove
  length-remove k [] = omega arith
  length-remove k ((j, v) ∷ t) = ground (arith, length-remove k t)

  pub length-remove_present :
      (k : Str) (v : V) (t : Table V) → get k t ≡ some v → length (remove k t) < length t
  unfolding get remove
  length-remove_present k v [] h = cc
  length-remove_present k v ((j, w) ∷ t) h =
      ground (arith, length-remove k t, length-remove_present k v t)
