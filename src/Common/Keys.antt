-- ===== src/Common/Keys.antt =====
-- Keys of a JavaScript object, and the operations that run over them: `{ ...a, ...b }` and a loop of
-- deletions.
use Prim.Native.String.{String}
use mathlib.Core.Path.{◌≡◌, refl}
use mathlib.Core.Logic.{inl, inr}
use mathlib.Core.Bool.{Bool, false, ◌||◌, ◌&&◌}
use mathlib.Core.Option.{Option, none, some}
use mathlib.Core.List.{List, [], ◌∷◌}
use native.Mathlib.Omega.{arith}
use text.Mathlib.TextEquality.{eq_iff}
use scylladb_grpc_microservi.Common.Tests.{if◌then◌else◌, str_eq, is_some, Option-cases}
use scylladb_grpc_microservi.Common.Lists.{filter}
use scylladb_grpc_microservi.Common.Dicts.{Dict, get, put, delete, get-put, get-delete}

abbrev pub has : String → List String → Bool
has k [] = false
has k (j ∷ js) = str_eq j k || has k js

abbrev pub or_else {ℓ} : {A : Type ℓ} → Option A → Option A → Option A
or_else none d = d
or_else (some a) d = some a

pub has-filter :
    (p : String → Bool) (k : String) (ks : List String) → has k (filter p ks) ≡ has k ks && p k
has-filter p k [] = refl
has-filter p k (j ∷ ks) = ground (arith, eq_iff j k, has-filter p k ks)

module _ {ℓ} {V : Type ℓ} where
  -- `Object.keys(m)`
  unfoldable pub keys : Dict V → List String
  keys [] = []
  keys ((k, v) ∷ m) = k ∷ keys m

  abbrev pub put_some : String → Option V → Dict V → Dict V
  put_some k none d = d
  put_some k (some v) d = put k v d

  unfoldable pub spread_keys : List String → Dict V → Dict V → Dict V
  spread_keys [] m d = d
  spread_keys (k ∷ ks) m d = spread_keys ks m (put_some k (get k m) d)

  -- `{ ...d, ...m }`
  abbrev pub spread : Dict V → Dict V → Dict V
  spread m d = spread_keys (keys m) m d

  unfoldable pub delete_all : List String → Dict V → Dict V
  delete_all [] d = d
  delete_all (k ∷ ks) d = delete_all ks (delete k d)

  pub has-keys : (k : String) (m : Dict V) → has k (keys m) ≡ is_some (get k m)
  unfolding keys get
  has-keys k [] = refl
  has-keys k ((j, v) ∷ m) = ground (arith, has-keys k m)

  pub get-delete_all :
      (k : String) (ks : List String) (d : Dict V)
      → get k (delete_all ks d) ≡ (if has k ks then none else get k d)
  unfolding delete_all
  get-delete_all k [] d = refl
  get-delete_all k (j ∷ ks) d = ground (arith, get-delete_all k ks (delete j d), get-delete j k d)

  get-put_some :
      (j k : String) (o : Option V) (d : Dict V)
      → get k (put_some j o d) ≡ (if str_eq j k then or_else o (get k d) else get k d)
  get-put_some j k none d = ground arith
  get-put_some j k (some v) d = get-put j k v d

  get-spread_keys :
      (k : String) (ks : List String) (m d : Dict V)
      → get k (spread_keys ks m d) ≡ (if has k ks then or_else (get k m) (get k d) else get k d)
  unfolding spread_keys
  get-spread_keys k [] m d = refl
  get-spread_keys k (j ∷ ks) m d = elim (Option-cases (get k m)) [
    | inl e ↦ ground (
      arith,
      eq_iff j k,
      get-spread_keys k ks m (put_some j (get j m) d),
      get-put_some j k (get j m) d,
    )
    | inr (v, e) ↦ ground (
      arith,
      eq_iff j k,
      get-spread_keys k ks m (put_some j (get j m) d),
      get-put_some j k (get j m) d,
    )
  ]

  pub get-spread : (k : String) (m d : Dict V) → get k (spread m d) ≡ or_else (get k m) (get k d)
  get-spread k m d = ground (arith, get-spread_keys k (keys m) m d, has-keys k m)
