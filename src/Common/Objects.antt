-- ===== src/Common/Objects.antt =====
-- Objects with no key twice, as every JavaScript object is, and the operations that keep them so.
use Prim.Native.String.{String}
use mathlib.Core.Path.{◌≡◌, refl}
use mathlib.Core.Logic.{inl, inr}
use mathlib.Core.Option.{Option, none, some}
use mathlib.Core.List.{List, [], ◌∷◌}
use native.Mathlib.Omega.{arith}
use text.Mathlib.TextEquality.{eq_iff}
use text.Mathlib.TextPositions.{eq_refl}
use scylladb_grpc_microservi.Common.Tests.{str_eq, Bool-cases}
use scylladb_grpc_microservi.Common.Lists.{All}
use scylladb_grpc_microservi.Common.Dicts.{Dict, get, put, delete, get-put, get-delete}
use scylladb_grpc_microservi.Common.Keys.{put_some, spread_keys, spread, keys, delete_all}

module _ {ℓ} {V : Type ℓ} where
  abbrev pub Distinct : Dict V → Type ℓ
  Distinct [] = Unit
  Distinct ((k, v) ∷ m) = (get k m ≡ none) × Distinct m

  put-Distinct : (k : String) (v : V) (m : Dict V) → Distinct m → Distinct (put k v m)
  unfolding put get
  put-Distinct k v [] h = (refl, tt)
  put-Distinct k v ((j, w) ∷ m) (fresh, h) = elim (Bool-cases (str_eq j k)) [
    | inl e ↦ rw e (fresh, h)
    | inr e ↦ rw e (ground (arith, eq_iff j k, eq_iff k j, get-put k j v m), put-Distinct k v m h)
  ]

  delete-Distinct : (k : String) (m : Dict V) → Distinct m → Distinct (delete k m)
  unfolding delete
  delete-Distinct k [] h = tt
  delete-Distinct k ((j, w) ∷ m) (fresh, h) = elim (Bool-cases (str_eq j k)) [
    | inl e ↦ rw e (delete-Distinct k m h)
    | inr e ↦ rw e (ground (arith, get-delete k j m), delete-Distinct k m h)
  ]

  put_some-Distinct :
      (k : String) (o : Option V) (m : Dict V) → Distinct m → Distinct (put_some k o m)
  put_some-Distinct k none m h = h
  put_some-Distinct k (some v) m h = put-Distinct k v m h

  spread_keys-Distinct :
      (ks : List String) (m d : Dict V) → Distinct d → Distinct (spread_keys ks m d)
  unfolding spread_keys
  spread_keys-Distinct [] m d h = h
  spread_keys-Distinct (k ∷ ks) m d h =
      spread_keys-Distinct ks m (put_some k (get k m) d) (put_some-Distinct k (get k m) d h)

  pub spread-Distinct : (m d : Dict V) → Distinct d → Distinct (spread m d)
  spread-Distinct m d h = spread_keys-Distinct (keys m) m d h

  pub delete_all-Distinct :
      (ks : List String) (d : Dict V) → Distinct d → Distinct (delete_all ks d)
  unfolding delete_all
  delete_all-Distinct [] d h = h
  delete_all-Distinct (k ∷ ks) d h = delete_all-Distinct ks (delete k d) (delete-Distinct k d h)

  -- The entries of `m`, each the one that its key gives in `d`.
  abbrev Entries : Dict V → Dict V → Type ℓ
  Entries d m = All (λ entry. get (entry.0) d ≡ some (entry.1)) m

  Entries-cons :
      (k : String) (v : V) (d m : Dict V) → get k d ≡ none → Entries d m → Entries ((k, v) ∷ d) m
  unfolding get
  Entries-cons k v d [] fresh h = tt
  Entries-cons k v d ((j, w) ∷ m) fresh (here, h) =
      (ground (arith, eq_iff k j), Entries-cons k v d m fresh h)

  pub Distinct-entries :
      (d : Dict V) → Distinct d → All (λ entry. get (entry.0) d ≡ some (entry.1)) d
  unfolding get
  Distinct-entries [] h = tt
  Distinct-entries ((k, v) ∷ d) (fresh, h) =
      (ground (arith, eq_refl k), Entries-cons k v d d fresh (Distinct-entries d h))
