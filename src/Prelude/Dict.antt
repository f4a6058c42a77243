-- ===== src/Prelude/Dict.antt =====
-- A Python dict keyed by texts, as an association list in insertion order.
use nim_vortex.Prelude.{
  ◌≡◌, ◌≢◌, ◌↔◌, refl, true, Option, none, some, List, [], ◌∷◌, length, if◌then◌else◌, arith,
}
use nim_vortex.Prelude.Bytes.{Bytes, equal, equal_sound, equal_refl}

pub equal_iff : (xs ys : Bytes) → (equal xs ys ≡ true) ↔ (xs ≡ ys)
equal_iff xs ys = (equal_sound xs ys, λ e. rw e (equal_refl ys))

abbrev pub Dict {ℓ} : Type ℓ → Type ℓ
Dict V = List (Bytes × V)

module _ {ℓ} {V : Type ℓ} where
  unfoldable pub lookup : Bytes → Dict V → Option V
  lookup k [] = none
  lookup k ((j, v) ∷ d) = if equal k j then some v else lookup k d

  -- No entry has the key `k`.
  abbrev pub IsFree : Bytes → Dict V → Type 0
  IsFree k [] = Unit
  IsFree k ((j, v) ∷ d) = (k ≢ j) × IsFree k d

  -- `d[k] = v` for a key that is there, which keeps its place.
  unfoldable pub update : Bytes → V → Dict V → Dict V
  update k v [] = []
  update k v ((j, w) ∷ d) = if equal k j then (j, v) ∷ d else (j, w) ∷ update k v d

  abbrev pub keys : Dict V → List Bytes
  keys [] = []
  keys ((k, v) ∷ d) = k ∷ keys d

  -- No key is listed twice.
  abbrev pub IsDict : Dict V → Type 0
  IsDict [] = Unit
  IsDict ((k, v) ∷ d) = IsFree k d × IsDict d

  pub lookup-update_self :
      (k : Bytes) (v w : V) (d : Dict V) → lookup k d ≡ some w → lookup k (update k v d) ≡ some v
  unfolding lookup update
  lookup-update_self k v w [] h = cc
  lookup-update_self k v w ((j, u) ∷ d) h =
      ground (arith, equal_iff k j, lookup-update_self k v w d)

  pub lookup-update_ne :
      (i k : Bytes) (v : V) (d : Dict V) → i ≢ k → lookup i (update k v d) ≡ lookup i d
  unfolding lookup update
  lookup-update_ne i k v [] h = refl
  lookup-update_ne i k v ((j, u) ∷ d) h =
      ground (arith, equal_iff i j, equal_iff k j, lookup-update_ne i k v d h)

  pub keys-update : (k : Bytes) (v : V) (d : Dict V) → keys (update k v d) ≡ keys d
  unfolding update
  keys-update k v [] = refl
  keys-update k v ((j, u) ∷ d) = ground (arith, keys-update k v d)

  pub length-update : (k : Bytes) (v : V) (d : Dict V) → length (update k v d) ≡ length d
  unfolding update
  length-update k v [] = refl
  length-update k v ((j, u) ∷ d) = ground (arith, length-update k v d)

  -- A key that is free is not found, and writing to another key leaves it free.
  pub lookup-IsFree : (k : Bytes) (d : Dict V) → IsFree k d → lookup k d ≡ none
  unfolding lookup
  lookup-IsFree k [] h = refl
  lookup-IsFree k ((j, v) ∷ d) h = ground (arith, equal_iff k j, lookup-IsFree k d)

  pub update-IsFree : (k i : Bytes) (v : V) (d : Dict V) → IsFree k d → IsFree k (update i v d)
  unfolding update
  update-IsFree k i v [] h = h
  update-IsFree k i v ((j, w) ∷ d) h = ground (arith, update-IsFree k i v d)

  pub update-IsDict : (k : Bytes) (v : V) (d : Dict V) → IsDict d → IsDict (update k v d)
  unfolding update
  update-IsDict k v [] h = h
  update-IsDict k v ((j, w) ∷ d) h = ground (arith, update-IsDict k v d, update-IsFree j k v d h.0)

-- Whether a dict repeats a key is a matter of its keys.
module _ {ℓ κ} {V : Type ℓ} {W : Type κ} where
  pub IsFree-keys :
      (k : Bytes) (d : Dict V) (e : Dict W) → keys d ≡ keys e → IsFree k e → IsFree k d
  IsFree-keys k [] e h f = tt
  IsFree-keys k ((j, v) ∷ d) [] h f = cc
  IsFree-keys k ((j, v) ∷ d) ((i, w) ∷ e) h f = ground (arith, IsFree-keys k d e)

  pub IsDict-keys : (d : Dict V) (e : Dict W) → keys d ≡ keys e → IsDict e → IsDict d
  IsDict-keys [] e h f = tt
  IsDict-keys ((j, v) ∷ d) [] h f = cc
  IsDict-keys ((j, v) ∷ d) ((i, w) ∷ e) h f = ground (arith, IsFree-keys j d e, IsDict-keys d e)

  pub length-keys_eq : (d : Dict V) (e : Dict W) → keys d ≡ keys e → length d ≡ length e
  length-keys_eq [] [] h = refl
  length-keys_eq [] ((i, w) ∷ e) h = cc
  length-keys_eq ((j, v) ∷ d) [] h = cc
  length-keys_eq ((j, v) ∷ d) ((i, w) ∷ e) h = ground (arith, length-keys_eq d e)
