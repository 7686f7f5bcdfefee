-- ===== src/Base/Dict.antt =====
-- A JavaScript Map keyed by strings, as a list of entries in insertion order.
use bt2c.Base.{
  ◌≡◌, refl, Bool, true, false, Option, none, some, List, [], ◌∷◌, arith, if◌then◌else◌, suc,
  length,
}
use bt2c.Base.Text.{Text, text_eq, text_eq_refl, text_eq_sound, text_eq_symm}

abbrev pub Dict {ℓ} : Type ℓ → Type ℓ
Dict V = List (Text × V)

module _ {ℓ} {V : Type ℓ} where
  -- `m.get(k)`
  abbrev pub lookup : Text → Dict V → Option V
  lookup k [] = none
  lookup k ((j, v) ∷ d) = if text_eq k j then some v else lookup k d

  -- `m.has(k)`
  abbrev pub contains : Text → Dict V → Bool
  contains k d = elim (lookup k d) [ none ↦ false | some _ ↦ true ]

  -- `m.set(k, v)`: a new key goes to the end, an old one keeps its place
  abbrev pub insert : Text → V → Dict V → Dict V
  insert k v [] = (k, v) ∷ []
  insert k v (e ∷ d) = if text_eq k e.0 then (e.0, v) ∷ d else e ∷ insert k v d

  -- `m.delete(k)`
  abbrev pub erase : Text → Dict V → Dict V
  erase k [] = []
  erase k (e ∷ d) = if text_eq k e.0 then d else e ∷ erase k d

module _ {ℓ} {V : Type ℓ} where
  -- No key is listed twice.
  abbrev pub IsDict : Dict V → Type ℓ
  IsDict [] = Unit
  IsDict ((k, v) ∷ d) = (lookup k d ≡ none) × IsDict d

module _ {ℓ} {V : Type ℓ} where
  pub lookup-insert :
      (j k : Text) (v : V) (d : Dict V)
      → lookup j (insert k v d) ≡ (if text_eq j k then some v else lookup j d)
  lookup-insert j k v [] = refl
  lookup-insert j k v ((i, w) ∷ d) = ground (
    arith,
    text_eq_sound k i,
    text_eq_sound j i,
    text_eq_sound j k,
    text_eq_refl i,
    lookup-insert j k v d,
  )

  pub lookup-insert_self : (k : Text) (v : V) (d : Dict V) → lookup k (insert k v d) ≡ some v
  lookup-insert_self k v d = ground (arith, lookup-insert k k v d, text_eq_refl k)

  pub lookup-insert_ne :
      (j k : Text) (v : V) (d : Dict V) → text_eq j k ≡ false → lookup j (insert k v d) ≡ lookup j d
  lookup-insert_ne j k v d h = ground (arith, lookup-insert j k v d)

  pub lookup-erase_ne :
      (j k : Text) (d : Dict V) → text_eq j k ≡ false → lookup j (erase k d) ≡ lookup j d
  lookup-erase_ne j k [] h = refl
  lookup-erase_ne j k ((i, w) ∷ d) h = ground (arith, text_eq_sound k i, lookup-erase_ne j k d h)

  pub lookup-erase_self : (k : Text) (d : Dict V) → IsDict d → lookup k (erase k d) ≡ none
  lookup-erase_self k [] h = refl
  lookup-erase_self k ((i, w) ∷ d) h = ground (arith, text_eq_sound k i, lookup-erase_self k d h.1)

  pub insert-IsDict : (k : Text) (v : V) (d : Dict V) → IsDict d → IsDict (insert k v d)
  insert-IsDict k v [] h = (refl, tt)
  insert-IsDict k v ((i, w) ∷ d) h =
      ground
        (arith, lookup-insert i k v d, text_eq_sound i k, text_eq_refl k, insert-IsDict k v d h.1)

  pub lookup-erase-none :
      (j k : Text) (d : Dict V) → lookup j d ≡ none → lookup j (erase k d) ≡ none
  lookup-erase-none j k [] h = refl
  lookup-erase-none j k ((i, w) ∷ d) h = ground (arith, lookup-erase-none j k d)

  pub erase-IsDict : (k : Text) (d : Dict V) → IsDict d → IsDict (erase k d)
  erase-IsDict k [] h = tt
  erase-IsDict k ((i, w) ∷ d) h = ground (arith, lookup-erase-none i k d, erase-IsDict k d h.1)

  pub length-insert_new :
      (k : Text) (v : V) (d : Dict V) → lookup k d ≡ none → length (insert k v d) ≡ suc (length d)
  length-insert_new k v [] h = refl
  length-insert_new k v ((j, w) ∷ d) h = ground (arith, h, length-insert_new k v d)

module _ {ℓ κ} {V : Type ℓ} {W : Type κ} where
  -- The maps have no key in common.
  abbrev pub IsApart : Dict V → Dict W → Type κ
  IsApart [] e = Unit
  IsApart ((k, v) ∷ d) e = (lookup k e ≡ none) × IsApart d e

module _ {ℓ κ} {V : Type ℓ} {W : Type κ} where
  pub insert-IsApart :
      (k : Text) (w : W) (d : Dict V) (e : Dict W)
      → lookup k d ≡ none
      → IsApart d e
      → IsApart d (insert k w e)
  insert-IsApart k w [] e n f = tt
  insert-IsApart k w ((j, v) ∷ d) e n f = (
    ground (arith, n, f.0, lookup-insert j k w e, text_eq_symm j k),
    insert-IsApart k w d e (ground (arith, n)) f.1,
  )

pub nothing-IsApart {ℓ κ} : {V : Type ℓ} (W : Type κ) (d : Dict V) → IsApart {W = W} d []
nothing-IsApart W [] = tt
nothing-IsApart W ((k, v) ∷ d) = (refl, nothing-IsApart W d)
