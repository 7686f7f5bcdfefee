-- ===== src/Base/Totals.antt =====
-- Sums of a number over the values of a map, and what a write or a removal does to them.
use bt2c.Base.{◌≡◌, Option, none, some, [], ◌∷◌, arith, by_test}
use bt2c.Base.Int.{ℤ, pos, ◌+ℤ◌, int_laws}
use bt2c.Base.Text.{Text, text_eq}
use bt2c.Base.Dict.{Dict, lookup, insert, erase}

module _ {ℓ} {V : Type ℓ} where
  abbrev pub sum_over : (V → ℤ) → Dict V → ℤ
  sum_over f [] = pos 0
  sum_over f ((k, v) ∷ d) = f v +ℤ sum_over f d

  -- The number of the value under a key, 0 where there is none.
  abbrev pub at_key : (V → ℤ) → Option V → ℤ
  at_key f none = pos 0
  at_key f (some v) = f v

module _ {ℓ} {V : Type ℓ} where
  pub sum_over-insert :
      (f : V → ℤ) (k : Text) (v : V) (d : Dict V)
      → sum_over f (insert k v d) +ℤ at_key f (lookup k d) ≡ sum_over f d +ℤ f v
  sum_over-insert f k v [] = omega int_laws
  sum_over-insert f k v ((i, w) ∷ d) = grind (int_laws, sum_over-insert f k v d)

  pub sum_over-erase :
      (f : V → ℤ) (k : Text) (d : Dict V)
      → sum_over f (erase k d) +ℤ at_key f (lookup k d) ≡ sum_over f d
  sum_over-erase f k [] = omega int_laws
  sum_over-erase f k ((i, w) ∷ d) = grind (int_laws, sum_over-erase f k d)

module _ {ℓ} {V : Type ℓ} where
  pub sum_over-insert_same :
      (f : V → ℤ) (k : Text) (v w : V) (d : Dict V)
      → lookup k d ≡ some w
      → f v ≡ f w
      → sum_over f (insert k v d) ≡ sum_over f d
  sum_over-insert_same f k v w d l e = grind (int_laws, sum_over-insert f k v d, l, e)

-- Every value of the map has the property.
abbrev pub Every {ℓ κ} : {V : Type ℓ} → (V → Type κ) → Dict V → Type κ
Every P [] = Unit
Every P ((k, v) ∷ d) = P v × Every P d

module _ {ℓ κ} {V : Type ℓ} (P : V → Type κ) where
  pub insert-Every : (k : Text) (v : V) (d : Dict V) → P v → Every P d → Every P (insert k v d)
  insert-Every k v [] h e = (h, tt)
  insert-Every k v ((i, w) ∷ d) h e =
      by_test (Every P) (text_eq k i) ((i, v) ∷ d) ((i, w) ∷ insert k v d) (λ q. (h, e.1))
        (λ q. (e.0, insert-Every k v d h e.1))

  pub lookup-Every : (k : Text) (v : V) (d : Dict V) → Every P d → lookup k d ≡ some v → P v
  lookup-Every k v [] e l = cc
  lookup-Every k v ((i, w) ∷ d) e l = ground (arith, lookup-Every k v d e.1)

  pub erase-Every : (k : Text) (d : Dict V) → Every P d → Every P (erase k d)
  erase-Every k [] e = tt
  erase-Every k ((i, w) ∷ d) e =
      by_test (Every P) (text_eq k i) d ((i, w) ∷ erase k d) (λ q. e.1)
        (λ q. (e.0, erase-Every k d e.1))
