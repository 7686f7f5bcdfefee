-- ===== src/Utxo/Sets.antt =====
-- The sets of outpoints and the index of src/storage/utxo_store.js: what an addition and a removal do
-- to the members, to the entries of the index and to the sums of amounts.
use bt2c.Base.{
  ◌≡◌, refl, true, false, none, some, List, [], ◌∷◌, arith, if◌then◌else◌, Option-cases, inl, inr,
}
use bt2c.Base.Int.{ℤ, pos, ◌+ℤ◌, int_laws}
use bt2c.Base.Text.{Text, text_eq, text_eq_refl, text_eq_sound, text_eq_symm}
use bt2c.Base.Dict.{
  Dict, IsDict, lookup, insert, erase, lookup-insert, lookup-erase_ne, lookup-erase_self,
}
use bt2c.Utxo.Types.{Utxo}
use bt2c.Utxo.{
  member, set_add, set_delete, outpoints_of, index_add, index_remove, put_back, amount_at, sum_of,
}

-- No outpoint is listed twice.
abbrev pub IsDistinct : List Text → Type 0
IsDistinct [] = Unit
IsDistinct (o ∷ os) = (member o os ≡ false) × IsDistinct os

pub member-set_add :
    (x o : Text) (os : List Text)
    → member x (set_add o os) ≡ (if text_eq x o then true else member x os)
member-set_add x o [] = refl
member-set_add x o (y ∷ os) =
    ground (arith, member-set_add x o os, text_eq_sound o y, text_eq_sound x y)

pub set_add-IsDistinct : (o : Text) (os : List Text) → IsDistinct os → IsDistinct (set_add o os)
set_add-IsDistinct o [] h = (refl, tt)
set_add-IsDistinct o (y ∷ os) h =
    ground (arith, set_add-IsDistinct o os h.1, member-set_add y o os, text_eq_symm o y)

pub member-set_delete :
    (x o : Text) (os : List Text)
    → IsDistinct os
    → member x (set_delete o os) ≡ (if text_eq x o then false else member x os)
member-set_delete x o [] h = ground arith
member-set_delete x o (y ∷ os) h = ground (
  arith,
  member-set_delete x o os h.1,
  text_eq_sound o y,
  text_eq_sound x y,
  text_eq_sound x o,
  text_eq_refl y,
)

pub set_delete-IsDistinct :
    (o : Text) (os : List Text) → IsDistinct os → IsDistinct (set_delete o os)
set_delete-IsDistinct o [] h = tt
set_delete-IsDistinct o (y ∷ os) h =
    ground (arith, set_delete-IsDistinct o os h.1, member-set_delete y o os h.1)

pub outpoints_of-index_add :
    (a b o : Text) (index : Dict (List Text))
    → outpoints_of a (index_add b o index)
      ≡ (if text_eq a b then set_add o (outpoints_of b index) else outpoints_of a index)
unfolding index_add
outpoints_of-index_add a b o index =
    ground (arith, lookup-insert a b (set_add o (outpoints_of b index)) index)

outpoints_of-put_back :
    (a b : Text) (os : List Text) (index : Dict (List Text))
    → IsDict index
    → outpoints_of a (put_back b os index) ≡ (if text_eq a b then os else outpoints_of a index)
outpoints_of-put_back a b [] index h =
    ground (arith, lookup-erase_self b index h, lookup-erase_ne a b index, text_eq_sound a b)
outpoints_of-put_back a b (o ∷ os) index h = ground (arith, lookup-insert a b (o ∷ os) index)

pub outpoints_of-index_remove :
    (a b o : Text) (index : Dict (List Text))
    → IsDict index
    → outpoints_of a (index_remove b o index)
      ≡ (if text_eq a b then set_delete o (outpoints_of b index) else outpoints_of a index)
unfolding index_remove
outpoints_of-index_remove a b o index h = elim (Option-cases (lookup b index)) [
  | inl n ↦ ground (arith, text_eq_sound a b)
  | inr (os, e) ↦ ground (arith, outpoints_of-put_back a b (set_delete o os) index h)
]

-- The sum of the amounts that belong to an address.
abbrev pub owned : Text → Dict Utxo → ℤ
owned a [] = pos 0
owned a ((o, u) ∷ d) = (if text_eq u.address a then u.amount else pos 0) +ℤ owned a d

pub sum_of-set_add :
    (o : Text) (os : List Text) (d : Dict Utxo)
    → member o os ≡ false
    → sum_of (set_add o os) d ≡ sum_of os d +ℤ amount_at o d
sum_of-set_add o [] d h = omega int_laws
sum_of-set_add o (y ∷ os) d h = grind (int_laws, sum_of-set_add o os d)

pub sum_of-set_delete :
    (o : Text) (os : List Text) (d : Dict Utxo)
    → member o os ≡ true
    → sum_of (set_delete o os) d +ℤ amount_at o d ≡ sum_of os d
sum_of-set_delete o [] d h = cc
sum_of-set_delete o (y ∷ os) d h = grind (int_laws, sum_of-set_delete o os d, text_eq_sound o y)

pub sum_of-insert :
    (o : Text) (u : Utxo) (os : List Text) (d : Dict Utxo)
    → member o os ≡ false
    → sum_of os (insert o u d) ≡ sum_of os d
sum_of-insert o u [] d h = refl
sum_of-insert o u (y ∷ os) d h =
    ground (arith, sum_of-insert o u os d, lookup-insert y o u d, text_eq_symm o y)

pub sum_of-erase :
    (o : Text) (os : List Text) (d : Dict Utxo)
    → member o os ≡ false
    → sum_of os (erase o d) ≡ sum_of os d
sum_of-erase o [] d h = refl
sum_of-erase o (y ∷ os) d h =
    ground (arith, sum_of-erase o os d, lookup-erase_ne y o d, text_eq_symm o y)

pub owned-insert :
    (a o : Text) (u : Utxo) (d : Dict Utxo)
    → lookup o d ≡ none
    → owned a (insert o u d) ≡ owned a d +ℤ (if text_eq u.address a then u.amount else pos 0)
owned-insert a o u [] h = omega int_laws
owned-insert a o u ((k, v) ∷ d) h = grind (int_laws, owned-insert a o u d)

pub owned-erase :
    (a o : Text) (u : Utxo) (d : Dict Utxo)
    → lookup o d ≡ some u
    → owned a (erase o d) +ℤ (if text_eq u.address a then u.amount else pos 0) ≡ owned a d
owned-erase a o u [] h = cc
owned-erase a o u ((k, v) ∷ d) h = grind (int_laws, owned-erase a o u d)
