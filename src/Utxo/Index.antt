-- ===== src/Utxo/Index.antt =====
-- The index of src/storage/utxo_store.js against the set that it indexes: the balance of an address.
use bt2c.Base.{
  ◌≡◌, ap, ◌∙◌, Bool, false, none, some, List, [], ◌∷◌, arith, Option-cases, Bool-cases, inl, inr,
  ◌+◌,
}
use bt2c.Base.Int.{ℤ, pos, pos_part, neg_part, ◌+ℤ◌, int_laws}
use bt2c.Base.Text.{Text, text_eq, text_eq_refl, text_eq_sound, text_eq_symm}
use bt2c.Base.Dict.{
  Dict, IsDict, lookup, insert, erase, lookup-insert, lookup-insert_self, lookup-erase_ne,
  lookup-erase_self, insert-IsDict, erase-IsDict,
}
use bt2c.Utxo.Types.{Utxo, Store}
use bt2c.Utxo.Sets.{
  IsDistinct, member-set_add, set_add-IsDistinct, member-set_delete, set_delete-IsDistinct,
  outpoints_of-index_add, outpoints_of-index_remove, owned, sum_of-set_add, sum_of-set_delete,
  sum_of-insert, sum_of-erase, owned-insert, owned-erase,
}
use bt2c.Utxo.{
  member, set_add, set_delete, outpoints_of, index_add, index_remove, put_back, sum_of, remember,
  forget,
}

-- The address of the output at an outpoint is `a`.
abbrev pub belongs : Text → Text → Dict Utxo → Bool
belongs a o d = elim (lookup o d) [ none ↦ false | some u ↦ text_eq u.address a ]

-- The index lists for each address the outpoints of its outputs, once each, and the loop of
-- `getBalance` over them gives the sum of the amounts that belong to the address.
pub record IsIndexed (s : Store) : Type 0 where
  pub keyed : IsDict s.utxo_set
  pub index_keyed : IsDict s.utxo_index
  pub listed : (a o : Text) → member o (outpoints_of a s.utxo_index) ≡ belongs a o s.utxo_set
  pub distinct : (a : Text) → IsDistinct (outpoints_of a s.utxo_index)
  pub exact : (a : Text) → sum_of (outpoints_of a s.utxo_index) s.utxo_set ≡ owned a s.utxo_set

put_back-IsDict :
    (b : Text) (os : List Text) (index : Dict (List Text))
    → IsDict index
    → IsDict (put_back b os index)
put_back-IsDict b [] index h = erase-IsDict b index h
put_back-IsDict b (o ∷ os) index h = insert-IsDict b (o ∷ os) index h

index_remove-IsDict :
    (b o : Text) (index : Dict (List Text)) → IsDict index → IsDict (index_remove b o index)
unfolding index_remove
index_remove-IsDict b o index h = elim (Option-cases (lookup b index)) [
  | inl n ↦ rw (n, index_remove) h
  | inr (os, e) ↦ rw (e, index_remove) (put_back-IsDict b (set_delete o os) index h)
]

plus_zero : (x : ℤ) → x +ℤ pos 0 ≡ x
plus_zero x = omega int_laws

cancel : (x y z w : ℤ) → x +ℤ z ≡ y → w +ℤ z ≡ y → x ≡ w
cancel x y z w e f = omega (int_laws, ap pos_part e, ap neg_part e, ap pos_part f, ap neg_part f)

module _ (o : Text) (u : Utxo) (s : Store) (i : IsIndexed s) where
  abbrev index : Dict (List Text)
  index = s.utxo_index

  abbrev set : Dict Utxo
  set = s.utxo_set

  module _ (fresh : lookup o set ≡ none) where
    unlisted : (a : Text) → member o (outpoints_of a index) ≡ false
    unlisted a = i.listed a o ∙ rw (fresh, belongs)

    remember-listed :
        (a x : Text)
        → member x (outpoints_of a (index_add u.address o index)) ≡ belongs a x (insert o u set)
    remember-listed a x = ground (
      arith,
      outpoints_of-index_add a u.address o index,
      member-set_add x o (outpoints_of u.address index),
      lookup-insert x o u set,
      text_eq_sound x o,
      i.listed u.address x,
      i.listed a x,
      text_eq_sound a u.address,
      text_eq_symm a u.address,
    )

    remember-exact :
        (a : Text)
        → sum_of (outpoints_of a (index_add u.address o index)) (insert o u set)
          ≡ owned a (insert o u set)
    remember-exact a = elim (Bool-cases (text_eq a u.address)) [
      | inl y ↦ ground (
        arith,
        ap (λ (os : List Text). sum_of os (insert o u set))
            (outpoints_of-index_add a u.address o index),
        sum_of-set_add o (outpoints_of u.address index) (insert o u set) (unlisted u.address),
        sum_of-insert o u (outpoints_of u.address index) set (unlisted u.address),
        i.exact u.address,
        lookup-insert_self o u set,
        owned-insert a o u set fresh,
        text_eq_sound a u.address,
        text_eq_symm a u.address,
      )
      | inr n ↦ ground (
        arith,
        ap (λ (os : List Text). sum_of os (insert o u set))
            (outpoints_of-index_add a u.address o index),
        sum_of-insert o u (outpoints_of a index) set (unlisted a),
        i.exact a,
        owned-insert a o u set fresh,
        plus_zero (owned a set),
        text_eq_symm a u.address,
      )
    ]

  module _ (there : lookup o set ≡ some u) where
    forget-listed :
        (a x : Text)
        → member x (outpoints_of a (index_remove u.address o index)) ≡ belongs a x (erase o set)
    forget-listed a x = ground (
      arith,
      outpoints_of-index_remove a u.address o index i.index_keyed,
      member-set_delete x o (outpoints_of u.address index) (i.distinct u.address),
      lookup-erase_ne x o set,
      lookup-erase_self o set i.keyed,
      i.listed u.address x,
      i.listed a x,
      there,
      text_eq_sound x o,
      text_eq_sound a u.address,
      text_eq_sound u.address a,
      text_eq_symm a u.address,
    )

    forget-exact :
        (a : Text)
        → sum_of (outpoints_of a (index_remove u.address o index)) (erase o set)
          ≡ owned a (erase o set)
    forget-exact a = elim (Bool-cases (text_eq a u.address)) [
      | inl y ↦
          cancel _ (owned a set) u.amount _
            (ground (
              arith,
              ap (λ (os : List Text). sum_of os (erase o set))
                  (outpoints_of-index_remove a u.address o index i.index_keyed),
              sum_of-erase o (set_delete o (outpoints_of u.address index)) set,
              member-set_delete o o (outpoints_of u.address index) (i.distinct u.address),
              text_eq_refl o,
              sum_of-set_delete o (outpoints_of u.address index) set,
              i.listed u.address o,
              text_eq_refl u.address,
              i.exact u.address,
              there,
              text_eq_sound a u.address,
            ))
            (ground (arith, owned-erase a o u set there, text_eq_symm a u.address))
      | inr n ↦ ground (
        arith,
        ap (λ (os : List Text). sum_of os (erase o set))
            (outpoints_of-index_remove a u.address o index i.index_keyed),
        sum_of-erase o (outpoints_of a index) set,
        i.listed a o,
        there,
        i.exact a,
        owned-erase a o u set there,
        plus_zero (owned a (erase o set)),
        text_eq_symm a u.address,
      )
    ]

forget_found :
    (o : Text) (u : Utxo) (s : Store)
    → lookup o s.utxo_set ≡ some u
    → forget o s ≡ record s {
      spent_outputs = set_add o s.spent_outputs;
      spent_utxo_count = s.spent_utxo_count + 1;
      utxo_set = erase o s.utxo_set;
      utxo_index = index_remove u.address o s.utxo_index;
    }
unfolding forget
forget_found o u s e = rw (e, forget)

-- Adding an output at an outpoint that the set does not hold keeps the index right.
pub remember-IsIndexed :
    (o : Text) (u : Utxo) (s : Store)
    → lookup o s.utxo_set ≡ none
    → IsIndexed s
    → IsIndexed (remember o u s)
unfolding remember
remember-IsIndexed o u s fresh i = record {
  keyed = insert-IsDict o u s.utxo_set i.keyed;
  index_keyed = unfold index_add in insert-IsDict u.address _ s.utxo_index i.index_keyed;
  listed = remember-listed o u s i fresh;
  distinct = λ a. rw outpoints_of-index_add (elim (Bool-cases (text_eq a u.address)) [
    | inl y ↦ rw y (set_add-IsDistinct o _ (i.distinct u.address))
    | inr n ↦ rw n (i.distinct a)
  ]);
  exact = remember-exact o u s i fresh;
}

-- Removing an output that the set holds keeps the index right.
pub forget-IsIndexed :
    (o : Text) (u : Utxo) (s : Store)
    → lookup o s.utxo_set ≡ some u
    → IsIndexed s
    → IsIndexed (forget o s)
forget-IsIndexed o u s there i = rw (forget_found o u s there) (record {
  keyed = erase-IsDict o s.utxo_set i.keyed;
  index_keyed = index_remove-IsDict u.address o s.utxo_index i.index_keyed;
  listed = forget-listed o u s i there;
  distinct = λ a.
      rw (outpoints_of-index_remove a u.address o s.utxo_index i.index_keyed)
        (elim (Bool-cases (text_eq a u.address)) [
          | inl y ↦ rw y (set_delete-IsDistinct o _ (i.distinct u.address))
          | inr n ↦ rw n (i.distinct a)
        ]);
  exact = forget-exact o u s i there;
})
