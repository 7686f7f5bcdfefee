-- ===== src/Manager/Filing.antt =====
-- The map of src/blockchain/validator_manager.js: each validator stands under its own address.
use bt2c.Base.{
  ◌≡◌, refl, ◌∙◌, Bool, true, none, some, List, [], ◌∷◌, arith, by_test, All, All-map,
  if◌then◌else◌,
}
use bt2c.Base.Int.{ℤ, pos}
use bt2c.Base.Text.{Text, text_eq, text_eq_sound, text_eq_refl}
use bt2c.Base.Dict.{Dict, lookup, insert, erase, IsDict, insert-IsDict, erase-IsDict}
use bt2c.Validator.{Validator}
use bt2c.Manager.Types.{Reals}
use bt2c.Manager.{values_of, each_value}
use bt2c.Manager.Choice.{calculate_selection_probability, cumulate, normalize, pick, choose}

abbrev pub IsFiled : Dict Validator → Type 0
IsFiled d = IsDict d × All (λ (e : Text × Validator). e.1.address ≡ e.0) d

insert-addresses :
    (a : Text) (w : Validator) (d : Dict Validator)
    → w.address ≡ a
    → All (λ (e : Text × Validator). e.1.address ≡ e.0) d
    → All (λ (e : Text × Validator). e.1.address ≡ e.0) (insert a w d)
insert-addresses a w [] h k = (h, tt)
insert-addresses a w ((i, v) ∷ d) h k =
    by_test (All (λ (e : Text × Validator). e.1.address ≡ e.0)) (text_eq a i) ((i, w) ∷ d)
      ((i, v) ∷ insert a w d) (λ q. (h ∙ text_eq_sound a i q, k.1))
      (λ q. (k.0, insert-addresses a w d h k.1))

pub insert-IsFiled :
    (a : Text) (w : Validator) (d : Dict Validator)
    → w.address ≡ a
    → IsFiled d
    → IsFiled (insert a w d)
insert-IsFiled a w d h k = (insert-IsDict a w d k.0, insert-addresses a w d h k.1)

erase-addresses :
    (a : Text) (d : Dict Validator)
    → All (λ (e : Text × Validator). e.1.address ≡ e.0) d
    → All (λ (e : Text × Validator). e.1.address ≡ e.0) (erase a d)
erase-addresses a [] k = tt
erase-addresses a ((i, v) ∷ d) k =
    by_test (All (λ (e : Text × Validator). e.1.address ≡ e.0)) (text_eq a i) d ((i, v) ∷ erase a d)
      (λ q. k.1) (λ q. (k.0, erase-addresses a d k.1))

pub erase-IsFiled : (a : Text) (d : Dict Validator) → IsFiled d → IsFiled (erase a d)
erase-IsFiled a d k = (erase-IsDict a d k.0, erase-addresses a d k.1)

lookup-each_none :
    (f : Validator → Validator) (a : Text) (d : Dict Validator)
    → lookup a d ≡ none
    → lookup a (each_value f d) ≡ none
lookup-each_none f a [] h = refl
lookup-each_none f a ((i, v) ∷ d) h = ground (arith, h, lookup-each_none f a d)

pub each_value-IsFiled :
    (f : Validator → Validator) (d : Dict Validator)
    → ((v : Validator) → (f v).address ≡ v.address)
    → IsFiled d
    → IsFiled (each_value f d)
each_value-IsFiled f [] h k = k
each_value-IsFiled f ((a, v) ∷ d) h k =
    let (u, x) = each_value-IsFiled f d h (k.0.1, k.1.1) in
    ((lookup-each_none f a d k.0.0, u), (h v ∙ k.1.0, x))

pub lookup-filed :
    (a : Text) (v : Validator) (d : Dict Validator)
    → IsFiled d
    → lookup a d ≡ some v
    → v.address ≡ a
lookup-filed a v [] k l = cc
lookup-filed a v ((i, w) ∷ d) k l =
    ground (arith, l, k.1.0, text_eq_sound a i, lookup-filed a v d (k.0.1, k.1.1))

-- Every validator of the map is found under its address.
abbrev pub IsStored : Dict Validator → Validator → Type 0
IsStored d v = lookup v.address d ≡ some v

IsStored-deeper :
    (a : Text) (v w : Validator) (d : Dict Validator)
    → lookup a d ≡ none
    → IsStored d w
    → IsStored ((a, v) ∷ d) w
IsStored-deeper a v w d n s = ground (arith, n, s, text_eq_sound w.address a)

IsStored-first :
    (a : Text) (v : Validator) (d : Dict Validator) → v.address ≡ a → IsStored ((a, v) ∷ d) v
IsStored-first a v d h = rw h (rw (text_eq_refl a) refl)

pub values_of-IsStored :
    (f : Validator → Bool) (d : Dict Validator) → IsFiled d → All (IsStored d) (values_of f d)
values_of-IsStored f [] k = tt
values_of-IsStored f ((a, v) ∷ d) k =
    let rest =
      All-map (values_of f d) (λ (w : Validator). IsStored-deeper a v w d k.0.0)
        (values_of-IsStored f d (k.0.1, k.1.1)) in
    by_test (All (IsStored ((a, v) ∷ d))) (f v) _ _ (λ q. (IsStored-first a v d k.1.0, rest))
      (λ q. rest)

pub values_of-chosen :
    (f : Validator → Bool) (d : Dict Validator)
    → All (λ (v : Validator). f v ≡ true) (values_of f d)
values_of-chosen f [] = tt
values_of-chosen f ((a, v) ∷ d) =
    by_test (All (λ (w : Validator). f w ≡ true)) (f v) _ _ (λ q. (q, values_of-chosen f d))
      (λ q. values_of-chosen f d)

-- What holds of the candidates holds of the one picked.
pick-All {ℓ} :
    (r : Reals) (P : Validator → Type ℓ) (x : r.Real) (v : Validator)
    (ps : List (Validator × r.Real))
    → P v
    → All (λ (p : Validator × r.Real). P p.0) ps
    → P (pick r x v ps)
pick-All r P x v [] h k = h
pick-All r P x v ((w, p) ∷ ps) h k =
    by_test P (r.at_most x p) _ _ (λ q. k.0) (λ q. pick-All r P x v ps h k.1)

cumulate-All {ℓ} :
    (r : Reals) (P : Validator → Type ℓ) (t : ℤ) (vs : List Validator) (c : r.Real)
    → All P vs
    → All (λ (p : Validator × r.Real). P p.0) (cumulate r t c vs).0
cumulate-All r P t [] c k = tt
cumulate-All r P t (v ∷ vs) c k =
    (k.0, cumulate-All r P t vs (r.plus c (calculate_selection_probability r t v)) k.1)

normalize-All {ℓ} :
    (r : Reals) (P : Validator → Type ℓ) (c : r.Real) (ps : List (Validator × r.Real))
    → All (λ (p : Validator × r.Real). P p.0) ps
    → All (λ (p : Validator × r.Real). P p.0) (normalize r c ps)
normalize-All r P c [] k = tt
normalize-All r P c (p ∷ ps) k = (k.0, normalize-All r P c ps k.1)

-- Whatever the floating-point numbers do, one of the candidates is chosen, if there is any.
pub choose-All {ℓ} :
    (r : Reals) (P : Validator → Type ℓ) (x : r.Real) (t : ℤ) (v : Validator) (vs : List Validator)
    → All P (v ∷ vs)
    → (w : Validator) × (choose r x t (v ∷ vs) ≡ some w) × P w
unfolding choose
choose-All r P x t v vs k =
    let zero = r.number (pos 0) in
    let (sums, last) = cumulate r t zero (v ∷ vs) in
    let j = cumulate-All r P t (v ∷ vs) zero k in
    let ps = if r.less zero last then normalize r last sums else sums in
    let kept : All (λ (p : Validator × r.Real). P p.0) ps =
      by_test (All (λ (p : Validator × r.Real). P p.0)) (r.less zero last) _ _
        (λ q. normalize-All r P last sums j) (λ q. j) in
    (pick r x v ps, refl, pick-All r P x v ps k.0 kept)
