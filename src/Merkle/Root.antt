-- ===== src/Merkle/Root.antt =====
-- What `calculateMerkleRoot` of src/blockchain/block.js returns.
use bt2c.Base.{
  ℕ, zero, suc, ◌+◌, ◌%◌, ◌≤◌, ◌≡◌, ◌≢◌, refl, some, List, [], ◌∷◌, ◌++◌, length, arith,
}
use bt2c.Base.Text.{Text}
use bt2c.Merkle.{push_last, pad, pad_round, pair_up, merkle_loop, calculate_merkle_root}

length-push_last : (h : Text) (hs : List Text) → length (push_last (h ∷ hs)) ≡ suc (length (h ∷ hs))
unfolding push_last
length-push_last h [] = refl
length-push_last h (g ∷ hs) = omega (arith, length-push_last g hs)

module _ (hash : Text → Text) where
  length-pair_up :
      (hs : List Text) → length (pair_up hash hs) + length (pair_up hash hs) ≤ suc (length hs)
  unfolding pair_up
  length-pair_up [] = omega arith
  length-pair_up (h ∷ []) = omega arith
  length-pair_up (h ∷ g ∷ hs) = omega (arith, length-pair_up hs)

length-pad_round : (hs : List Text) → length (pad_round hs) ≤ suc (length hs)
unfolding pad_round
length-pad_round [] = omega arith
length-pad_round (h ∷ hs) = ground (arith, length-push_last h hs)

module _ (hash : Text → Text) where
  pad_round_more : (h g : Text) (hs : List Text) → pad_round (pair_up hash (h ∷ g ∷ hs)) ≢ []
  unfolding pad_round pair_up
  pad_round_more h g hs e = ground (arith, e, length-push_last (hash (h ++ g)) (pair_up hash hs))

  -- A round leaves a shorter list.
  round_shorter :
      (h g : Text) (hs : List Text)
      → length (pad_round (pair_up hash (h ∷ g ∷ hs))) ≤ suc (length hs)
  unfolding pad_round pair_up
  round_shorter h g hs =
      ground (arith, length-pair_up hash hs, length-push_last (hash (h ++ g)) (pair_up hash hs))

  loop_returns :
      (fuel : ℕ) (hs : List Text)
      → hs ≢ []
      → length hs ≤ suc fuel
      → (r : Text) × (merkle_loop hash fuel hs ≡ some r)
  unfolding merkle_loop
  loop_returns fuel [] n l = absurd (n refl)
  loop_returns fuel (h ∷ []) n l = (h, refl)
  loop_returns zero (h ∷ g ∷ hs) n l = absurd (omega (arith, l))
  loop_returns (suc fuel) (h ∷ g ∷ hs) n l =
      loop_returns fuel (pad_round (pair_up hash (h ∷ g ∷ hs))) (pad_round_more h g hs)
        (omega (arith, l, round_shorter h g hs))

push_last_more : (h : Text) (hs : List Text) → push_last (h ∷ hs) ≢ []
push_last_more h hs e = ground (arith, e, length-push_last h hs)

pad_more : (h : Text) (hs : List Text) → pad (h ∷ hs) ≢ []
unfolding pad
pad_more h hs e = ground (arith, e, push_last_more h hs)

root_of :
    (hash : Text → Text) (hs : List Text)
    → hs ≢ []
    → calculate_merkle_root hash hs ≡ merkle_loop hash (length (pad hs)) (pad hs)
unfolding calculate_merkle_root
root_of hash [] n = absurd (n refl)
root_of hash (h ∷ hs) n = refl

-- The loop ends for every list of transaction hashes: the method returns a root.
pub merkle_root_returns :
    (hash : Text → Text) (hs : List Text) → (r : Text) × (calculate_merkle_root hash hs ≡ some r)
unfolding calculate_merkle_root
merkle_root_returns hash [] = (hash [], refl)
merkle_root_returns hash (h ∷ hs) =
    loop_returns hash (length (pad (h ∷ hs))) (pad (h ∷ hs)) (pad_more h hs) (omega arith)

pad_odd : (hs : List Text) → length hs % 2 ≡ 1 → pad hs ≡ push_last hs
unfolding pad
pad_odd hs o = ground (arith, o)

pad_even : (hs : List Text) → length hs % 2 ≡ 0 → pad hs ≡ hs
unfolding pad
pad_even hs o = ground (arith, o)

-- An odd number of transactions has, under every hash function, the same root as the list in which
-- the last one is repeated: the root does not tell the two lists apart.
pub merkle_root_repeats :
    (hash : Text → Text) (h : Text) (hs : List Text)
    → length (h ∷ hs) % 2 ≡ 1
    → calculate_merkle_root hash (push_last (h ∷ hs)) ≡ calculate_merkle_root hash (h ∷ hs)
merkle_root_repeats hash h hs o =
    let twice = push_last (h ∷ hs) in
    let e : pad twice ≡ twice = pad_even twice (omega (arith, o, length-push_last h hs)) in
    let c : h ∷ hs ≢ [] = λ x. cc in
    rw (root_of hash twice (push_last_more h hs), root_of hash (h ∷ hs) c, e, pad_odd (h ∷ hs) o)
