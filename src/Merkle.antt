-- ===== src/Merkle.antt =====
-- `calculateMerkleRoot` of src/blockchain/block.js. The hash function of src/crypto/utils.js, which
-- calls a third-party library, is a parameter; strings are joined by `+`.
pub mod Root
use bt2c.Base.{
  ℕ, zero, suc, ◌+◌, ◌%◌, Bool, true, false, ◌&&◌, Option, none, some, List, [], ◌∷◌, ◌++◌, map,
  length, ltb, leb, ◌==◌, if◌then◌else◌,
}
use bt2c.Base.Text.{Text}

-- What `+` joins for an element past the end: the text "undefined".
abbrev pub undefined : Text
undefined = 117 ∷ 110 ∷ 100 ∷ 101 ∷ 102 ∷ 105 ∷ 110 ∷ 101 ∷ 100 ∷ []

-- `hashes.push(hashes[hashes.length - 1])`, on a list that is not empty.
unfoldable pub push_last : List Text → List Text
push_last [] = []
push_last (h ∷ []) = h ∷ h ∷ []
push_last (h ∷ g ∷ hs) = h ∷ push_last (g ∷ hs)

-- The two paddings: before the loop, and at the end of a round.
unfoldable pub pad : List Text → List Text
pad hs = if length hs % 2 == 1 then push_last hs else hs

unfoldable pub pad_round : List Text → List Text
pad_round hs = if (length hs % 2 == 1) && ltb 1 (length hs) then push_last hs else hs

module _ (hash : Text → Text) where
  -- The loop over the pairs.
  unfoldable pub pair_up : List Text → List Text
  pair_up [] = []
  pair_up (h ∷ []) = hash (h ++ undefined) ∷ []
  pair_up (h ∷ g ∷ hs) = hash (h ++ g) ∷ pair_up hs

  -- The `while` loop on fuel; `none` marks a loop that was cut off.
  unfoldable pub merkle_loop : ℕ → List Text → Option Text
  merkle_loop fuel [] = none
  merkle_loop fuel (h ∷ []) = some h
  merkle_loop zero (h ∷ g ∷ hs) = none
  merkle_loop (suc fuel) (h ∷ g ∷ hs) = merkle_loop fuel (pad_round (pair_up (h ∷ g ∷ hs)))

  -- On the hashes of the block's transactions.
  unfoldable pub calculate_merkle_root : List Text → Option Text
  calculate_merkle_root [] = some (hash [])
  calculate_merkle_root (h ∷ hs) = merkle_loop (length (pad (h ∷ hs))) (pad (h ∷ hs))
