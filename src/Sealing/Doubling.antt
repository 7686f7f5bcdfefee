-- ===== src/Sealing/Doubling.antt =====
-- A block of src/blockchain/block.js with its last transaction once more.
use bt2c.Base.{◌%◌, ◌≡◌, refl, ap, false, none, some, List, [], ◌∷◌, map, length, arith, Option}
use bt2c.Base.Text.{Text, text_eq}
use bt2c.Merkle.{push_last, calculate_merkle_root}
use bt2c.Merkle.Root.{merkle_root_repeats}
use bt2c.Sealing.{
  SealedTx, SealedBlock, Services, root_matches, verify_block_signature, all_valid, is_valid_block,
}

-- The last transaction twice.
abbrev pub repeat_last : List SealedTx → List SealedTx
repeat_last [] = []
repeat_last (t ∷ []) = t ∷ t ∷ []
repeat_last (t ∷ u ∷ ts) = t ∷ repeat_last (u ∷ ts)

abbrev hash_of : SealedTx → Text
hash_of tx = tx.hash

map-repeat_last : (ts : List SealedTx) → map hash_of (repeat_last ts) ≡ push_last (map hash_of ts)
unfolding push_last
map-repeat_last [] = refl
map-repeat_last (t ∷ []) = refl
map-repeat_last (t ∷ u ∷ ts) = ap (λ (hs : List Text). t.hash ∷ hs) (map-repeat_last (u ∷ ts))

length-map : (ts : List SealedTx) → length (map hash_of ts) ≡ length ts
length-map [] = refl
length-map (t ∷ ts) = ground (arith, length-map ts)

all_valid-repeat_last :
    (services : Services) (ts : List SealedTx)
    → all_valid services (repeat_last ts) ≡ all_valid services ts
unfolding all_valid
all_valid-repeat_last services [] = refl
all_valid-repeat_last services (t ∷ []) = ground arith
all_valid-repeat_last services (t ∷ u ∷ ts) =
    ground (arith, all_valid-repeat_last services (u ∷ ts))

root-repeat_last :
    (services : Services) (ts : List SealedTx)
    → length ts % 2 ≡ 1
    → calculate_merkle_root services.digest (map hash_of (repeat_last ts))
      ≡ calculate_merkle_root services.digest (map hash_of ts)
root-repeat_last services [] o = absurd (omega (arith, o))
root-repeat_last services (t ∷ ts) o =
    rw (map-repeat_last (t ∷ ts))
      (merkle_root_repeats services.digest t.hash (map hash_of ts) (rw (length-map (t ∷ ts)) o))

root_matches-repeat_last :
    (services : Services) (b : SealedBlock)
    → length b.transactions % 2 ≡ 1
    → root_matches services (record b { transactions = repeat_last b.transactions })
      ≡ root_matches services b
unfolding root_matches
root_matches-repeat_last services b o =
    ap (λ (r : Option Text). elim r [ none ↦ false | some root ↦ text_eq b.merkle_root root ])
      (root-repeat_last services b.transactions o)

-- A block with an odd number of transactions is valid exactly when the block with the same header, root,
-- hash and signature is that has the last transaction twice: neither the root nor the checks, which ask for
-- each transaction alone whether its sender can pay and has the nonce, tell them apart.
pub doubled_stays_valid :
    (services : Services) (previous : SealedBlock) (key : Text) (b : SealedBlock)
    → length b.transactions % 2 ≡ 1
    → is_valid_block services previous key (record b { transactions = repeat_last b.transactions })
      ≡ is_valid_block services previous key b
unfolding is_valid_block verify_block_signature
doubled_stays_valid services previous key b o =
    ground
      (arith, root_matches-repeat_last services b o, all_valid-repeat_last services b.transactions)
