-- ===== src/Sealing/Heights.antt =====
-- What follows from `isValid` (src/blockchain/block.js) along a chain of blocks.
use bt2c.Base.{◌+◌, ◌≤◌, ◌<◌, ◌≡◌, true, List, [], ◌∷◌, length, arith}
use bt2c.Base.Text.{Text}
use bt2c.Sealing.{SealedBlock, Services, is_valid_block}

-- Each block, with the public key of its validator, is valid after the one before it.
unfoldable pub IsChain : Services → SealedBlock → List (Text × SealedBlock) → Type 0
IsChain services g [] = Unit
IsChain services g ((key, b) ∷ bs) =
    (is_valid_block services g key b ≡ true) × IsChain services b bs

unfoldable pub tip : SealedBlock → List (Text × SealedBlock) → SealedBlock
tip g [] = g
tip g ((key, b) ∷ bs) = tip b bs

valid_step :
    (services : Services) (previous : SealedBlock) (key : Text) (b : SealedBlock)
    → is_valid_block services previous key b ≡ true
    → (b.height ≡ previous.height + 1) × (previous.timestamp < b.timestamp)
unfolding is_valid_block
valid_step services previous key b h = (ground (arith, h), ground (arith, h))

-- Along a chain of valid blocks the height of the last is the first one's plus the number of blocks,
-- and the time has passed by at least that number.
pub chain_heights :
    (services : Services) (g : SealedBlock) (bs : List (Text × SealedBlock))
    → IsChain services g bs
    → ((tip g bs).height ≡ g.height + length bs) × (g.timestamp + length bs ≤ (tip g bs).timestamp)
unfolding IsChain tip
chain_heights services g [] c = (omega arith, omega arith)
chain_heights services g ((key, b) ∷ bs) c =
    let v = valid_step services g key b c.0 in
    let r = chain_heights services b bs c.1 in (omega (arith, v.0, r.0), omega (arith, v.1, r.1))
