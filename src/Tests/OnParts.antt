-- ===== src/Tests/OnParts.antt =====
-- The theorems on accounts (src/blockchain/account.js) and Merkle roots (src/blockchain/block.js) at
-- concrete inputs.
use bt2c.Base.{suc, ◌≡◌, refl, some, List, [], ◌∷◌, arith, length}
use bt2c.Base.Int.{pos, ◌+ℤ◌}
use bt2c.Base.Text.{Text}
use bt2c.Holdings.{Holder}
use bt2c.Holdings.Books.{
  HolderCall, deposit_call, subtract_call, stake_call, act_all, inflows, IsCovered, holdings_kept,
}
use bt2c.Merkle.{push_last, calculate_merkle_root}
use bt2c.Merkle.Root.{merkle_root_returns, merkle_root_repeats}
use bt2c.Tests.{alice, bob, carol}

abbrev saver : Holder
saver = record {
  address = alice;
  balance = pos 10;
  nonce = 0;
  stake = pos 2;
  created_at = 0;
  last_updated = 0;
}

saver-IsCovered : IsCovered saver
saver-IsCovered = record { balance_low = omega arith; stake_low = omega arith }

abbrev moves : List HolderCall
moves = deposit_call 1 (pos 5) ∷ stake_call 2 (pos 9) ∷ subtract_call 3 (pos 50) ∷ []

holdings_kept_example :
    IsCovered (act_all moves saver)
    × ((act_all moves saver).balance +ℤ (act_all moves saver).stake
        ≡ pos 10 +ℤ pos 2 +ℤ inflows moves saver)
holdings_kept_example = holdings_kept moves saver saver-IsCovered

-- A hash for tests: the length of the text and its first byte.
abbrev tiny_hash : Text → Text
tiny_hash [] = 0 ∷ []
tiny_hash (c ∷ cs) = c ∷ suc (length cs) ∷ []

merkle_root_returns_example :
    (r : Text) × (calculate_merkle_root tiny_hash (alice ∷ bob ∷ carol ∷ []) ≡ some r)
merkle_root_returns_example = merkle_root_returns tiny_hash (alice ∷ bob ∷ carol ∷ [])

merkle_root_repeats_example :
    calculate_merkle_root tiny_hash (push_last (alice ∷ bob ∷ carol ∷ []))
    ≡ calculate_merkle_root tiny_hash (alice ∷ bob ∷ carol ∷ [])
merkle_root_repeats_example = merkle_root_repeats tiny_hash alice (bob ∷ carol ∷ []) refl
