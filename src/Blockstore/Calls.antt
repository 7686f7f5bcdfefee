-- ===== src/Blockstore/Calls.antt =====
-- Sequences of calls on the block store (src/storage/blockchain_store.js), reopening included.
use bt2c.Base.{
  ℕ, zero, suc, ◌≡◌, refl, ap, ◌∙◌, Bool, true, false, ◌&&◌, not, Option, none, some, List, [], ◌∷◌,
  ◌++◌, arith, Bool-cases, inl, inr, length, ◌==◌, if◌then◌else◌,
}
use bt2c.Base.Text.{Text, is_empty}
use bt2c.Base.Dict.{Dict}
use bt2c.Utxo.Types.{Utxo}
use bt2c.Blockstore.Types.{StoredBlock, Codec, Kept, Archive}
use bt2c.Blockstore.{
  new_archive, load_index, initialize, sync, close, expected_height, write_block, add_block,
  process_each, list_transactions, get_block_by_height, get_block_by_hash,
}
use bt2c.Blockstore.Sequence.{
  block_at, block_at-bounds, top, IsList, write_block-IsList, get_block-block_at,
  get_block-last_with, last_with,
}

-- The blocks that a list of blocks grows by: those that have a hash, and the next height.
abbrev is_height : ℕ → Option ℕ → Bool
is_height n none = false
is_height n (some h) = h == n

abbrev pub follows : ℕ → StoredBlock → Bool
follows n b = not (is_empty b.hash) && is_height n b.height

abbrev pub listed : StoredBlock → List StoredBlock → List StoredBlock
listed b bs = if follows (length bs) b then bs ++ (b ∷ []) else bs

expected_height-top : (n : ℕ) → expected_height (top n) ≡ n
expected_height-top zero = refl
expected_height-top (suc n) = omega arith

-- Only the file, its index, the height and the flag matter.
other_fields-IsList :
    (k : Codec) (bs : List StoredBlock) (s : Archive) (d : Dict Kept) (l : Dict (List Text))
    → IsList k bs s
    → IsList k bs (record s { kept_transactions = d; block_transactions = l })
other_fields-IsList k bs s d l i = record {
  opened = i.opened;
  height = i.height;
  extent = i.extent;
  hashed = i.hashed;
  placed = i.placed;
}

pub data Call : Type 0 where
  append : StoredBlock → Call
  save reopen : Call

module _ {ℓ} {S : Type ℓ} (spend : Text → ℕ → ℕ → S → S × Bool)
    (add : Text → ℕ → Utxo → ℕ → StoredBlock → S → S × Bool) (k : Codec) where
  add_refused :
      (n : ℕ) (b : StoredBlock) (s : Archive) (u : S)
      → expected_height s.current_height ≡ n
      → follows n b ≡ false
      → (add_block spend add k b (s, u)).0.0 ≡ s
  unfolding add_block
  add_refused n b s u e f = ground (arith, e, f)

  add_accepted :
      (n : ℕ) (b : StoredBlock) (s : Archive) (u : S)
      → s.is_open ≡ true
      → expected_height s.current_height ≡ n
      → follows n b ≡ true
      → (add_block spend add k b (s, u)).0.0 ≡ record (write_block k n b s) {
        kept_transactions = (process_each spend add n b b.transactions s.kept_transactions u).0;
        block_transactions =
            list_transactions b
              (process_each spend add n b b.transactions s.kept_transactions u).2
              s.block_transactions;
      }
  unfolding add_block
  add_accepted n b s u o e f = ground (arith, o, e, f)

  add_block-IsList :
      (b : StoredBlock) (bs : List StoredBlock) (s : Archive) (u : S)
      → k.decode (k.encode b) ≡ some b
      → IsList k bs s
      → IsList k (listed b bs) (add_block spend add k b (s, u)).0.0
  add_block-IsList b bs s u r i =
      let e : expected_height s.current_height ≡ length bs =
        ap expected_height i.height ∙ expected_height-top (length bs) in
      elim (Bool-cases (follows (length bs) b)) [
        | inl f ↦
            rw (f, add_accepted (length bs) b s u i.opened e f)
              (other_fields-IsList k (bs ++ (b ∷ [])) (write_block k (length bs) b s) _ _
                (write_block-IsList k b bs s r i))
        | inr f ↦ rw (f, add_refused (length bs) b s u e f) i
      ]

  -- A store that has been closed, and is opened again on its two files.
  unfoldable pub perform : Call → Archive × S → Archive × S
  perform (append b) r = (add_block spend add k b r).0
  perform save (s, u) = (sync s, u)
  perform reopen (s, u) =
      let c = close s in (initialize (new_archive c.blocks_file c.index_file), u)

  unfoldable pub run : List Call → Archive × S → Archive × S
  run [] r = r
  run (c ∷ cs) r = run cs (perform c r)

-- The blocks that are to be there after the calls.
abbrev pub kept_after : List Call → List StoredBlock → List StoredBlock
kept_after [] bs = bs
kept_after (append b ∷ cs) bs = kept_after cs (listed b bs)
kept_after (save ∷ cs) bs = kept_after cs bs
kept_after (reopen ∷ cs) bs = kept_after cs bs

sync-IsList :
    (k : Codec) (bs : List StoredBlock) (s : Archive) → IsList k bs s → IsList k bs (sync s)
unfolding sync
sync-IsList k bs s i = rw i.opened (record {
  opened = refl;
  height = i.height;
  extent = i.extent;
  hashed = i.hashed;
  placed = i.placed;
})

reopen-IsList :
    (k : Codec) (bs : List StoredBlock) (s : Archive)
    → IsList k bs s
    → IsList k bs (initialize (new_archive (close s).blocks_file (close s).index_file))
unfolding close sync initialize load_index new_archive
reopen-IsList k bs s i = rw i.opened (record {
  opened = refl;
  height = i.height;
  extent = i.extent;
  hashed = i.hashed;
  placed = i.placed;
})

new-IsList : (k : Codec) → IsList k [] (initialize (new_archive [] none))
unfolding initialize load_index new_archive
new-IsList k = record {
  opened = refl;
  height = refl;
  extent = refl;
  hashed = λ (x : Text). refl;
  placed = λ (h : ℕ) (b : StoredBlock) (e : block_at h [] ≡ some b).
      absurd (omega (arith, block_at-bounds h b [] e));
}

-- Every block that is appended can be read back from its bytes.
abbrev pub Readable : Codec → List Call → Type 0
Readable k [] = Unit
Readable k (append b ∷ cs) = (k.decode (k.encode b) ≡ some b) × Readable k cs
Readable k (save ∷ cs) = Readable k cs
Readable k (reopen ∷ cs) = Readable k cs

module _ {ℓ} {S : Type ℓ} (spend : Text → ℕ → ℕ → S → S × Bool)
    (add : Text → ℕ → Utxo → ℕ → StoredBlock → S → S × Bool) (k : Codec) where
  run-IsList :
      (cs : List Call) (bs : List StoredBlock) (s : Archive) (u : S)
      → Readable k cs
      → IsList k bs s
      → IsList k (kept_after cs bs) (run spend add k cs (s, u)).0
  unfolding run perform
  run-IsList [] bs s u r i = i
  run-IsList (append b ∷ cs) bs s u (r, q) i =
      run-IsList cs (listed b bs) _ (add_block spend add k b (s, u)).0.1 q
        (add_block-IsList spend add k b bs s u r i)
  run-IsList (save ∷ cs) bs s u r i = run-IsList cs bs (sync s) u r (sync-IsList k bs s i)
  run-IsList (reopen ∷ cs) bs s u r i = run-IsList cs bs _ u r (reopen-IsList k bs s i)

  -- Whatever blocks are appended to a new store, saved and reopened in between, and whatever the store of
  -- unspent outputs does, exceptions included: the store reads as the list that grows by those blocks only
  -- that have a hash and the next height. By a height it gives the block that stands there in the list, by
  -- a hash the last block with that hash, and nothing where there is none; the previous hash and the time of
  -- a block are not asked for. Each block appended is taken to be read back from its bytes.
  pub archive_is_list :
      (cs : List Call) (u : S) (h : ℕ) (x : Text)
      → Readable k cs
      → let s = (run spend add k cs (initialize (new_archive [] none), u)).0 in
        (get_block_by_height k h s ≡ block_at h (kept_after cs []))
        × (get_block_by_hash k x s ≡ last_with x (kept_after cs []))
  archive_is_list cs u h x r =
      let i = run-IsList cs [] _ u r (new-IsList k) in
      (
        get_block-block_at k h (kept_after cs []) _ i,
        get_block-last_with k x (kept_after cs []) _ i,
      )
