-- ===== src/Blockstore/Sequence.antt =====
-- The block store (src/storage/blockchain_store.js) as a list of blocks.
use mathlib.Core.List.{append_assoc, append-nil}
use bt2c.Base.{
  ℕ, zero, suc, ◌+◌, ◌≤◌, ◌<◌, ◌≡◌, ◌⊎◌, refl, sym, ap, ◌∙◌, true, false, Option, none, some, List,
  [], ◌∷◌, ◌++◌, arith, Option-cases, inl, inr, length, take, drop, take-length_append,
  drop-length_append, length-append, ◌==◌, if◌then◌else◌,
}
use bt2c.Base.Text.{Text, text_eq}
use bt2c.Blockstore.Types.{StoredBlock, Codec, Slot, Archive}
use bt2c.Base.Dict.{lookup, lookup-insert}
use bt2c.Blockstore.{
  get_block_by_hash, at_height, set_height, write_block, read_slot, is_above, get_block_by_height,
}

-- The n-th block of a list, from 0.
abbrev pub block_at : ℕ → List StoredBlock → Option StoredBlock
block_at n [] = none
block_at zero (b ∷ bs) = some b
block_at (suc n) (b ∷ bs) = block_at n bs

-- The number of the last block with this hash, the first block having the number `n`.
abbrev pub last_height : Text → ℕ → List StoredBlock → Option ℕ
last_height x n [] = none
last_height x n (b ∷ bs) = elim (last_height x (n + 1) bs) [
  | none ↦ if text_eq x b.hash then some n else none
  | some h ↦ some h
]

abbrev pub last_with : Text → List StoredBlock → Option StoredBlock
last_with x bs = elim (last_height x 0 bs) [ none ↦ none | some h ↦ block_at h bs ]

abbrev pub top : ℕ → Option ℕ
top zero = none
top (suc n) = some n

-- The bytes of the block stand in the file where the index says.
pub record IsPlaced (k : Codec) (h : ℕ) (b : StoredBlock) (file : Text) (index : List (ℕ × Slot))
    : Type 0 where
  pub before : Text
  pub after : Text
  pub readable : k.decode (k.encode b) ≡ some b
  pub cut : file ≡ before ++ (k.encode b ++ after)
  pub indexed :
      at_height h index ≡ some (record { position = length before; size = length (k.encode b) })

-- The archive holds these blocks, at the heights from 0 on.
pub record IsList (k : Codec) (bs : List StoredBlock) (s : Archive) : Type 0 where
  pub opened : s.is_open ≡ true
  pub height : s.current_height ≡ top (length bs)
  pub extent : s.file_position ≡ length s.blocks_file
  pub hashed : (x : Text) → lookup x s.block_hash_index ≡ last_height x 0 bs
  pub placed :
      (h : ℕ) (b : StoredBlock)
      → block_at h bs ≡ some b
      → IsPlaced k h b s.blocks_file s.block_index

at-set_height :
    (h g : ℕ) (x : Slot) (d : List (ℕ × Slot))
    → at_height h (set_height g x d) ≡ (if h == g then some x else at_height h d)
at-set_height h g x [] = refl
at-set_height h g x ((j, y) ∷ d) = ground (arith, at-set_height h g x d)

pub block_at-bounds :
    (h : ℕ) (b : StoredBlock) (bs : List StoredBlock) → block_at h bs ≡ some b → h < length bs
block_at-bounds h b [] e = cc
block_at-bounds zero b (c ∷ bs) e = omega arith
block_at-bounds (suc h) b (c ∷ bs) e = omega (arith, block_at-bounds h b bs e)

block_at-none : (h : ℕ) (bs : List StoredBlock) → block_at h bs ≡ none → length bs ≤ h
block_at-none h [] e = omega arith
block_at-none zero (c ∷ bs) e = cc
block_at-none (suc h) (c ∷ bs) e = omega (arith, block_at-none h bs e)

-- A list with one more block: the last one, or one of those before.
block_at-append :
    (h : ℕ) (b c : StoredBlock) (bs : List StoredBlock)
    → block_at h (bs ++ (c ∷ [])) ≡ some b
    → ((h ≡ length bs) × (c ≡ b)) ⊎ ((h < length bs) × (block_at h bs ≡ some b))
block_at-append zero b c [] e = inl (refl, ground (arith, e))
block_at-append (suc h) b c [] e = cc
block_at-append zero b c (d ∷ bs) e = inr (omega arith, e)
block_at-append (suc h) b c (d ∷ bs) e = elim (block_at-append h b c bs e) [
  | inl (p, q) ↦ inl (omega (arith, p), q)
  | inr (p, q) ↦ inr (omega (arith, p), q)
]

last_height-append :
    (x : Text) (n : ℕ) (c : StoredBlock) (bs : List StoredBlock)
    → last_height x n (bs ++ (c ∷ []))
      ≡ (if text_eq x c.hash then some (n + length bs) else last_height x n bs)
last_height-append x n c [] = ground arith
last_height-append x n c (b ∷ bs) = ground (arith, last_height-append x (n + 1) c bs)

-- More bytes at the end and a slot for another height leave a block in its place.
still-IsPlaced :
    (k : Codec) (h g : ℕ) (b : StoredBlock) (file more : Text) (x : Slot) (index : List (ℕ × Slot))
    → h < g
    → IsPlaced k h b file index
    → IsPlaced k h b (file ++ more) (set_height g x index)
still-IsPlaced k h g b file more x index n p = record {
  before = p.before;
  readable = p.readable;
  after = p.after ++ more;
  cut = rw p.cut (simp append_assoc);
  indexed = ground (arith, n, p.indexed, at-set_height h g x index);
}

new-IsPlaced :
    (k : Codec) (h : ℕ) (b : StoredBlock) (file : Text) (index : List (ℕ × Slot))
    → k.decode (k.encode b) ≡ some b
    → IsPlaced k h b
        (file ++ k.encode b)
        (set_height h (record { position = length file; size = length (k.encode b) }) index)
new-IsPlaced k h b file index r = record {
  readable = r;
  before = file;
  after = [];
  cut = ap (λ (t : Text). file ++ t) (sym (append-nil (k.encode b)));
  indexed = ground (
    arith,
    at-set_height h h (record { position = length file; size = length (k.encode b) }) index,
  );
}

cut_out :
    (before x after file : Text)
    → file ≡ before ++ (x ++ after)
    → take (length x) (drop (length before) file) ≡ x
cut_out before x after file e =
    rw (e, drop-length_append before (x ++ after), take-length_append x after) refl

slot_placed :
    (k : Codec) (h : ℕ) (b : StoredBlock) (s : Archive)
    (p : IsPlaced k h b s.blocks_file s.block_index)
    → s.is_open ≡ true
    → read_slot k (record { position = length p.before; size = length (k.encode b) }) s ≡ some b
unfolding read_slot
slot_placed k h b s p o =
    rw o (ap k.decode (cut_out p.before (k.encode b) p.after s.blocks_file p.cut) ∙ p.readable)

read_placed :
    (k : Codec) (h : ℕ) (b : StoredBlock) (s : Archive)
    → s.is_open ≡ true
    → is_above h s.current_height ≡ false
    → IsPlaced k h b s.blocks_file s.block_index
    → get_block_by_height k h s ≡ some b
unfolding get_block_by_height
read_placed k h b s o u p = rw (u, p.indexed) (slot_placed k h b s p o)

is_above-top : (h n : ℕ) → h < n → is_above h (top n) ≡ false
is_above-top h zero l = absurd (omega (arith, l))
is_above-top h (suc n) l = ground (arith, l)

is_above-beyond : (h n : ℕ) → n ≤ h → is_above h (top n) ≡ true
is_above-beyond h zero l = refl
is_above-beyond h (suc n) l = ground (arith, l)

get_above :
    (k : Codec) (h : ℕ) (s : Archive)
    → is_above h s.current_height ≡ true
    → get_block_by_height k h s ≡ none
unfolding get_block_by_height
get_above k h s u = rw u refl

-- Reading by height is reading the list.
pub get_block-block_at :
    (k : Codec) (h : ℕ) (bs : List StoredBlock) (s : Archive)
    → IsList k bs s
    → get_block_by_height k h s ≡ block_at h bs
get_block-block_at k h bs s i = elim (Option-cases (block_at h bs)) [
  | inl e ↦
      get_above k h s (rw i.height (is_above-beyond h (length bs) (block_at-none h bs e))) ∙ sym e
  | inr (b, e) ↦
      read_placed k h b s i.opened
        (rw i.height (is_above-top h (length bs) (block_at-bounds h b bs e))) (i.placed h b e)
      ∙ sym e
]

-- Reading by hash is looking for the last block with that hash.
pub get_block-last_with :
    (k : Codec) (x : Text) (bs : List StoredBlock) (s : Archive)
    → IsList k bs s
    → get_block_by_hash k x s ≡ last_with x bs
unfolding get_block_by_hash
get_block-last_with k x bs s i = elim (Option-cases (last_height x 0 bs)) [
  | inl e ↦ rw (get_block_by_hash, i.hashed x, e, last_with) refl
  | inr (h, e) ↦ rw (get_block_by_hash, i.hashed x, e, last_with) (get_block-block_at k h bs s i)
]

top_next : (n : ℕ) → some n ≡ top (n + 1)
top_next n = let e : suc n ≡ n + 1 = omega arith in ap top e

pub write_block-IsList :
    (k : Codec) (b : StoredBlock) (bs : List StoredBlock) (s : Archive)
    → k.decode (k.encode b) ≡ some b
    → IsList k bs s
    → IsList k (bs ++ (b ∷ [])) (write_block k (length bs) b s)
unfolding write_block
write_block-IsList k b bs s r i = record {
  opened = i.opened;
  height = rw (length-append bs (b ∷ [])) (top_next (length bs));
  hashed = λ (x : Text). grind (
    arith,
    i.hashed x,
    lookup-insert x b.hash (length bs) s.block_hash_index,
    last_height-append x 0 b bs,
  );
  extent = omega (arith, i.extent, length-append s.blocks_file (k.encode b));
  placed = λ (h : ℕ) (c : StoredBlock) (e : block_at h (bs ++ (b ∷ [])) ≡ some c).
      elim (block_at-append h c b bs e) [
        | inl (p, q) ↦
            rw (p, ← q, i.extent) (new-IsPlaced k (length bs) b s.blocks_file s.block_index r)
        | inr (p, q) ↦
            still-IsPlaced k h (length bs) c s.blocks_file (k.encode b) _ s.block_index p
              (i.placed h c q)
      ];
}
