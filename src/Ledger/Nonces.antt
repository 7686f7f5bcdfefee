-- ===== src/Ledger/Nonces.antt =====
-- Nonces and replay in src/blockchain/state_machine.js.
use native.Mathlib.Nat.{le_refl, le_trans}
use mathlib.Core.Path.{subst}
use bt2c.Base.{
  ℕ, ◌+◌, ◌≤◌, ◌≡◌, ◌≢◌, refl, sym, ap, ◌∙◌, false, Option, none, some, List, [], ◌∷◌, All, All-map,
  arith, if◌then◌else◌, Bool-cases, inl, inr,
}
use bt2c.Base.Text.{Text, text_eq, text_eq_sound, text_eq_refl}
use bt2c.Base.Dict.{Dict}
use bt2c.Ledger.Types.{Account, Transaction, Block, State, Message, accepted, rejected}
use bt2c.Ledger.Accounts.{ensure}
use bt2c.Ledger.Sums.{nonce_of, nonce_of-ensure}
use bt2c.Ledger.Steps.{Outcome-cases, apply_transactions_stop, apply_transactions_go, rewarded}
use bt2c.Ledger.Transfer.{accepted-Transfers}
use bt2c.Ledger.Rollback.{plain, apply_block_atomic}
use bt2c.Ledger.Supply.{nonce_of-rewarded}
use bt2c.Ledger.Blocks.{applied, closes, block_accepted}
use bt2c.Ledger.{sender_of, apply_transaction, apply_transactions, pre_validate, apply_block}

-- The nonce of an account never falls.
abbrev pub NoncesGrow : State → State → Type 0
NoncesGrow s s' = (j : Text) → nonce_of j s.accounts ≤ nonce_of j s'.accounts

-- What an accepted transaction says of the nonces.
nonces_accepted :
    (now : ℕ) (t : Transaction) (s : State) (h : Text)
    → (apply_transaction now (some t) s).1 ≡ accepted h
    → (t.nonce ≡ nonce_of (sender_of t) s.accounts + 1)
      × ((j : Text)
          → nonce_of j (apply_transaction now (some t) s).0.accounts
            ≡ (if text_eq j (sender_of t) then t.nonce else nonce_of j s.accounts))
nonces_accepted now t s h e =
    let (_, _, _, _, _, _, _, next, _, nonces, _) = accepted-Transfers now t s h e in (next, nonces)

grow_accepted :
    (now : ℕ) (t : Transaction) (s : State) (h : Text)
    → (apply_transaction now (some t) s).1 ≡ accepted h
    → NoncesGrow s (apply_transaction now (some t) s).0
grow_accepted now t s h e j =
    let (next, nonces) = nonces_accepted now t s h e in
    ground (arith, nonces j, text_eq_sound j (sender_of t))

grow_all :
    (now : ℕ) (ts : List Transaction) (s : State)
    → (apply_transactions now ts s).1 ≡ none
    → NoncesGrow s (apply_transactions now ts s).0
grow_all now [] s h j = unfold apply_transactions in omega arith
grow_all now (t ∷ ts) s h j = elim (Outcome-cases (apply_transaction now (some t) s).1) [
  | inl (m, e) ↦ cc (apply_transactions_stop now t ts s m e)
  | inr (g, e) ↦
      let s1 = (apply_transaction now (some t) s).0 in
      let step = apply_transactions_go now t ts s g e in
      rw step (
        omega (
          arith,
          grow_accepted now t s g e j,
          grow_all now ts s1 (ap (λ (r : State × Option Message). r.1) (sym step) ∙ h) j,
        ))
]

-- No transaction of the list has the sender `a`.
abbrev pub NoneFrom : Text → List Transaction → Type 0
NoneFrom a = All (λ t. text_eq (sender_of t) a ≡ false)

abbrev pub DistinctSenders : List Transaction → Type 0
DistinctSenders [] = Unit
DistinctSenders (t ∷ ts) = NoneFrom (sender_of t) ts × DistinctSenders ts

-- Each transaction carries the nonce after the one that its sender had in the accounts `d`.
abbrev Follows : Dict Account → List Transaction → Type 0
Follows d = All (λ t. t.nonce ≡ nonce_of (sender_of t) d + 1)

pre_validate-Follows :
    (now : ℕ) (ts : List Transaction) (d0 d : Dict Account)
    → ((j : Text) → nonce_of j d ≡ nonce_of j d0)
    → (pre_validate now ts d).1 ≡ none
    → Follows d0 ts
unfolding pre_validate
pre_validate-Follows now [] d0 d same h = tt
pre_validate-Follows now (t ∷ ts) d0 d same h =
    let d1 = ensure now (sender_of t) d in
    (
      ground (arith, same (sender_of t), nonce_of-ensure now (sender_of t) (sender_of t) d),
      pre_validate-Follows now ts d0 d1 (λ j. nonce_of-ensure now j (sender_of t) d ∙ same j)
          (ground arith),
    )

other_sender :
    (now : ℕ) (t u : Transaction) (d : Dict Account) (s : State) (h : Text)
    → (apply_transaction now (some t) s).1 ≡ accepted h
    → t.nonce ≡ nonce_of (sender_of t) d + 1
    → nonce_of (sender_of u) (apply_transaction now (some t) s).0.accounts
      ≡ nonce_of (sender_of u) d
    → (text_eq (sender_of u) (sender_of t) ≡ false)
      × (nonce_of (sender_of u) s.accounts ≡ nonce_of (sender_of u) d)
other_sender now t u d s h e f same =
    let (next, nonces) = nonces_accepted now t s h e in
    elim (Bool-cases (text_eq (sender_of u) (sender_of t))) [
      | inr n ↦ (n, ground (arith, nonces (sender_of u)))
      | inl y ↦
          absurd
            (clash (sender_of u) (text_eq_sound _ _ y) (sym same ∙ (nonces (sender_of u) ∙ rw y)))
    ]
  where
    clash : (a : Text) → a ≡ sender_of t → nonce_of a d ≡ t.nonce → ⊥
    clash a p q = omega (arith, f, q, ap (λ (c : Text). nonce_of c d) p)

senders_distinct :
    (now : ℕ) (ts : List Transaction) (d : Dict Account) (s : State)
    → ((j : Text) → nonce_of j d ≤ nonce_of j s.accounts)
    → Follows d ts
    → (apply_transactions now ts s).1 ≡ none
    → DistinctSenders ts
      × All (λ u. nonce_of (sender_of u) s.accounts ≡ nonce_of (sender_of u) d) ts
senders_distinct now [] d s above f h = (tt, tt)
senders_distinct now (t ∷ ts) d s above f h =
    elim (Outcome-cases (apply_transaction now (some t) s).1) [
      | inl (m, e) ↦ cc (apply_transactions_stop now t ts s m e)
      | inr (g, e) ↦
          let s1 : State = (apply_transaction now (some t) s).0 in
          let step = apply_transactions_go now t ts s g e in
          let grow : NoncesGrow s s1 = grow_accepted now t s g e in
          let ih =
            senders_distinct now ts d s1 (λ j. le_trans (above j) (grow j)) f.1
              (ap (λ (r : State × Option Message). r.1) (sym step) ∙ h) in
          let next = (nonces_accepted now t s g e).0 in
          (
            (All-map ts (λ u p. (other_sender now t u d s g e f.0 p).0) ih.1, ih.0),
            (
              ground (arith, next, f.0),
              All-map ts (λ u p. (other_sender now t u d s g e f.0 p).1) ih.1,
            ),
          )
    ]

same_list : (us ts : List Transaction) → some us ≡ some ts → us ≡ ts
same_list us ts e = cc

-- No block with two transactions of one sender is accepted: its transactions are checked against the
-- nonces before the block, and then again as they are applied.
pub block_senders_distinct :
    (now : ℕ) (b : Block) (ts : List Transaction) (s : State) (h : Text)
    → b.transactions ≡ some ts
    → (apply_block now (some b) s).1 ≡ accepted h
    → DistinctSenders ts
block_senders_distinct now b ts s h y e =
    let (us, y', ok, same) = block_accepted now b s h e in
    subst DistinctSenders (same_list us ts (sym y' ∙ y))
      (senders_distinct now us s.accounts (rewarded now b us s)
        (λ j. rw (nonce_of-rewarded now j b us s) (le_refl _))
        (pre_validate-Follows now us s.accounts s.accounts (λ j. refl) ok.validated)
        ok.all_applied).0

rejected_accounts :
    (now : ℕ) (b : Option Block) (s : State) (m : Message)
    → (apply_block now b s).1 ≡ rejected m
    → (apply_block now b s).0.accounts ≡ s.accounts
unfolding plain
rejected_accounts now b s m e = ap (λ (r : State). r.accounts) (apply_block_atomic now b s m e)

pub grow_block : (now : ℕ) (b : Option Block) (s : State) → NoncesGrow s (apply_block now b s).0
grow_block now none s j = unfold apply_block in le_refl _
grow_block now (some b) s j = elim (Outcome-cases (apply_block now (some b) s).1) [
  | inl (m, e) ↦ rw (rejected_accounts now (some b) s m e) (le_refl _)
  | inr (h, e) ↦
      let (ts, y, ok, same) = block_accepted now b s h e in
      rw same (
        unfold closes applied in
        subst (λ n. n ≤ nonce_of j (apply_transactions now ts (rewarded now b ts s)).0.accounts)
          (nonce_of-rewarded now j b ts s) (grow_all now ts (rewarded now b ts s) ok.all_applied j))
]

-- A chain of blocks, each with the clock at which it arrives.
unfoldable pub run_chain : List (ℕ × Option Block) → State → State
run_chain [] s = s
run_chain ((now, b) ∷ bs) s = run_chain bs (apply_block now b s).0

grow_chain : (bs : List (ℕ × Option Block)) (s : State) → NoncesGrow s (run_chain bs s)
unfolding run_chain
grow_chain [] s j = le_refl _
grow_chain ((now, b) ∷ bs) s j =
    le_trans (grow_block now b s j) (grow_chain bs (apply_block now b s).0 j)

-- A transaction that was accepted once is never accepted again, whatever blocks arrive in between.
pub no_replay :
    (now later : ℕ) (t : Transaction) (bs : List (ℕ × Option Block)) (s : State) (g h : Text)
    → (apply_transaction now (some t) s).1 ≡ accepted g
    → (apply_transaction later (some t) (run_chain bs (apply_transaction now (some t) s).0)).1
      ≢ accepted h
no_replay now later t bs s g h e again =
    let s1 : State = (apply_transaction now (some t) s).0 in
    let (first, nonces) = nonces_accepted now t s g e in
    let (second, _) = nonces_accepted later t (run_chain bs s1) h again in
    let own : nonce_of (sender_of t) s1.accounts ≡ t.nonce =
      nonces (sender_of t) ∙ rw (text_eq_refl (sender_of t)) in
    omega (arith, second, grow_chain bs s1 (sender_of t), own)
