-- ===== src/Checkpoint/MockAnchor.antt =====
-- internal/checkpoint/mock_anchor.go: an anchor that hands out one receipt for each commitment.
use storage_aware_hmfaudit.Prelude.{
  ℕ, suc, ◌+◌, ◌-◌, ◌/◌, ◌%◌, ◌^◌, ◌<◌, ◌≡◌, inl, inr, refl, ap, ◌∙◌, subst, Bool, true, false, [],
  ◌∷◌, ◌++◌, length, ltb, if◌then◌else◌, Bool-cases, Option-cases, Option, none, some, arith, ℤ,
  pos, ltb_ℤ, leb_ℤ, next_int64, Result, ok, err, Yields, Assoc, lookup, insert, lookup-insert,
  ◌=?◌, list_eq, nat_eq, int_eq,
}
use storage_aware_hmfaudit.Crypto.{Bytes, Hash, Sha256}
use storage_aware_hmfaudit.Checkpoint.Types.{Time, is_zero, AnchorReceipt, PortError, failed}
use storage_aware_hmfaudit.Checkpoint.Validate.{validate_receipt}

pub record MockAnchor : Type 0 where
  pub next_block : ℤ
  pub receipts : Assoc Hash AnchorReceipt
  pub commit_count : ℤ

-- `NewMockAnchor`
unfoldable pub new_mock_anchor : ℤ → MockAnchor
new_mock_anchor start = record {
  next_block = if ltb_ℤ start (pos 0) then pos 0 else start;
  receipts = [];
  commit_count = pos 0;
}

abbrev hex_digit : ℕ → ℕ
hex_digit n = if ltb n 10 then b'0' + n else b'a' + (n - 10)

-- `hex.EncodeToString`
abbrev hex_encode : Bytes → Bytes
hex_encode [] = []
hex_encode (b ∷ bs) = hex_digit (b / 16) ∷ hex_digit (b % 16) ∷ hex_encode bs

abbrev transaction_prefix : Bytes
transaction_prefix = b'M' ∷ b'O' ∷ b'C' ∷ b'K' ∷ b'_' ∷ b'E' ∷ b'T' ∷ b'H' ∷ b'_' ∷ b'T' ∷ b'X' ∷ []

-- `Receipt`
unfoldable pub receipt : MockAnchor → Hash → Option AnchorReceipt
receipt anchor commitment = lookup commitment anchor.receipts

module _ ⦃sha : Sha256⦄ where
  -- The receipt of a commitment that is new.
  unfoldable pub new_receipt : MockAnchor → Time → Hash → AnchorReceipt
  new_receipt anchor now commitment = record {
    transaction_hash = b'0' ∷ b'x' ∷ hex_encode (sha.sum (transaction_prefix ++ commitment));
    block_height = anchor.next_block;
    anchored_at = now;
  }

  -- `Commit`, at the time `now`; `cancelled` says that the context is done.
  unfoldable pub commit :
      Bool → Time → MockAnchor → Hash → Result PortError AnchorReceipt × MockAnchor
  unfolding new_receipt
  commit cancelled now anchor commitment =
      if cancelled then (err failed, anchor) else elim (lookup commitment anchor.receipts) [
        | some known ↦ (ok known, anchor)
        | none ↦ (
          ok (new_receipt anchor now commitment),
          record {
            next_block = next_int64 anchor.next_block;
            receipts = insert commitment (new_receipt anchor now commitment) anchor.receipts;
            commit_count = next_int64 anchor.commit_count;
          },
        )
      ]

  -- The anchor after a new commitment.
  abbrev grown : MockAnchor → Time → Hash → MockAnchor
  grown anchor now commitment = record {
    next_block = next_int64 anchor.next_block;
    receipts = insert commitment (new_receipt anchor now commitment) anchor.receipts;
    commit_count = next_int64 anchor.commit_count;
  }

  commit-new :
      (t : Time) (anchor : MockAnchor) (commitment : Hash)
      → lookup commitment anchor.receipts ≡ none
      → commit false t anchor commitment
        ≡ (ok (new_receipt anchor t commitment), grown anchor t commitment)
  unfolding commit
  commit-new t anchor commitment new = rw new

  commit-known :
      (t : Time) (anchor : MockAnchor) (commitment : Hash) (r : AnchorReceipt)
      → lookup commitment anchor.receipts ≡ some r
      → commit false t anchor commitment ≡ (ok r, anchor)
  unfolding commit
  commit-known t anchor commitment r known = rw known

  -- A commitment that was committed is committed again at no cost: whenever the second call is made,
  -- it returns the receipt of the first and changes nothing. Both contexts are live.
  pub commit_idempotent :
      (t t' : Time) (anchor : MockAnchor) (commitment : Hash)
      → let first = commit false t anchor commitment in
        (receipt first.1 commitment ≡ (elim first.0 [ ok r ↦ some r | err e ↦ none ]))
        × (commit false t' first.1 commitment ≡ first)
  unfolding receipt
  commit_idempotent t t' anchor commitment =
      elim (Option-cases (lookup commitment anchor.receipts)) [
        | inl new ↦
            let made = new_receipt anchor t commitment in
            let own : (commitment =? commitment) ≡ true =
              (list_eq.beq_iff commitment commitment).1 refl in
            let found : lookup commitment (insert commitment made anchor.receipts) ≡ some made =
              lookup-insert commitment commitment made anchor.receipts ∙ (rw own) in
            rw (commit-new t anchor commitment new)
              (found, commit-known t' (grown anchor t commitment) commitment made found)
        | inr (known, found) ↦
            rw (commit-known t anchor commitment known found)
              (found, commit-known t' anchor commitment known found)
      ]

-- The receipts of a map are numbered from `start` by block height, and each is a valid one.
abbrev pub IsNumbered : ℕ → Assoc Hash AnchorReceipt → Type 0
IsNumbered start [] = Unit
IsNumbered start ((k, r) ∷ rest) =
    (r.block_height ≡ pos start) × (validate_receipt r ≡ ok tt) × IsNumbered (suc start) rest

-- The anchor that began at block `start` has counted every receipt.
pub record IsLedger (start : ℕ) (anchor : MockAnchor) : Type 0 where
  pub numbered : IsNumbered start anchor.receipts
  pub next : anchor.next_block ≡ pos (start + length anchor.receipts)
  pub count : anchor.commit_count ≡ pos (length anchor.receipts)

insert-IsNumbered :
    (start : ℕ) (k : Hash) (r : AnchorReceipt) (m : Assoc Hash AnchorReceipt)
    → lookup k m ≡ none
    → IsNumbered start m
    → r.block_height ≡ pos (start + length m)
    → validate_receipt r ≡ ok tt
    → IsNumbered start (insert k r m) × (length (insert k r m) ≡ suc (length m))
unfolding lookup insert
insert-IsNumbered start k r [] new h e v = ((e ∙ ap pos (omega arith), v, tt), refl)
insert-IsNumbered start k r ((j, q) ∷ m) new (a, b, c) e v = elim (Bool-cases (j =? k)) [
  | inl same ↦ absurd (ground arith)
  | inr other ↦
      let (d, n) =
        insert-IsNumbered (suc start) k r m (rw other at new) c (e ∙ ap pos (omega arith)) v in
      rw other ((a, b, d), ap suc n)
]

IsNumbered-validate :
    (start : ℕ) (k : Hash) (m : Assoc Hash AnchorReceipt) (r : AnchorReceipt)
    → IsNumbered start m
    → lookup k m ≡ some r
    → validate_receipt r ≡ ok tt
unfolding lookup
IsNumbered-validate start k [] r h e = cc
IsNumbered-validate start k ((j, q) ∷ m) r (a, b, c) e = elim (Bool-cases (j =? k)) [
  | inl same ↦
      let same' : q ≡ r = cc (rw same at e) in subst (λ x. validate_receipt x ≡ ok tt) same' b
  | inr other ↦ IsNumbered-validate (suc start) k m r c (rw other at e)
]

step : {v : ℤ} {n : ℕ} → v ≡ pos n → n + 1 < 2 ^ 63 → next_int64 v ≡ pos (n + 1)
step e h = rw e (ground arith)

-- A new anchor has no receipts.
pub new_mock_anchor-IsLedger : (start : ℕ) → IsLedger start (new_mock_anchor (pos start))
unfolding new_mock_anchor
new_mock_anchor-IsLedger start = record { numbered = tt; next = ground arith; count = refl }

module _ ⦃sha : Sha256⦄ where
  new_receipt-validate :
      (anchor : MockAnchor) (now : Time) (commitment : Hash) (n : ℕ)
      → anchor.next_block ≡ pos n
      → is_zero now ≡ false
      → validate_receipt (new_receipt anchor now commitment) ≡ ok tt
  unfolding new_receipt validate_receipt
  new_receipt-validate anchor now commitment n e clock =
      let height : leb_ℤ (pos 0) anchor.next_block ≡ true = rw e (ground arith) in
      rw (height, clock)

  -- While block numbers stay in range and the clock is not zero, a call with a live context returns
  -- a valid receipt, and the receipts stay numbered without gaps: no two commitments share a height.
  pub commit-IsLedger :
      (start : ℕ) (now : Time) (anchor : MockAnchor) (commitment : Hash)
      → IsLedger start anchor
      → is_zero now ≡ false
      → start + length anchor.receipts + 1 < 2 ^ 63
      → let done = commit false now anchor commitment in
        Yields (λ r. validate_receipt r ≡ ok tt) done.0 × IsLedger start done.1
  unfolding new_receipt
  commit-IsLedger start now anchor commitment v clock room =
      elim (Option-cases (lookup commitment anchor.receipts)) [
        | inl new ↦
            let valid = new_receipt-validate anchor now commitment _ v.next clock in
            let (numbered, size) =
              insert-IsNumbered start commitment (new_receipt anchor now commitment) anchor.receipts
                new v.numbered v.next valid in
            rw (commit-new now anchor commitment new) (
              valid,
              record {
                numbered = numbered;
                next = step v.next (omega arith) ∙ ap pos (omega (arith, size));
                count = step v.count (omega arith) ∙ ap pos (omega (arith, size));
              },
            )
        | inr (known, found) ↦
            rw (commit-known now anchor commitment known found)
              (IsNumbered-validate start commitment anchor.receipts known v.numbered found, v)
      ]
