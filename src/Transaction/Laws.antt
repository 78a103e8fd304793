-- ===== src/Transaction/Laws.antt =====
-- The states of a transaction of moodeng-core/src/transaction.rs.
use mathlib.Core.Path.{subst}
use mathlib.Core.List.{reverse, append_assoc, append-nil}
use moodeng_sql.Prelude.{
  ℕ, true, false, none, some, List, [], ◌∷◌, ◌++◌, ◌≡◌, refl, ap, sym, ◌∙◌, ◌⊎◌, inl, inr, arith,
  suc_u64,
}
use moodeng_sql.Error.{ok, err, execution}
use moodeng_sql.Wal.Defs.{WalOp, Bincode}
use moodeng_sql.Wal.Log
use moodeng_sql.Wal.Log.{WriteAheadLog}
use moodeng_sql.Transaction.{UndoRecord, Transaction, Logged, new, begin, commit, rollback, note}

module _ {V : Type 0} where
  abbrev pub IsIdle : Transaction V → Type 0
  IsIdle txn = (txn.active ≡ false) × (txn.txn_id ≡ none) × (txn.undo ≡ [])

  -- A transaction is idle, with nothing to undo, or it is active under a number.
  abbrev pub IsValid : Transaction V → Type 0
  IsValid txn = IsIdle txn ⊎ ((txn.active ≡ true) × (id : ℕ) × (txn.txn_id ≡ some id))

  note-active :
      (entry : UndoRecord V) (txn : Transaction V)
      → txn.active ≡ true
      → note entry txn ≡ record txn { undo = txn.undo ++ entry ∷ [] }
  unfolding note
  note-active entry txn on = ground (arith, on)

  pub note-IsValid :
      (entry : UndoRecord V) (txn : Transaction V) → IsValid txn → IsValid (note entry txn)
  unfolding note
  note-IsValid entry txn (inl v) =
      let same : note entry txn ≡ txn = ground (arith, v.0) in subst IsValid (sym same) (inl v)
  note-IsValid entry txn (inr v) = subst IsValid (sym (note-active entry txn v.0)) (inr v)

  unfoldable pub note_all : List (UndoRecord V) → Transaction V → Transaction V
  note_all [] txn = txn
  note_all (entry ∷ entries) txn = note_all entries (note entry txn)

  note_all-active :
      (entries : List (UndoRecord V)) (txn : Transaction V)
      → txn.active ≡ true
      → note_all entries txn ≡ record txn { undo = txn.undo ++ entries }
  unfolding note_all
  note_all-active [] txn on = ap (λ u. record txn { undo = u }) (sym (append-nil txn.undo))
  note_all-active (entry ∷ entries) txn on =
      ap (note_all entries) (note-active entry txn on)
      ∙ (note_all-active entries (record txn { undo = txn.undo ++ entry ∷ [] }) on
          ∙ ap (λ u. record txn { undo = u }) (append_assoc txn.undo (entry ∷ []) entries))

module _ {V : Type 0} (b : Bincode (WalOp V)) where
  -- An idle transaction can neither be committed nor rolled back, and an active one not begun
  -- again; nothing changes.
  refused :
      (s : Logged V)
      → (IsIdle s.txn
          → (commit b s ≡ (err (execution "no active transaction"), s))
            × (rollback b s ≡ (err (execution "no active transaction"), s)))
        × (s.txn.active ≡ true → begin b s ≡ (err (execution "transaction already active"), s))
  unfolding begin commit rollback
  refused s = (λ v. (ground (arith, v.1), ground (arith, v.1)), λ on. ground (arith, on))

  pub begin-IsValid : (s : Logged V) → IsValid s.txn → IsValid (begin b s).1.txn
  unfolding begin
  begin-IsValid s (inl v) = rw v.0 (inr (refl, s.wal.next_txn_id, refl))
  begin-IsValid s (inr v) = subst (λ x. IsValid x.1.txn) (sym ((refused s).1 v.0)) (inr v)

  pub commit-IsValid : (s : Logged V) → IsValid s.txn → IsValid (commit b s).1.txn
  unfolding commit
  commit-IsValid s (inl v) = subst (λ x. IsValid x.1.txn) (sym ((refused s).0 v).0) (inl v)
  commit-IsValid s (inr v) = rw v.2 (inl (refl, refl, refl))

  pub rollback-IsValid : (s : Logged V) → IsValid s.txn → IsValid (rollback b s).1.txn
  unfolding rollback
  rollback-IsValid s (inl v) = subst (λ x. IsValid x.1.txn) (sym ((refused s).0 v).1) (inl v)
  rollback-IsValid s (inr v) = rw v.2 (inl (refl, refl, refl))

  -- The state in which a transaction has noted undo records since its begin.
  abbrev pub noted : List (UndoRecord V) → Logged V → Logged V
  noted entries s = let s' = (begin b s).1 in record s' { txn = note_all entries s'.txn }

  -- Begin, then undo records, then a rollback: it returns them all, the last one first, the
  -- transaction is as new, and the log has got Begin and Abort under one number.
  pub rollback-noted :
      (entries : List (UndoRecord V)) (s : Logged V)
      → IsIdle s.txn
      → let (r, s') = rollback b (noted entries s) in
        let id = s.wal.next_txn_id in
        (r ≡ ok (reverse entries))
        × (s'.txn ≡ new)
        × (s'.wal
            ≡ (Log.append b
                (WalOp.abort id)
                (Log.append b (WalOp.begin id) (record s.wal { next_txn_id = suc_u64 id })).1).1)
  unfolding rollback begin
  rollback-noted entries s v =
      rw
        (
          v.0,
          note_all-active entries
              (record { active = true; txn_id = some s.wal.next_txn_id; undo = [] }) refl,
        )
        (refl, refl, refl)

  -- Begin, then undo records, then a commit: nothing is left to undo, and the log has got Begin
  -- and Commit under one number.
  commit-noted :
      (entries : List (UndoRecord V)) (s : Logged V)
      → IsIdle s.txn
      → let (r, s') = commit b (noted entries s) in
        let id = s.wal.next_txn_id in
        (r ≡ ok tt)
        × (s'.txn ≡ new)
        × (s'.wal
            ≡ (Log.append b
                (WalOp.commit id)
                (Log.append b (WalOp.begin id) (record s.wal { next_txn_id = suc_u64 id })).1).1)
  unfolding commit begin
  commit-noted entries s v =
      rw
        (
          v.0,
          note_all-active entries
              (record { active = true; txn_id = some s.wal.next_txn_id; undo = [] }) refl,
        )
        (refl, refl, refl)
