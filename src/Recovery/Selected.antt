-- ===== src/Recovery/Selected.antt =====
-- Which records the two passes of `replay_wal` (moodeng-core/src/recovery.rs) select.
use moodeng_sql.Prelude.{
  ℕ, Bool, true, false, ◌&&◌, ◌||◌, Option, none, some, List, [], ◌∷◌, ◌++◌, map, if◌then◌else◌,
  ◌≡◌, refl, ap, sym, ◌∙◌, nat_key, dec_eq, ◌==◌, arith, Bool-cases, Option-cases, inl, inr, if_pos,
}
use mathlib.Core.List.{append-nil, append_assoc}
use moodeng_sql.Prelude.Map
use moodeng_sql.Prelude.Map.{Map, Distinct, insert-Distinct, lookup-insert}
use moodeng_sql.Prelude.Lists.{concat, filter_by, filter_by-false, filter_by-ext, All, All-intro}
use moodeng_sql.Prelude.Sort.{
  IsAscending, sort_by_key, insert_all, sort_by_key-append, insert_all-filter_by,
}
use moodeng_sql.Wal.Defs.{WalOp, data_txn_id}
use moodeng_sql.Wal.Codec.{Entry}
use moodeng_sql.Recovery.{
  TxnState, fresh, note_control, push_data, note_entry, group, is_live, live_ops, to_apply,
}

same_choice :
    (f g : ℕ → Bool)
    → ((t : ℕ) → f t ≡ g t)
    → (o : Option ℕ)
    → elim o as (λ _. Bool) [ none ↦ false | some t ↦ f t ]
      ≡ elim o as (λ _. Bool) [ none ↦ false | some t ↦ g t ]
same_choice f g same none = refl
same_choice f g same (some t) = same t

module _ {V : Type 0} where
  -- What a record says of the fate of transaction `t`, after what the records before it said.
  abbrev pub fate : ℕ → WalOp V → Bool → Bool
  fate t (WalOp.commit t') before = if t' == t then true else before
  fate t (WalOp.abort t') before = if t' == t then false else before
  fate t (WalOp.begin _) before = before
  fate t (WalOp.insert _ _ _ _) before = before
  fate t (WalOp.update _ _ _ _) before = before
  fate t (WalOp.delete _ _ _) before = before

  -- Whether the last Commit or Abort of transaction `t` is a Commit.
  abbrev pub ends_committed : ℕ → List (Entry V) → Bool → Bool
  ends_committed t [] before = before
  ends_committed t (entry ∷ entries) before = ends_committed t entries (fate t entry.1 before)

  -- Whether a record is a write of transaction `t`.
  abbrev pub is_write_of : ℕ → Entry V → Bool
  is_write_of t entry = elim (data_txn_id entry.1) [ none ↦ false | some t' ↦ t' == t ]

  -- The records to redo: the writes of the transactions that end with a Commit.
  abbrev pub is_durable : List (Entry V) → Entry V → Bool
  is_durable entries entry = elim (data_txn_id entry.1) [
    | none ↦ false
    | some t ↦ ends_committed t entries false
  ]

  -- The state of a transaction in the map.
  abbrev state_of : ℕ → Map ℕ (TxnState V) → TxnState V
  state_of t txns = Map.or_insert t fresh txns

  live-note_entry :
      (t : ℕ) (entry : Entry V) (txns : Map ℕ (TxnState V))
      → is_live (state_of t (note_entry entry txns)) ≡ fate t entry.1 (is_live (state_of t txns))
  unfolding note_entry
  live-note_entry t (l, WalOp.begin t') txns =
      ground (arith, lookup-insert t' t (Map.or_insert t' fresh txns) txns)
  live-note_entry t (l, WalOp.commit t') txns =
      let s : TxnState V = note_control (WalOp.commit t') (Map.or_insert t' fresh txns) in
      ground (arith, lookup-insert t' t s txns)
  live-note_entry t (l, WalOp.abort t') txns =
      let s : TxnState V = note_control (WalOp.abort t') (Map.or_insert t' fresh txns) in
      ground (arith, lookup-insert t' t s txns)
  live-note_entry t (l, WalOp.insert t' table id row) txns =
      let s : TxnState V =
        push_data (l, WalOp.insert t' table id row) (Map.or_insert t' fresh txns) in
      ground (arith, lookup-insert t' t s txns)
  live-note_entry t (l, WalOp.update t' table id row) txns =
      let s : TxnState V =
        push_data (l, WalOp.update t' table id row) (Map.or_insert t' fresh txns) in
      ground (arith, lookup-insert t' t s txns)
  live-note_entry t (l, WalOp.delete t' table id) txns =
      let s : TxnState V = push_data (l, WalOp.delete t' table id) (Map.or_insert t' fresh txns) in
      ground (arith, lookup-insert t' t s txns)

  data-note_entry :
      (t : ℕ) (entry : Entry V) (txns : Map ℕ (TxnState V))
      → (state_of t (note_entry entry txns)).data_ops ≡ (
          if is_write_of t entry
          then (state_of t txns).data_ops ++ entry ∷ []
          else (state_of t txns).data_ops)
  unfolding note_entry
  data-note_entry t (l, WalOp.begin t') txns =
      ground (arith, lookup-insert t' t (Map.or_insert t' fresh txns) txns)
  data-note_entry t (l, WalOp.commit t') txns =
      let s : TxnState V = note_control (WalOp.commit t') (Map.or_insert t' fresh txns) in
      ground (arith, lookup-insert t' t s txns)
  data-note_entry t (l, WalOp.abort t') txns =
      let s : TxnState V = note_control (WalOp.abort t') (Map.or_insert t' fresh txns) in
      ground (arith, lookup-insert t' t s txns)
  data-note_entry t (l, WalOp.insert t' table id row) txns =
      let s : TxnState V =
        push_data (l, WalOp.insert t' table id row) (Map.or_insert t' fresh txns) in
      ground (arith, lookup-insert t' t s txns)
  data-note_entry t (l, WalOp.update t' table id row) txns =
      let s : TxnState V =
        push_data (l, WalOp.update t' table id row) (Map.or_insert t' fresh txns) in
      ground (arith, lookup-insert t' t s txns)
  data-note_entry t (l, WalOp.delete t' table id) txns =
      let s : TxnState V = push_data (l, WalOp.delete t' table id) (Map.or_insert t' fresh txns) in
      ground (arith, lookup-insert t' t s txns)

  Distinct-note_entry :
      (entry : Entry V) (txns : Map ℕ (TxnState V))
      → Distinct txns
      → Distinct (note_entry entry txns)
  unfolding note_entry
  Distinct-note_entry (l, WalOp.begin t) txns d = insert-Distinct t _ txns d
  Distinct-note_entry (l, WalOp.commit t) txns d = insert-Distinct t _ txns d
  Distinct-note_entry (l, WalOp.abort t) txns d = insert-Distinct t _ txns d
  Distinct-note_entry (l, WalOp.insert t _ _ _) txns d = insert-Distinct t _ txns d
  Distinct-note_entry (l, WalOp.update t _ _ _) txns d = insert-Distinct t _ txns d
  Distinct-note_entry (l, WalOp.delete t _ _) txns d = insert-Distinct t _ txns d

  live-group :
      (t : ℕ) (entries : List (Entry V)) (txns : Map ℕ (TxnState V))
      → is_live (state_of t (group entries txns))
        ≡ ends_committed t entries (is_live (state_of t txns))
  live-group t [] txns = refl
  live-group t (entry ∷ entries) txns =
      live-group t entries (note_entry entry txns)
      ∙ ap (ends_committed t entries) (live-note_entry t entry txns)

  data-group :
      (t : ℕ) (entries : List (Entry V)) (txns : Map ℕ (TxnState V))
      → (state_of t (group entries txns)).data_ops
        ≡ (state_of t txns).data_ops ++ filter_by (is_write_of t) entries
  data-group t [] txns = sym (append-nil (state_of t txns).data_ops)
  data-group t (entry ∷ entries) txns =
      let rest = data-group t entries (note_entry entry txns) in
      let one = data-note_entry t entry txns in
      elim (Bool-cases (is_write_of t entry)) [
        | inl e ↦
            rest
            ∙ rw (one, e)
                (append_assoc (state_of t txns).data_ops (entry ∷ [])
                  (filter_by (is_write_of t) entries))
        | inr e ↦ rest ∙ rw (one, e) refl
      ]

  Distinct-group :
      (entries : List (Entry V)) (txns : Map ℕ (TxnState V))
      → Distinct txns
      → Distinct (group entries txns)
  Distinct-group [] txns d = d
  Distinct-group (entry ∷ entries) txns d =
      Distinct-group entries (note_entry entry txns) (Distinct-note_entry entry txns d)

  -- Whether the transaction of a write is live in the map.
  abbrev selected : Map ℕ (TxnState V) → Entry V → Bool
  selected txns entry = elim (data_txn_id entry.1) [
    | none ↦ false
    | some t ↦ is_live (state_of t txns)
  ]

  -- Every transaction of the map has its writes among the records.
  abbrev HoldsWrites : List (Entry V) → Map ℕ (TxnState V) → Type 0
  HoldsWrites entries txns =
      All (λ txn. txn.1.data_ops ≡ filter_by (is_write_of txn.0) entries) txns

  selected-step :
      (t : ℕ) (s : TxnState V) (txns : Map ℕ (TxnState V)) (entry : Entry V)
      → Map.lookup t txns ≡ none
      → selected ((t, s) ∷ txns) entry ≡ ((is_write_of t entry && is_live s) || selected txns entry)
  unfolding Map.lookup
  selected-step t s txns (l, op) new = elim (Option-cases (data_txn_id op)) [
    | inl p ↦ ground (arith, p)
    | inr (t', p) ↦ ground (arith, p)
  ]

  disjoint :
      (t : ℕ) (s : TxnState V) (txns : Map ℕ (TxnState V)) (entry : Entry V)
      → Map.lookup t txns ≡ none
      → (is_write_of t entry && is_live s) ≡ true
      → selected txns entry ≡ false
  disjoint t s txns (l, op) new e = elim (Option-cases (data_txn_id op)) [
    | inl p ↦ ground (arith, p)
    | inr (t', p) ↦ ground (arith, p)
  ]

  selected_nil : (entry : Entry V) → selected [] entry ≡ false
  unfolding Map.lookup
  selected_nil (l, op) = elim (Option-cases (data_txn_id op)) [
    | inl p ↦ ground (arith, p)
    | inr (t, p) ↦ ground (arith, p)
  ]

  live-group_all :
      (t : ℕ) (entries : List (Entry V))
      → is_live (state_of t (group entries [])) ≡ ends_committed t entries false
  unfolding Map.lookup
  live-group_all t entries = live-group t entries []

  data-group_all :
      (t : ℕ) (entries : List (Entry V))
      → (state_of t (group entries [])).data_ops ≡ filter_by (is_write_of t) entries
  unfolding Map.lookup
  data-group_all t entries = data-group t entries []

  abbrev data_in : Option (TxnState V) → List (Entry V)
  data_in o = (elim o as (λ _. TxnState V) [ none ↦ fresh | some w ↦ w ]).data_ops

  selected_durable :
      (entries : List (Entry V)) (entry : Entry V)
      → selected (group entries []) entry ≡ is_durable entries entry
  selected_durable entries (l, op) =
      same_choice (λ t. is_live (state_of t (group entries [])))
        (λ t. ends_committed t entries false) (λ t. live-group_all t entries) (data_txn_id op)

  live_ops_lem :
      (t : ℕ) (s : TxnState V) (entries : List (Entry V))
      → s.data_ops ≡ filter_by (is_write_of t) entries
      → live_ops s ≡ filter_by (λ entry. is_write_of t entry && is_live s) entries
  live_ops_lem t s entries h = elim (Bool-cases (is_live s)) [
    | inl e ↦
        ap (λ live. if live then s.data_ops else []) e
        ∙ (h ∙ filter_by-ext (is_write_of t) _ entries (λ entry. ground (arith, e)))
    | inr e ↦
        ap (λ live. if live then s.data_ops else []) e
        ∙ sym (filter_by-false _ entries (All-intro _ entries (λ entry. ground (arith, e))))
  ]

  to_apply_lem :
      (entries : List (Entry V)) (txns : Map ℕ (TxnState V))
      → IsAscending (λ entry. entry.0) entries
      → Distinct txns
      → HoldsWrites entries txns
      → sort_by_key (λ entry. entry.0) (concat (map (λ txn. live_ops txn.1) txns))
        ≡ filter_by (selected txns) entries
  unfolding sort_by_key
  to_apply_lem entries [] asc d h =
      sym (filter_by-false (selected []) entries (All-intro _ entries selected_nil))
  to_apply_lem entries ((t, s) ∷ txns) asc d h =
      sort_by_key-append (λ entry. entry.0) (live_ops s) (concat (map (λ txn. live_ops txn.1) txns))
      ∙ (ap (insert_all (λ entry. entry.0) (live_ops s)) (to_apply_lem entries txns asc d.1 h.1)
          ∙ (ap (λ ops. insert_all (λ entry. entry.0) ops (filter_by (selected txns) entries))
                (live_ops_lem t s entries h.0)
              ∙ (insert_all-filter_by (λ entry. entry.0) (selected txns)
                    (λ entry. is_write_of t entry && is_live s) entries
                    (λ entry e. disjoint t s txns entry d.0 e) asc
                  ∙ sym (filter_by-ext _ _ entries (λ entry. selected-step t s txns entry d.0)))))

  All-of_lookup :
      (P : ℕ → TxnState V → Type 0) (txns : Map ℕ (TxnState V))
      → Distinct txns
      → ((t : ℕ) (s : TxnState V) → Map.lookup t txns ≡ some s → P t s)
      → All (λ txn. P txn.0 txn.1) txns
  unfolding Map.lookup
  All-of_lookup P [] d h = tt
  All-of_lookup P ((t, s) ∷ txns) d h = (
    h t s (if_pos (dec_eq t t) refl _ _),
    All-of_lookup P txns d.1 (λ t' s' e. h t' s' (ground (arith, d.0, e))),
  )

  -- For records with ascending LSNs, what is redone are the writes of every transaction number whose
  -- last Commit or Abort record, anywhere in the log, is a Commit, in the order of the log,
  -- whatever the order of the map of transactions is. A Begin is not looked at, so writes behind
  -- that Commit under the same number are redone too.
  pub to_apply-is_durable :
      (entries : List (Entry V))
      → IsAscending (λ entry. entry.0) entries
      → to_apply entries ≡ filter_by (is_durable entries) entries
  unfolding to_apply
  to_apply-is_durable entries asc =
      let d = Distinct-group entries [] tt in
      to_apply_lem entries (group entries []) asc d (
        All-of_lookup (λ t s. s.data_ops ≡ filter_by (is_write_of t) entries) (group entries []) d
          (λ t s e. ap (λ o. data_in o) (sym e) ∙ data-group_all t entries))
      ∙ filter_by-ext _ _ entries (λ entry. selected_durable entries entry)
