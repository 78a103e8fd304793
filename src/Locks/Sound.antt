-- ===== src/Locks/Sound.antt =====
-- What the steps of moodeng-core/src/lock.rs keep of the row locks and their holders.
use mathlib.Core.Path.{subst}
use moodeng_sql.Prelude.{
  ℕ, Bool, true, false, ◌≡◌, ◌≢◌, sym, ap, ◌∙◌, ◌⊎◌, inl, inr, Option, none, some, List, [], ◌∷◌,
  nat_key, arith, dec_eq,
}
use moodeng_sql.Prelude.Map
use moodeng_sql.Prelude.Map.{Map, lookup-insert, lookup-remove}
use moodeng_sql.Locks.{
  LockManager, Phase, RowKey, Event, row_key, new, lock_of, is_held, enter, step,
}

-- The row of a phase in which the thread has yet to let go of the lock.
abbrev pub key_of : Phase → Option RowKey
key_of (Phase.handled key lock) = some key
key_of (Phase.writing key lock) = some key
key_of (Phase.removing key lock) = some key
key_of (Phase.releasing key lock) = none
key_of (Phase.released key lock) = none

abbrev pub is_removing : Phase → Bool
is_removing (Phase.removing key lock) = true
is_removing p = false

-- The map has the locks of all threads that have yet to let go of theirs; a thread that is about to
-- remove a row's entry is the only one for the row; and a lock is held once.
pub record IsSound (s : LockManager) : Type 0 where
  pub mapped :
      (i : ℕ) (p : Phase) (key : RowKey)
      → Map.lookup i s.threads ≡ some p
      → key_of p ≡ some key
      → Map.lookup key s.row_locks ≡ some (lock_of p)
  pub sole :
      (i j : ℕ) (p q : Phase) (key : RowKey)
      → Map.lookup i s.threads ≡ some p
      → Map.lookup j s.threads ≡ some q
      → i ≢ j
      → is_removing p ≡ true
      → key_of p ≡ some key
      → key_of q ≢ some key
  pub held :
      (i j : ℕ) (p q : Phase)
      → Map.lookup i s.threads ≡ some p
      → Map.lookup j s.threads ≡ some q
      → i ≢ j
      → is_held p ≡ true
      → is_held q ≡ true
      → lock_of p ≢ lock_of q

-- No thread asks for the lock of a row while another is between the count of the lock's handles
-- and the removal of its entry.
abbrev pub IsCalm : Event → LockManager → Type 0
IsCalm (Event.asks i key) s =
    (j : ℕ) (p : Phase)
    → Map.lookup j s.threads ≡ some p
    → is_removing p ≡ true
    → key_of p ≢ some key
IsCalm e s = Unit

abbrev pub AreCalm : List Event → LockManager → Type 0
AreCalm [] s = Unit
AreCalm (e ∷ events) s =
    IsCalm e s × (elim (step e s) as (λ _. Type 0) [ none ↦ Unit | some s' ↦ AreCalm events s' ])

pub new-IsSound : IsSound new
unfolding Map.lookup
new-IsSound = record {
  mapped = λ i p key e f. absurd (ground (arith, e));
  sole = λ i j p q key e f. absurd (ground (arith, e));
  held = λ i j p q e f. absurd (ground (arith, e));
}

-- What a thread is in after one of them went to a new phase.
entered :
    (i j : ℕ) (p q : Phase) (threads : Map ℕ Phase)
    → Map.lookup j (Map.insert i p threads) ≡ some q
    → ((i ≡ j) × (p ≡ q)) ⊎ ((i ≢ j) × (Map.lookup j threads ≡ some q))
entered i j p q threads e = elim (dec_eq i j) [
  | yes same ↦ inl (same, ground (arith, e, lookup-insert i j p threads, same))
  | no other ↦ inr (other, ground (arith, e, lookup-insert i j p threads, other))
]

-- A thread that goes to a new phase, in a map of locks that keeps those of the others.
pub entered-IsSound :
    (i : ℕ) (p : Phase) (s s' : LockManager)
    → IsSound s
    → s'.threads ≡ s.threads
    → ((key : RowKey) → key_of p ≡ some key → Map.lookup key s'.row_locks ≡ some (lock_of p))
    → ((j : ℕ) (q : Phase) (key : RowKey)
        → i ≢ j
        → Map.lookup j s.threads ≡ some q
        → key_of q ≡ some key
        → Map.lookup key s'.row_locks ≡ Map.lookup key s.row_locks)
    → ((j : ℕ) (q : Phase) (key : RowKey)
        → i ≢ j
        → Map.lookup j s.threads ≡ some q
        → key_of p ≡ some key
        → key_of q ≡ some key
        → (is_removing p ≡ false) × (is_removing q ≡ false))
    → ((j : ℕ) (q : Phase)
        → i ≢ j
        → Map.lookup j s.threads ≡ some q
        → is_held p ≡ true
        → is_held q ≡ true
        → lock_of p ≢ lock_of q)
    → IsSound (enter i p s')
entered-IsSound i p s s' h same own others alone once =
    let before = λ (j : ℕ) (q : Phase) (e : Map.lookup j (Map.insert i p s'.threads) ≡ some q).
      entered i j p q s.threads (ap (λ t. Map.lookup j (Map.insert i p t)) (sym same) ∙ e) in
    record {
      mapped = λ j q key e f. elim (before j q e) [
        | inl (_, is) ↦
            subst (λ x. Map.lookup key s'.row_locks ≡ some (lock_of x)) is
              (own key (ap key_of is ∙ f))
        | inr (ne, there) ↦ others j q key ne there f ∙ h.mapped j q key there f
      ];
      sole = λ j k q r key e f ne a b c. elim (before j q e) [
        | inl (at, is) ↦ elim (before k r f) [
          | inl (at', _) ↦ ne (sym at ∙ at')
          | inr (other, there) ↦ absurd (
              ground
                (arith, (alone k r key other there (ap key_of is ∙ b) c).0, ap is_removing is, a))
        ]
        | inr (other, there) ↦ elim (before k r f) [
          | inl (_, is) ↦
              absurd (ground (arith, (alone j q key other there (ap key_of is ∙ c) b).1, a))
          | inr (other', there') ↦ h.sole j k q r key there there' ne a b c
        ]
      ];
      held = λ j k q r e f ne a b c. elim (before j q e) [
        | inl (at, is) ↦ elim (before k r f) [
          | inl (at', _) ↦ ne (sym at ∙ at')
          | inr (other, there) ↦ once k r other there (ap is_held is ∙ a) b (ap lock_of is ∙ c)
        ]
        | inr (other, there) ↦ elim (before k r f) [
          | inl (_, is) ↦ once j q other there (ap is_held is ∙ b) a (ap lock_of is ∙ sym c)
          | inr (other', there') ↦ h.held j k q r there there' ne a b c
        ]
      ];
    }
