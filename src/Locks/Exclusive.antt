-- ===== src/Locks/Exclusive.antt =====
-- Which threads hold the row locks of moodeng-core/src/lock.rs at once.
use mathlib.Core.Path.{subst}
use moodeng_sql.Prelude.{
  ℕ, suc, Bool, true, false, ◌==◌, ◌≤◌, ◌≡◌, ◌≢◌, refl, sym, ap, ◌∙◌, inl, inr, some, [], ◌∷◌,
  if◌then◌else◌, nat_key, arith, dec_eq, Bool-cases, Option-cases, if_neg,
}
use moodeng_sql.Prelude.Map
use moodeng_sql.Prelude.Map.{
  Map, lookup-insert, lookup-remove, lookup-insert_self, lookup-insert_ne,
}
use moodeng_sql.Locks.{
  LockManager, Phase, RowKey, Event, row_key, lock_of, is_held, handles, strong_count, is_locked,
  enter, row_lock,
}
use moodeng_sql.Locks.Sound.{IsSound, key_of, is_removing, IsCalm, entered-IsSound}

-- A lock that is not held is held by no thread.
is_locked_lem :
    (lock : ℕ) (j : ℕ) (q : Phase) (threads : Map ℕ Phase)
    → is_locked lock threads ≡ false
    → Map.lookup j threads ≡ some q
    → is_held q ≡ true
    → lock ≢ lock_of q
unfolding Map.lookup
is_locked_lem lock j q [] e f g same = ground (arith, f)
is_locked_lem lock j q ((k, p) ∷ threads) e f g same = elim (dec_eq k j) [
  | yes at ↦ ground (arith, e, f, g, same, at)
  | no other ↦ is_locked_lem lock j q threads (ground (arith, e)) (ground (arith, f, other)) g same
]

one_handle :
    (lock : ℕ) (i : ℕ) (p : Phase) (threads : Map ℕ Phase)
    → Map.lookup i threads ≡ some p
    → lock_of p ≡ lock
    → 1 ≤ handles lock threads
unfolding Map.lookup handles
one_handle lock i p [] e f = absurd (ground (arith, e))
one_handle lock i p ((k, q) ∷ threads) e f = elim (dec_eq k i) [
  | yes at ↦ ground (arith, e, f, at)
  | no other ↦
      let rest = one_handle lock i p threads (ground (arith, e, other)) f in ground (arith, rest)
]

-- Two threads with one lock have two handles of it.
two_handles :
    (lock : ℕ) (i j : ℕ) (p q : Phase) (threads : Map ℕ Phase)
    → i ≢ j
    → Map.lookup i threads ≡ some p
    → Map.lookup j threads ≡ some q
    → lock_of p ≡ lock
    → lock_of q ≡ lock
    → 2 ≤ handles lock threads
unfolding Map.lookup handles
two_handles lock i j p q [] ne e f a b = absurd (ground (arith, e))
two_handles lock i j p q ((k, r) ∷ threads) ne e f a b = elim (dec_eq k i) [
  | yes at ↦
      let rest = one_handle lock j q threads (ground (arith, f, at, ne)) b in
      ground (arith, rest, e, at, a)
  | no other ↦ elim (dec_eq k j) [
    | yes at ↦
        let rest = one_handle lock i p threads (ground (arith, e, other)) a in
        ground (arith, rest, f, at, b)
    | no others ↦
        let rest =
          two_handles lock i j p q threads ne (ground (arith, e, other)) (ground (arith, f, others))
            a b in
        ground (arith, rest)
  ]
]

-- The threads that are left when one has gone.
left :
    (i j : ℕ) (p : Phase) (threads : Map ℕ Phase)
    → Map.lookup j (Map.remove i threads) ≡ some p
    → Map.lookup j threads ≡ some p
left i j p threads e = elim (dec_eq i j) [
  | yes same ↦ absurd (ground (arith, e, lookup-remove i j threads, same))
  | no other ↦ ground (arith, e, lookup-remove i j threads, other)
]

module _ (i : ℕ) (key : RowKey) (lock : ℕ) (s : LockManager) (h : IsSound s) where
  pub write-IsSound :
      Map.lookup i s.threads ≡ some (Phase.handled key lock)
      → is_locked lock s.threads ≡ false
      → IsSound (enter i (Phase.writing key lock) s)
  write-IsSound at free =
      entered-IsSound i (Phase.writing key lock) s s h refl
        (λ k e. h.mapped i (Phase.handled key lock) k at e) (λ j q k ne there e. refl)
        (λ j q k ne there e f. (
          refl,
          elim (Bool-cases (is_removing q)) [
            | inr r ↦ r
            | inl r ↦
                absurd
                  (h.sole j i q (Phase.handled key lock) k there at (λ same. ne (sym same)) r f e)
          ],
        ))
        (λ j q ne there e f. is_locked_lem lock j q s.threads free there f)

  -- The phase behind the count of the lock's handles.
  abbrev after : Bool → Phase
  after two = if two then Phase.removing key lock else Phase.releasing key lock

  -- With another thread on the row, there are three handles: the map's and those of two threads.
  third_count :
      (j : ℕ) (q : Phase) (k : RowKey)
      → Map.lookup i s.threads ≡ some (Phase.writing key lock)
      → (strong_count key lock s == 2) ≡ true
      → i ≢ j
      → Map.lookup j s.threads ≡ some q
      → some key ≡ some k
      → key_of q ≡ some k
      → 3 ≤ 2
  unfolding strong_count
  third_count j q k at two ne there e f =
      let own : Map.lookup key s.row_locks ≡ some lock =
        h.mapped i (Phase.writing key lock) key at refl in
      let other : Map.lookup key s.row_locks ≡ some (lock_of q) =
        h.mapped j q key there (f ∙ sym e) in
      let same : lock_of q ≡ lock = ground (arith, own, other) in
      let both = two_handles lock i j (Phase.writing key lock) q s.threads ne at there refl same in
      ground (arith, both, own, two)

  pub check-IsSound :
      Map.lookup i s.threads ≡ some (Phase.writing key lock)
      → IsSound (enter i (after (strong_count key lock s == 2)) s)
  check-IsSound at = elim (Bool-cases (strong_count key lock s == 2)) [
    | inl e ↦
        subst (λ b. IsSound (enter i (after b) s)) (sym e)
          (entered-IsSound i (Phase.removing key lock) s s h refl
            (λ k f. h.mapped i (Phase.writing key lock) k at f) (λ j q k ne there f. refl)
            (λ j q k ne there f g. absurd (omega (arith, third_count j q k at e ne there f g)))
            (λ j q ne there f g. h.held i j (Phase.writing key lock) q at there ne refl g))
    | inr e ↦
        subst (λ b. IsSound (enter i (after b) s)) (sym e)
          (entered-IsSound i (Phase.releasing key lock) s s h refl
            (λ k f. absurd (ground (arith, f))) (λ j q k ne there f. refl)
            (λ j q k ne there f g. absurd (ground (arith, f)))
            (λ j q ne there f g. h.held i j (Phase.writing key lock) q at there ne refl g))
  ]

  pub remove-IsSound :
      Map.lookup i s.threads ≡ some (Phase.removing key lock)
      → IsSound
          (enter i (Phase.releasing key lock) (record s { row_locks = Map.remove key s.row_locks }))
  remove-IsSound at =
      entered-IsSound i (Phase.releasing key lock) s
        (record s { row_locks = Map.remove key s.row_locks }) h refl
        (λ k e. absurd (ground (arith, e)))
        (λ j q k ne there e.
          lookup-remove key k s.row_locks
          ∙ if_neg (dec_eq key k)
              (λ same.
                h.sole i j (Phase.removing key lock) q key at there ne refl refl
                  (e ∙ ap some (sym same)))
              _ _)
        (λ j q k ne there e f. absurd (ground (arith, e)))
        (λ j q ne there e f. h.held i j (Phase.removing key lock) q at there ne refl f)

  pub release-IsSound :
      Map.lookup i s.threads ≡ some (Phase.releasing key lock)
      → IsSound (enter i (Phase.released key lock) s)
  release-IsSound at =
      entered-IsSound i (Phase.released key lock) s s h refl (λ k e. absurd (ground (arith, e)))
        (λ j q k ne there e. refl) (λ j q k ne there e f. absurd (ground (arith, e)))
        (λ j q ne there e f. absurd (ground (arith, e)))

  pub drop_handle-IsSound :
      Map.lookup i s.threads ≡ some (Phase.released key lock)
      → IsSound (record s { threads = Map.remove i s.threads })
  drop_handle-IsSound at = record {
    mapped = λ j p k e f. h.mapped j p k (left i j p s.threads e) f;
    sole = λ j k p q key e f. h.sole j k p q key (left i j p s.threads e) (left i k q s.threads f);
    held = λ j k p q e f. h.held j k p q (left i j p s.threads e) (left i k q s.threads f);
  }

pub row_lock-IsSound :
    (i : ℕ) (key : RowKey) (s : LockManager)
    → IsSound s
    → IsCalm (Event.asks i key) s
    → IsSound (row_lock i key s)
unfolding row_lock
row_lock-IsSound i key s h calm = elim (Option-cases (Map.lookup key s.row_locks)) [
  | inr (lock, e) ↦
      let whole : row_lock i key s ≡ enter i (Phase.handled key lock) s = ground (arith, e) in
      subst IsSound (sym whole) (
        entered-IsSound i (Phase.handled key lock) s s h refl
          (λ k f. ap (λ x. Map.lookup x s.row_locks) (sym (ground (arith, f))) ∙ e)
          (λ j q k ne there f. refl) (λ j q k ne there f g. (refl, calm_not j q k there f g))
          (λ j q ne there f g. absurd (ground (arith, f))))
  | inl e ↦
      let mapped : LockManager = record s {
        row_locks = Map.insert key s.next s.row_locks;
        next = suc s.next;
      } in
      let whole : row_lock i key s ≡ enter i (Phase.handled key s.next) mapped =
        ground (arith, e) in
      subst IsSound (sym whole) (
        entered-IsSound i (Phase.handled key s.next) s mapped h refl
          (λ k f.
            let is : key ≡ k = ground (arith, f) in
            ap (λ x. Map.lookup x mapped.row_locks) (sym is)
            ∙ lookup-insert_self key s.next s.row_locks)
          (λ j q k ne there f.
            lookup-insert_ne key k s.next s.row_locks
              (λ same. ground (arith, e, same, h.mapped j q k there f)))
          (λ j q k ne there f g. (refl, calm_not j q k there f g))
          (λ j q ne there f g. absurd (ground (arith, f))))
]
  where
    calm_not :
        (j : ℕ) (q : Phase) (k : RowKey)
        → Map.lookup j s.threads ≡ some q
        → some key ≡ some k
        → key_of q ≡ some k
        → is_removing q ≡ false
    calm_not j q k there f g = elim (Bool-cases (is_removing q)) [
      | inr r ↦ r
      | inl r ↦ absurd (calm j q there r (g ∙ sym f))
    ]
