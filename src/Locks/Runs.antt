-- ===== src/Locks/Runs.antt =====
-- Runs of the row locks of moodeng-core/src/lock.rs.
use mathlib.Core.Path.{subst}
use moodeng_sql.Prelude.{
  ℕ, ◌≡◌, refl, inl, inr, Option, none, some, List, [], ◌∷◌, nat_key, arith, dec_eq, Bool-cases,
  Option-cases,
}
use moodeng_sql.Prelude.Map
use moodeng_sql.Prelude.Map.{Map}
use moodeng_sql.Locks.{
  LockManager, Phase, RowKey, Event, row_key, new, is_locked, enter, step, run, in_phase, row_lock,
  write, check, remove, release, drop_handle,
}
use moodeng_sql.Locks.Sound.{IsSound, IsCalm, AreCalm, new-IsSound}
use moodeng_sql.Locks.Exclusive.{
  row_lock-IsSound, write-IsSound, check-IsSound, remove-IsSound, release-IsSound,
  drop_handle-IsSound,
}

-- A step of a thread from its phase keeps what holds of the locks.
abbrev Keeps : (ℕ → Phase → LockManager → Option LockManager) → Type 0
Keeps f =
    (i : ℕ) (p : Phase) (s s' : LockManager)
    → IsSound s
    → Map.lookup i s.threads ≡ some p
    → f i p s ≡ some s'
    → IsSound s'

in_phase-IsSound :
    (i : ℕ) (f : ℕ → Phase → LockManager → Option LockManager) (s s' : LockManager)
    → Keeps f
    → IsSound s
    → in_phase i f s ≡ some s'
    → IsSound s'
in_phase-IsSound i f s s' keeps h e = elim (Option-cases (Map.lookup i s.threads)) [
  | inl g ↦ absurd (ground (arith, e, g))
  | inr (p, g) ↦ keeps i p s s' h g (ground (arith, e, g))
]

becomes :
    (s s' t : LockManager) → IsSound t → Path (Option LockManager) (some t) (some s') → IsSound s'
becomes s s' t h e = let same : t ≡ s' = ground (arith, e) in subst IsSound same h

write-Keeps : Keeps write
unfolding write
write-Keeps i (Phase.handled key lock) s s' h at e = elim (Bool-cases (is_locked lock s.threads)) [
  | inl f ↦ absurd (ground (arith, e, f))
  | inr f ↦
      becomes s s' (enter i (Phase.writing key lock) s) (write-IsSound i key lock s h at f)
        (ground (arith, e, f))
]
write-Keeps i p s s' h at e = absurd (ground (arith, e))

check-Keeps : Keeps check
unfolding check
check-Keeps i (Phase.writing key lock) s s' h at e =
    becomes s s' _ (check-IsSound i key lock s h at) e
check-Keeps i p s s' h at e = absurd (ground (arith, e))

remove-Keeps : Keeps remove
unfolding remove
remove-Keeps i (Phase.removing key lock) s s' h at e =
    becomes s s' _ (remove-IsSound i key lock s h at) e
remove-Keeps i p s s' h at e = absurd (ground (arith, e))

release-Keeps : Keeps release
unfolding release
release-Keeps i (Phase.releasing key lock) s s' h at e =
    becomes s s' _ (release-IsSound i key lock s h at) e
release-Keeps i p s s' h at e = absurd (ground (arith, e))

drop_handle-Keeps : Keeps drop_handle
unfolding drop_handle
drop_handle-Keeps i (Phase.released key lock) s s' h at e =
    becomes s s' _ (drop_handle-IsSound i key lock s h at) e
drop_handle-Keeps i p s s' h at e = absurd (ground (arith, e))

step-IsSound :
    (e : Event) (s s' : LockManager) → IsSound s → IsCalm e s → step e s ≡ some s' → IsSound s'
unfolding step
step-IsSound (Event.asks i key) s s' h calm e = elim (Option-cases (Map.lookup i s.threads)) [
  | inr (p, f) ↦ absurd (ground (arith, e, f))
  | inl f ↦ becomes s s' (row_lock i key s) (row_lock-IsSound i key s h calm) (ground (arith, e, f))
]
step-IsSound (Event.writes i) s s' h calm e = in_phase-IsSound i write s s' write-Keeps h e
step-IsSound (Event.checks i) s s' h calm e = in_phase-IsSound i check s s' check-Keeps h e
step-IsSound (Event.removes i) s s' h calm e = in_phase-IsSound i remove s s' remove-Keeps h e
step-IsSound (Event.releases i) s s' h calm e = in_phase-IsSound i release s s' release-Keeps h e
step-IsSound (Event.drops i) s s' h calm e =
    in_phase-IsSound i drop_handle s s' drop_handle-Keeps h e

run-IsSound :
    (events : List Event) (s s' : LockManager)
    → IsSound s
    → AreCalm events s
    → run events s ≡ some s'
    → IsSound s'
unfolding run
run-IsSound [] s s' h calm e = becomes s s' s h e
run-IsSound (event ∷ events) s s' h (calm, later) e = elim (Option-cases (step event s)) [
  | inl f ↦ absurd (ground (arith, e, f))
  | inr (t, f) ↦
      run-IsSound events t s' (step-IsSound event s t h calm f)
        (subst (λ r. elim r as (λ _. Type 0) [ none ↦ Unit | some u ↦ AreCalm events u ]) f later)
        (ground (arith, e, f))
]

-- In every run in which no thread asks for a row's lock while another is between the count of the
-- lock's handles and the removal of its entry, no two threads write to a row at once.
pub one_writer :
    (events : List Event) (s : LockManager) (i j : ℕ) (key : RowKey) (lock other : ℕ)
    → AreCalm events new
    → run events new ≡ some s
    → Map.lookup i s.threads ≡ some (Phase.writing key lock)
    → Map.lookup j s.threads ≡ some (Phase.writing key other)
    → i ≡ j
one_writer events s i j key lock other calm e at at' =
    let h = run-IsSound events new s new-IsSound calm e in
    elim (dec_eq i j) [
      | yes same ↦ same
      | no ne ↦
          let own : Map.lookup key s.row_locks ≡ some lock =
            h.mapped i (Phase.writing key lock) key at refl in
          let its : Map.lookup key s.row_locks ≡ some other =
            h.mapped j (Phase.writing key other) key at' refl in
          absurd (
            h.held i j (Phase.writing key lock) (Phase.writing key other) at at' ne refl refl
              (ground (arith, own, its)))
    ]
