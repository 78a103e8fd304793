-- ===== src/Wal/Log/Runs.antt =====
-- Runs of `append` of moodeng-core/src/wal.rs: the records that they leave in the log.
use mathlib.Core.List.{append_assoc, append-nil}
use moodeng_sql.Prelude.{ℕ, List, [], ◌∷◌, ◌++◌, ◌+◌, ◌^◌, ◌<◌, ◌≡◌, refl, sym, ap, ◌∙◌, arith}
use mathlib.Core.Path.{subst}
use moodeng_sql.Prelude.Lists.{length, All}
use moodeng_sql.Wal.Defs.{WalOp, Bincode}
use moodeng_sql.Wal.Codec.{Entry}
use moodeng_sql.Wal.Log.{WriteAheadLog, append}
use moodeng_sql.Wal.Log.Appended.{Holds, CanAppend, append-Holds, lsn-append}

module _ {V : Type 0} where
  -- The records of these operations, with the LSNs behind `lsn`.
  abbrev pub numbered : ℕ → List (WalOp V) → List (Entry V)
  numbered lsn [] = []
  numbered lsn (op ∷ ops) = (lsn + 1, op) ∷ numbered (lsn + 1) ops

module _ {V : Type 0} (b : Bincode (WalOp V)) where
  unfoldable pub append_all : List (WalOp V) → WriteAheadLog → WriteAheadLog
  append_all [] w = w
  append_all (op ∷ ops) w = append_all ops (append b op w).1

  abbrev pub BodyFits : WalOp V → Type 0
  BodyFits op = 4 + length (b.serialize op) < 2 ^ 32

  pub append_all-append :
      (xs ys : List (WalOp V)) (w : WriteAheadLog)
      → append_all (xs ++ ys) w ≡ append_all ys (append_all xs w)
  unfolding append_all
  append_all-append [] ys w = refl
  append_all-append (op ∷ xs) ys w = append_all-append xs ys (append b op w).1

  -- A run of appends leaves its records behind the others, in its order.
  pub append_all-Holds :
      (ops : List (WalOp V)) (w : WriteAheadLog) (es : List (Entry V))
      → Holds b w es
      → All BodyFits ops
      → w.lsn + length ops < 2 ^ 64
      → Holds b (append_all ops w) (es ++ numbered w.lsn ops)
        × ((append_all ops w).lsn ≡ w.lsn + length ops)
  unfolding append_all
  append_all-Holds [] w es h fits room = (subst (Holds b w) (sym (append-nil es)) h, omega arith)
  append_all-Holds (op ∷ ops) w es h fits room =
      let can : CanAppend b w op = record { lsn_room = omega arith; body_room = fits.0 } in
      let next : (append b op w).1.lsn ≡ w.lsn + 1 = omega (arith, lsn-append b w op) in
      let e : Entry V = (w.lsn + 1, op) in
      let (holds, last) =
        append_all-Holds ops (append b op w).1 (es ++ e ∷ []) (append-Holds b w op es h can).1
          fits.1 (omega arith) in
      let same : (es ++ e ∷ []) ++ numbered (append b op w).1.lsn ops
          ≡ es ++ numbered w.lsn (op ∷ ops) =
        append_assoc es (e ∷ []) (numbered (append b op w).1.lsn ops)
        ∙ ap (λ n. es ++ e ∷ numbered n ops) next in
      (subst (Holds b (append_all ops (append b op w).1)) same holds, omega arith)
