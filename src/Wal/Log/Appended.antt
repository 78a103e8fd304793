-- ===== src/Wal/Log/Appended.antt =====
-- What `append`, `mark_checkpoint` and `truncate` of moodeng-core/src/wal.rs leave in the log.
use mathlib.Core.List.{append-nil, map-append}
use moodeng_sql.Prelude.{
  ℕ, ◌+◌, ◌^◌, ◌≤◌, ◌<◌, ◌≡◌, refl, ◌∙◌, List, [], ◌∷◌, ◌++◌, arith, ltb, suc_u64,
}
use moodeng_sql.Prelude.Lists.{length, filter_by, concat-append, All, All-append, All-weaken}
use moodeng_sql.Prelude.Sort.{IsAscending, IsAscending-snoc}
use moodeng_sql.Wal.Defs.{WalOp, Bincode, CheckpointState}
use moodeng_sql.Wal.Codec.{Entry, encode_wal_entry}
use moodeng_sql.Wal.Codec.RoundTrip.{Fits, encode_all, replay-encode_all}
use moodeng_sql.Wal.Log.{WriteAheadLog, append, mark_checkpoint, truncate, replay_since}

abbrev pub lsn_of : {V : Type 0} → Entry V → ℕ
lsn_of e = e.0

module _ {V : Type 0} (b : Bincode (WalOp V)) where
  -- The log's file holds these records, whose LSNs grow up to the current one.
  pub record Holds (w : WriteAheadLog) (es : List (Entry V)) : Type 0 where
    pub bytes : w.file ≡ encode_all b es
    pub fits : All (Fits b) es
    pub ascending : IsAscending lsn_of es
    pub bounded : All (λ e. e.0 ≤ w.lsn) es

  -- The next record fits its fields.
  pub record CanAppend (w : WriteAheadLog) (op : WalOp V) : Type 0 where
    pub lsn_room : w.lsn + 1 < 2 ^ 64
    pub body_room : 4 + length (b.serialize op) < 2 ^ 32

  pub encode_all-append :
      (xs ys : List (Entry V)) → encode_all b (xs ++ ys) ≡ encode_all b xs ++ encode_all b ys
  encode_all-append xs ys = rw (map-append, concat-append)

  pub encode_all-snoc :
      (es : List (Entry V)) (lsn : ℕ) (op : WalOp V)
      → encode_all b (es ++ (lsn, op) ∷ []) ≡ encode_all b es ++ encode_wal_entry b lsn op
  encode_all-snoc es lsn op = encode_all-append es ((lsn, op) ∷ []) ∙ rw append-nil

  pub file-append :
      (w : WriteAheadLog) (op : WalOp V)
      → (append b op w).1.file ≡ w.file ++ encode_wal_entry b (suc_u64 w.lsn) op
  unfolding append
  file-append w op = ground arith

  pub lsn-append : (w : WriteAheadLog) (op : WalOp V) → (append b op w).1.lsn ≡ suc_u64 w.lsn
  unfolding append
  lsn-append w op = ground arith

  -- `append` returns the next LSN, and puts its record behind the others.
  pub append-Holds :
      (w : WriteAheadLog) (op : WalOp V) (es : List (Entry V))
      → Holds w es
      → CanAppend w op
      → ((append b op w).0 ≡ w.lsn + 1) × Holds (append b op w).1 (es ++ (w.lsn + 1, op) ∷ [])
  append-Holds w op es h room =
      let next : suc_u64 w.lsn ≡ w.lsn + 1 = omega (arith, room.lsn_room) in
      (
        unfold append in next,
        record {
          bytes = rw (file-append, next, h.bytes, encode_all-snoc) refl;
          fits =
              All-append (Fits b) es ((w.lsn + 1, op) ∷ []) h.fits
                (record { lsn_fits = room.lsn_room; body_fits = room.body_room }, tt);
          ascending =
              IsAscending-snoc lsn_of es (w.lsn + 1, op) h.ascending
                (All-weaken (λ e. e.0 ≤ w.lsn) (λ e. e.0 < w.lsn + 1) es (λ e le. omega arith)
                  h.bounded);
          bounded =
              rw (lsn-append, next)
                (All-append (λ e. e.0 ≤ w.lsn + 1) es ((w.lsn + 1, op) ∷ [])
                  (All-weaken (λ e. e.0 ≤ w.lsn) (λ e. e.0 ≤ w.lsn + 1) es (λ e le. omega arith)
                    h.bounded)
                  (omega arith, tt));
        },
      )

  -- A log is replayed from its file: exactly the records after `from_lsn`.
  pub replay_since-Holds :
      (from_lsn : ℕ) (w : WriteAheadLog) (es : List (Entry V))
      → Holds w es
      → replay_since b from_lsn w ≡ filter_by (λ e. ltb from_lsn e.0) es
  unfolding replay_since
  replay_since-Holds from_lsn w es h = rw h.bytes (replay-encode_all b from_lsn es h.fits)

  pub mark_checkpoint-Holds :
      (c : Bincode CheckpointState) (lsn : ℕ) (w : WriteAheadLog) (es : List (Entry V))
      → Holds w es
      → Holds (mark_checkpoint c lsn w) es
  unfolding mark_checkpoint
  mark_checkpoint-Holds c lsn w es h = record {
    bytes = h.bytes;
    fits = h.fits;
    ascending = h.ascending;
    bounded = h.bounded;
  }

  pub truncate-Holds : (w : WriteAheadLog) → Holds (truncate w) []
  unfolding truncate
  truncate-Holds w = record { bytes = refl; fits = tt; ascending = tt; bounded = tt }
