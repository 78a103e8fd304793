-- ===== src/Wal/Log/Crash.antt =====
-- Group commit and crashes: what a crash leaves of the log of moodeng-core/src/wal.rs, and what is
-- replayed of it.
use mathlib.Core.List.{append_assoc, append-nil}
use moodeng_sql.Prelude.{
  if◌then◌else◌, ℕ, ◌+◌, ◌-◌, ◌^◌, ◌≤◌, ◌<◌, ◌≡◌, refl, ap, sym, ◌∙◌, List, [], ◌∷◌, ◌++◌, arith,
  ltb, inl, inr, Bool-cases, suc_u64, leb,
}
use moodeng_sql.Prelude.Lists.{
  length, length-append, filter_by, All, All-append, IsPrefix, take, drop, take-append,
  take-append-drop,
}
use moodeng_sql.Prelude.Bytes.{Bytes}
use moodeng_sql.Wal.Defs.{WalOp, Bincode, wal_sync_batch}
use moodeng_sql.Wal.Codec.{Entry, replay_from_bytes}
use moodeng_sql.Wal.Codec.RoundTrip.{Fits, encode_all, replay-encode_all, replay-encode_all-append}
use moodeng_sql.Wal.Codec.Torn.{replay_cut_IsPrefix}
use moodeng_sql.Wal.Log.{WriteAheadLog, append}
use moodeng_sql.Wal.Log.Appended.{
  file-append, encode_all-append, encode_all-snoc, CanAppend, lsn-append,
}
use moodeng_sql.Wal.Log.Runs.{numbered, append_all, BodyFits}

module _ {V : Type 0} (b : Bincode (WalOp V)) where
  -- `durable` are the records that the last fsync covers, `pending` those written since.
  pub record Synced (w : WriteAheadLog) (durable pending : List (Entry V)) : Type 0 where
    pub bytes : w.file ≡ encode_all b durable ++ encode_all b pending
    pub synced : w.synced ≡ length (encode_all b durable)
    pub count : w.unsynced_writes ≡ length pending
    pub few : length pending < wal_sync_batch
    pub durable_fits : All (Fits b) durable
    pub pending_fits : All (Fits b) pending

  synced-append :
      (w : WriteAheadLog) (op : WalOp V)
      → (append b op w).1.synced ≡ (
          if leb wal_sync_batch (suc_u64 w.unsynced_writes)
          then length (append b op w).1.file
          else w.synced)
  unfolding append
  synced-append w op = ground arith

  unsynced_writes-append :
      (w : WriteAheadLog) (op : WalOp V)
      → (append b op w).1.unsynced_writes
        ≡ (if leb wal_sync_batch (suc_u64 w.unsynced_writes) then 0 else suc_u64 w.unsynced_writes)
  unfolding append
  unsynced_writes-append w op = ground arith

  -- A record that was appended is pending, until the tenth makes all of them durable.
  append-Synced :
      (w : WriteAheadLog) (op : WalOp V) (durable pending : List (Entry V))
      → Synced w durable pending
      → CanAppend b w op
      → (durable' : List (Entry V)) × (pending' : List (Entry V)) × Synced
          (append b op w).1
          durable'
          pending'
        × (durable' ++ pending' ≡ durable ++ (pending ++ (w.lsn + 1, op) ∷ []))
  append-Synced w op durable pending s room =
      let e : Entry V = (w.lsn + 1, op) in
      let next : suc_u64 w.lsn ≡ w.lsn + 1 = omega (arith, room.lsn_room) in
      let more : suc_u64 w.unsynced_writes ≡ length pending + 1 = omega (arith, s.count, s.few) in
      let fits : All (Fits b) (pending ++ e ∷ []) =
        All-append (Fits b) pending (e ∷ []) s.pending_fits
          (record { lsn_fits = room.lsn_room; body_fits = room.body_room }, tt) in
      let file : (append b op w).1.file ≡ encode_all b durable ++ encode_all b (pending ++ e ∷ []) =
        rw (file-append, next, s.bytes, append_assoc, encode_all-snoc b pending (w.lsn + 1) op)
          refl in
      let whole : (append b op w).1.file ≡ encode_all b (durable ++ (pending ++ e ∷ [])) =
        rw (encode_all-append b durable (pending ++ e ∷ [])) file in
      elim (Bool-cases (leb wal_sync_batch (length pending + 1))) [
        | inl full ↦ (
          durable ++ (pending ++ e ∷ []),
          [],
          record {
            bytes = rw append-nil whole;
            synced = rw (synced-append, more, full) (ap length whole);
            count = rw (unsynced_writes-append, more, full) refl;
            few = omega arith;
            durable_fits = All-append (Fits b) durable (pending ++ e ∷ []) s.durable_fits fits;
            pending_fits = tt;
          },
          append-nil _,
        )
        | inr below ↦ (
          durable,
          pending ++ e ∷ [],
          record {
            bytes = file;
            synced = rw (synced-append, more, below) s.synced;
            count =
                rw (unsynced_writes-append, more, below)
                  (omega (arith, length-append pending (e ∷ [])));
            few = ground (arith, length-append pending (e ∷ []));
            durable_fits = s.durable_fits;
            pending_fits = fits;
          },
          refl,
        )
      ]

  replay_cut :
      (from_lsn n : ℕ) (w : WriteAheadLog) (durable pending : List (Entry V))
      → Synced w durable pending
      → w.synced ≤ n
      → IsPrefix
          (filter_by (λ e. ltb from_lsn e.0) durable)
          (replay_from_bytes b (take n w.file) from_lsn)
        × IsPrefix
            (replay_from_bytes b (take n w.file) from_lsn)
            (filter_by (λ e. ltb from_lsn e.0) (durable ++ pending))
  replay_cut from_lsn n w durable pending s le =
      let cut : Bytes = take (n - length (encode_all b durable)) (encode_all b pending) in
      let kept : take n w.file ≡ encode_all b durable ++ cut =
        rw s.bytes
          (take-append n (encode_all b durable) (encode_all b pending) (omega (arith, s.synced))) in
      let all : w.file ≡ encode_all b (durable ++ pending) =
        rw (encode_all-append b durable pending) s.bytes in
      let replayed : replay_from_bytes b w.file from_lsn
          ≡ filter_by (λ e. ltb from_lsn e.0) (durable ++ pending) =
        rw all (
          replay-encode_all b from_lsn (durable ++ pending)
            (All-append (Fits b) durable pending s.durable_fits s.pending_fits)) in
      let whole_prefix : IsPrefix (replay_from_bytes b (take n w.file) from_lsn)
          (replay_from_bytes b w.file from_lsn) =
        rw (take-append-drop n w.file) at
          (replay_cut_IsPrefix b from_lsn (take n w.file) (drop n w.file)) in
      (
        rw (kept, replay-encode_all-append b from_lsn durable cut s.durable_fits)
            (replay_from_bytes b cut from_lsn, refl),
        rw (← replayed) whole_prefix,
      )

  append_all-Synced :
      (ops : List (WalOp V)) (w : WriteAheadLog) (durable pending : List (Entry V))
      → Synced w durable pending
      → All (BodyFits b) ops
      → w.lsn + length ops < 2 ^ 64
      → (durable' : List (Entry V)) × (pending' : List (Entry V)) × Synced
          (append_all b ops w)
          durable'
          pending'
        × (durable' ++ pending' ≡ (durable ++ pending) ++ numbered w.lsn ops)
  unfolding append_all
  append_all-Synced [] w durable pending s fits room =
      (durable, pending, s, sym (append-nil (durable ++ pending)))
  append_all-Synced (op ∷ ops) w durable pending s fits room =
      let can : CanAppend b w op = record { lsn_room = omega arith; body_room = fits.0 } in
      let next : (append b op w).1.lsn ≡ w.lsn + 1 = omega (arith, lsn-append b w op) in
      let e : Entry V = (w.lsn + 1, op) in
      let (durable', pending', s', whole) = append-Synced w op durable pending s can in
      let (durable'', pending'', s'', whole') =
        append_all-Synced ops (append b op w).1 durable' pending' s' fits.1 (omega arith) in
      let one : durable' ++ pending' ≡ (durable ++ pending) ++ e ∷ [] =
        whole ∙ sym (append_assoc durable pending (e ∷ [])) in
      (
        durable'',
        pending'',
        s'',
        whole'
            ∙ (ap (λ l. l ++ numbered (append b op w).1.lsn ops) one
                ∙ (append_assoc (durable ++ pending) (e ∷ []) (numbered (append b op w).1.lsn ops)
                    ∙ ap (λ n. (durable ++ pending) ++ e ∷ numbered n ops) next)),
      )

  -- Any run of appends to a log with nothing unsynced, then a crash that cuts the file anywhere
  -- behind what was synced: all but the last records, less than ten, are still replayed, and
  -- what is replayed is an initial part of what was in the log and what the run appended, from the
  -- LSN on that is asked for.
  pub replay_after_crash :
      (from_lsn n : ℕ) (ops : List (WalOp V)) (w : WriteAheadLog) (es : List (Entry V))
      → Synced w es []
      → All (BodyFits b) ops
      → w.lsn + length ops < 2 ^ 64
      → (append_all b ops w).synced ≤ n
      → let replayed = replay_from_bytes b (take n (append_all b ops w).file) from_lsn in
        (kept : List (Entry V)) × (lost : List (Entry V)) × (kept ++ lost
          ≡ es ++ numbered w.lsn ops)
        × (length lost < wal_sync_batch)
        × IsPrefix (filter_by (λ e. ltb from_lsn e.0) kept) replayed
        × IsPrefix replayed (filter_by (λ e. ltb from_lsn e.0) (es ++ numbered w.lsn ops))
  replay_after_crash from_lsn n ops w es s fits room le =
      let (kept, lost, s', whole) = append_all-Synced ops w es [] s fits room in
      let all : kept ++ lost ≡ es ++ numbered w.lsn ops =
        whole ∙ ap (λ l. l ++ numbered w.lsn ops) (append-nil es) in
      let (still, part) = replay_cut from_lsn n (append_all b ops w) kept lost s' le in
      (kept, lost, all, s'.few, still, rw all at part)
