-- ===== src/Wal/Codec/Torn.antt =====
-- Logs that end in the middle of a record, and damaged records: moodeng-core/src/wal.rs stops there.
use mathlib.Core.List.{append_assoc, append-nil}
use moodeng_sql.Prelude.{
  ℕ, zero, suc, ◌+◌, ◌-◌, ◌^◌, ◌<◌, ◌≡◌, ◌≢◌, refl, ◌∙◌, inl, inr, false, none, List, [], ◌∷◌, ◌++◌,
  arith, ltb, ◌==◌, Option-cases,
}
use moodeng_sql.Prelude.Lists.{length, filter_by, All, IsPrefix}
use moodeng_sql.Prelude.Bytes.{
  Bytes, to_be_bytes, from_be_bytes, from_be_bytes-to_be_bytes, read_exact-append,
}
use moodeng_sql.Wal.Defs.{WalOp, Bincode}
use moodeng_sql.Wal.Crc.{crc32}
use moodeng_sql.Wal.Codec.{Entry, read_entry, encode_wal_entry, replay_from_bytes}
use moodeng_sql.Wal.Codec.Reading.{read_entry-extend, read_entry-shorter}
use moodeng_sql.Wal.Codec.RoundTrip.{
  Fits, encode_all, read_entry-encode, read_exact-to_be_bytes, replay_from_bytes-step,
  replay_from_bytes-stop, replay-encode_all-append,
}

nil_of_append-nil {ℓ} : {A : Type ℓ} (xs ys : List A) → xs ++ ys ≡ [] → ys ≡ []
nil_of_append-nil [] ys h = h
nil_of_append-nil (x ∷ xs) ys h = cc

module _ {V : Type 0} (b : Bincode (WalOp V)) where
  loop_prefix :
      (fuel from_lsn : ℕ) (bs more : Bytes)
      → length bs < fuel
      → IsPrefix (replay_from_bytes b bs from_lsn) (replay_from_bytes b (bs ++ more) from_lsn)
  loop_prefix zero from_lsn bs more h = absurd (omega arith)
  loop_prefix (suc fuel) from_lsn bs more h = elim (Option-cases (read_entry b bs)) [
    | inl e ↦
        rw (replay_from_bytes-stop b from_lsn bs e)
          (replay_from_bytes b (bs ++ more) from_lsn, refl)
    | inr ((e, rest), p) ↦
        let shorter : length rest < length bs = read_entry-shorter b bs p in
        let (later, q) = loop_prefix fuel from_lsn rest more (omega arith) in
        rw
          (
            replay_from_bytes-step b from_lsn bs p,
            replay_from_bytes-step b from_lsn (bs ++ more) (read_entry-extend b bs more p),
            q,
          )
          (later, ground arith)
  ]

  -- Whatever the bytes are: cutting them off anywhere keeps the first entries of the replay, and
  -- adds none.
  pub replay_cut_IsPrefix :
      (from_lsn : ℕ) (bs more : Bytes)
      → IsPrefix (replay_from_bytes b bs from_lsn) (replay_from_bytes b (bs ++ more) from_lsn)
  replay_cut_IsPrefix from_lsn bs more =
      loop_prefix (suc (length bs)) from_lsn bs more (omega arith)

  -- The bytes of a record without its end.
  pub record IsTorn (torn : Bytes) : Type 0 where
    pub lsn : ℕ
    pub op : WalOp V
    pub fits : Fits b (lsn, op)
    pub missing : Bytes
    pub some_missing : missing ≢ []
    pub whole : encode_wal_entry b lsn op ≡ torn ++ missing

  read_entry-torn : (torn : Bytes) → IsTorn torn → read_entry b torn ≡ none
  read_entry-torn torn t = elim (Option-cases (read_entry b torn)) [
    | inl e ↦ e
    | inr ((e, rest), p) ↦
        let long = read_entry-extend b torn t.missing p in
        let right = rw (append-nil, t.whole) at (read_entry-encode b t.lsn t.op [] t.fits) in
        let tail : rest ++ t.missing ≡ [] = ground arith in
        absurd (t.some_missing (nil_of_append-nil rest t.missing tail))
  ]

  -- A log whose last record is torn is replayed up to that record.
  pub replay_torn :
      (from_lsn : ℕ) (es : List (Entry V)) (torn : Bytes)
      → All (Fits b) es
      → IsTorn torn
      → replay_from_bytes b (encode_all b es ++ torn) from_lsn
        ≡ filter_by (λ e. ltb from_lsn e.0) es
  replay_torn from_lsn es torn h t =
      replay-encode_all-append b from_lsn es torn h
      ∙ rw (replay_from_bytes-stop b from_lsn torn (read_entry-torn torn t), append-nil)

  -- A record with some payload and a checksum.
  abbrev pub framed : ℕ → ℕ → Bytes → Bytes
  framed lsn crc payload =
      to_be_bytes 8 lsn ++ (to_be_bytes 4 (4 + length payload) ++ (to_be_bytes 4 crc ++ payload))

  read_entry-damaged :
      (lsn crc : ℕ) (payload rest : Bytes)
      → 4 + length payload < 2 ^ 32
      → crc < 2 ^ 32
      → crc32 payload ≢ crc
      → read_entry b (framed lsn crc payload ++ rest) ≡ none
  unfolding read_entry
  read_entry-damaged lsn crc payload rest small c_small wrong =
      let k : from_be_bytes (to_be_bytes 4 crc) ≡ crc = from_be_bytes-to_be_bytes 4 crc c_small in
      let m : from_be_bytes (to_be_bytes 4 (4 + length payload)) ≡ 4 + length payload =
        from_be_bytes-to_be_bytes 4 (4 + length payload) small in
      let len : 4 + length payload - 4 ≡ length payload = omega arith in
      let long_enough : ltb (4 + length payload) 4 ≡ false = ground arith in
      let unequal : (crc32 payload == crc) ≡ false = ground arith in
      rw (
        append_assoc, append_assoc, append_assoc, read_exact-to_be_bytes, read_exact-to_be_bytes, m,
        long_enough, read_exact-to_be_bytes, len, read_exact-append, k, unequal,
      )

  -- Past a record whose stored checksum is not that of its payload nothing is replayed.
  pub replay_damaged :
      (from_lsn : ℕ) (es : List (Entry V)) (lsn crc : ℕ) (payload rest : Bytes)
      → All (Fits b) es
      → 4 + length payload < 2 ^ 32
      → crc < 2 ^ 32
      → crc32 payload ≢ crc
      → replay_from_bytes b (encode_all b es ++ (framed lsn crc payload ++ rest)) from_lsn
        ≡ filter_by (λ e. ltb from_lsn e.0) es
  replay_damaged from_lsn es lsn crc payload rest h small c_small wrong =
      replay-encode_all-append b from_lsn es (framed lsn crc payload ++ rest) h
      ∙ rw (
        replay_from_bytes-stop b from_lsn (framed lsn crc payload ++ rest)
            (read_entry-damaged lsn crc payload rest small c_small wrong),
        append-nil,
      )
