-- ===== src/Wal/Codec.antt =====
-- moodeng-core/src/wal.rs: `encode_wal_entry`, and the loops that read a log back. The loops take
-- fuel: each record is longer than nothing, so that more fuel than bytes is enough.
pub mod Reading
pub mod RoundTrip
pub mod Torn
use moodeng_sql.Prelude.{
  ℕ, zero, suc, ◌+◌, ◌-◌, ◌%◌, ◌^◌, Option, none, some, List, [], ◌∷◌, ◌++◌, ◌⊎◌, inl, inr, ltb,
  ◌==◌, max, if◌then◌else◌,
}
use moodeng_sql.Prelude.Lists.{length, drop}
use moodeng_sql.Prelude.Bytes.{Bytes, to_be_bytes, from_be_bytes, read_exact}
use moodeng_sql.Wal.Defs.{WalOp, Bincode}
use moodeng_sql.Wal.Crc.{crc32}

infixl 5 ◌>>=◌
abbrev pub ◌>>=◌ {ℓ κ} : {A : Type ℓ} {B : Type κ} → Option A → (A → Option B) → Option B
none >>= f = none
some a >>= f = f a

abbrev pub Entry : Type 0 → Type 0
Entry V = ℕ × WalOp V

-- The two fields that every record begins with: its LSN and its body's length. A length below
-- four ends the loop.
unfoldable pub read_header : Bytes → Option (ℕ × ℕ × Bytes)
read_header data_bytes = do
  (lsn_buf, after_lsn) ← read_exact 8 data_bytes
  (len_buf, after_len) ← read_exact 4 after_lsn
  (if ltb (from_be_bytes len_buf) 4
      then none
      else some (from_be_bytes lsn_buf, from_be_bytes len_buf, after_len))

-- `read_max_lsn` seeks over the body, which succeeds past the end of the file too.
unfoldable pub max_lsn_loop : ℕ → ℕ → Bytes → ℕ
max_lsn_loop zero max_lsn file = max_lsn
max_lsn_loop (suc fuel) max_lsn file = elim (read_header file) [
  | none ↦ max_lsn
  | some (lsn, body_len, rest) ↦ max_lsn_loop fuel (max max_lsn lsn) (drop body_len rest)
]

unfoldable pub read_max_lsn : Bytes → ℕ
unfolding max_lsn_loop
read_max_lsn file = max_lsn_loop (suc (length file)) 0 file

module _ {V : Type 0} (b : Bincode (WalOp V)) where
  unfoldable pub encode_wal_entry : ℕ → WalOp V → Bytes
  encode_wal_entry lsn op =
      let payload = b.serialize op in
      to_be_bytes 8 lsn
      ++ (to_be_bytes 4 ((4 + length payload) % 2 ^ 32)
          ++ (to_be_bytes 4 (crc32 payload) ++ payload))

  -- `Err(_) => break`
  abbrev pub decode_payload : Bytes → Option (WalOp V)
  decode_payload payload = elim (b.deserialize payload) [ inl _ ↦ none | inr op ↦ some op ]

  -- One round of the loop: a record and what is behind it, or none where the loop breaks.
  unfoldable pub read_entry : Bytes → Option (Entry V × Bytes)
  unfolding read_header
  read_entry data_bytes = do
    (lsn, body_len, after_len) ← read_header data_bytes
    (crc_buf, after_crc) ← read_exact 4 after_len
    (payload, rest) ← read_exact (body_len - 4) after_crc
    op ← (if crc32 payload == from_be_bytes crc_buf then decode_payload payload else none)
    some ((lsn, op), rest)

  unfoldable pub replay_loop : ℕ → ℕ → Bytes → List (Entry V)
  replay_loop zero from_lsn data_bytes = []
  replay_loop (suc fuel) from_lsn data_bytes = elim (read_entry data_bytes) [
    | none ↦ []
    | some (e, rest) ↦
        let later = replay_loop fuel from_lsn rest in if ltb from_lsn e.0 then e ∷ later else later
  ]

  unfoldable pub replay_from_bytes : Bytes → ℕ → List (Entry V)
  unfolding replay_loop
  replay_from_bytes data_bytes from_lsn = replay_loop (suc (length data_bytes)) from_lsn data_bytes
