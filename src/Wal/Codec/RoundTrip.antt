-- ===== src/Wal/Codec/RoundTrip.antt =====
-- Reading back what `encode_wal_entry` of moodeng-core/src/wal.rs wrote.
use moodeng_sql.Prelude.{
  ℕ, zero, suc, ◌+◌, ◌-◌, ◌%◌, ◌^◌, ◌<◌, ◌≡◌, refl, sym, ap, ◌∙◌, none, some, List, [], ◌∷◌, ◌++◌,
  map, arith, ltb, ==_self, max, if◌then◌else◌,
}
use mathlib.Core.List.{append_assoc, append-nil}
use moodeng_sql.Prelude.Lists.{length, drop, length-append, filter_by, concat, All}
use moodeng_sql.Prelude.Bytes.{
  Bytes, to_be_bytes, from_be_bytes, read_exact, length-to_be_bytes, from_be_bytes-to_be_bytes,
  read_exact-append,
}
use moodeng_sql.Wal.Defs.{WalOp, Bincode}
use moodeng_sql.Wal.Crc.{crc32, crc32-lt}
use moodeng_sql.Wal.Codec.{
  Entry, read_header, read_entry, decode_payload, encode_wal_entry, replay_loop, replay_from_bytes,
  max_lsn_loop, read_max_lsn,
}
use moodeng_sql.Wal.Codec.Reading.{replay_loop_fuel, read_entry-shorter}

-- An integer written with n bytes is the next n bytes that are read.
pub read_exact-to_be_bytes :
    (n x : ℕ) (rest : Bytes) → read_exact n (to_be_bytes n x ++ rest) ≡ some (to_be_bytes n x, rest)
read_exact-to_be_bytes n x rest =
    let e : length (to_be_bytes n x) ≡ n = length-to_be_bytes n x in
    ap (λ k. read_exact k (to_be_bytes n x ++ rest)) (sym e)
    ∙ read_exact-append (to_be_bytes n x) rest

module _ {V : Type 0} (b : Bincode (WalOp V)) where
  -- The widths of the fields hold the LSN and the length of the body.
  pub record Fits (e : Entry V) : Type 0 where
    pub lsn_fits : e.0 < 2 ^ 64
    pub body_fits : 4 + length (b.serialize e.1) < 2 ^ 32

  abbrev pub encode_all : List (Entry V) → Bytes
  encode_all es = concat (map (λ e. encode_wal_entry b e.0 e.1) es)

  encoded-append :
      (lsn : ℕ) (op : WalOp V) (rest : Bytes)
      → encode_wal_entry b lsn op ++ rest
        ≡ to_be_bytes 8 lsn
          ++ (to_be_bytes 4 ((4 + length (b.serialize op)) % 2 ^ 32)
              ++ (to_be_bytes 4 (crc32 (b.serialize op)) ++ (b.serialize op ++ rest)))
  unfolding encode_wal_entry
  encoded-append lsn op rest = simp append_assoc

  pub read_header-encode :
      (lsn : ℕ) (op : WalOp V) (rest : Bytes)
      → Fits (lsn, op)
      → read_header (encode_wal_entry b lsn op ++ rest)
        ≡ some (
          lsn,
          4 + length (b.serialize op),
          to_be_bytes 4 (crc32 (b.serialize op)) ++ (b.serialize op ++ rest),
        )
  unfolding read_header
  read_header-encode lsn op rest fits =
      let n : ℕ = 4 + length (b.serialize op) in
      let small : n % 2 ^ 32 ≡ n = omega (arith, fits.body_fits) in
      let l : from_be_bytes (to_be_bytes 8 lsn) ≡ lsn =
        from_be_bytes-to_be_bytes 8 lsn fits.lsn_fits in
      let m : from_be_bytes (to_be_bytes 4 n) ≡ n = from_be_bytes-to_be_bytes 4 n fits.body_fits in
      rw (encoded-append lsn op rest, read_exact-to_be_bytes, read_exact-to_be_bytes, small, l, m)
        (ground arith)

  decode_payload-serialize : (op : WalOp V) → decode_payload b (b.serialize op) ≡ some op
  decode_payload-serialize op = rw (b.deserialize-serialize op, decode_payload)

  pub read_entry-encode :
      (lsn : ℕ) (op : WalOp V) (rest : Bytes)
      → Fits (lsn, op)
      → read_entry b (encode_wal_entry b lsn op ++ rest) ≡ some ((lsn, op), rest)
  unfolding read_entry
  read_entry-encode lsn op rest fits =
      let c : ℕ = crc32 (b.serialize op) in
      let k : from_be_bytes (to_be_bytes 4 c) ≡ c =
        from_be_bytes-to_be_bytes 4 c (crc32-lt (b.serialize op)) in
      let len : 4 + length (b.serialize op) - 4 ≡ length (b.serialize op) = omega arith in
      rw (
        read_header-encode lsn op rest fits,
        read_exact-to_be_bytes,
        len,
        read_exact-append,
        k,
        ==_self,
        decode_payload-serialize,
      )

  pub replay_from_bytes-step :
      (from_lsn : ℕ) (bs : Bytes) {e : Entry V} {rest : Bytes}
      → read_entry b bs ≡ some (e, rest)
      → replay_from_bytes b bs from_lsn ≡ (
          let later = replay_from_bytes b rest from_lsn in
          if ltb from_lsn e.0 then e ∷ later else later)
  unfolding replay_from_bytes
  replay_from_bytes-step from_lsn bs {e} {rest} p =
      let shorter : length rest < length bs = read_entry-shorter b bs p in
      rw (
        p,
        replay_loop,
        replay_loop_fuel b (length bs) (suc (length rest)) from_lsn rest shorter (omega arith),
      )

  pub replay_from_bytes-stop :
      (from_lsn : ℕ) (bs : Bytes) → read_entry b bs ≡ none → replay_from_bytes b bs from_lsn ≡ []
  unfolding replay_from_bytes
  replay_from_bytes-stop from_lsn bs p = rw (p, replay_loop)

  pub read_entry-nil : read_entry b [] ≡ none
  unfolding read_entry read_exact
  read_entry-nil = refl

  -- Encoded records in front of any bytes: those after `from_lsn` are read, in their order, and
  -- then what the other bytes give.
  pub replay-encode_all-append :
      (from_lsn : ℕ) (es : List (Entry V)) (tail : Bytes)
      → All Fits es
      → replay_from_bytes b (encode_all es ++ tail) from_lsn
        ≡ filter_by (λ e. ltb from_lsn e.0) es ++ replay_from_bytes b tail from_lsn
  replay-encode_all-append from_lsn [] tail h = refl
  replay-encode_all-append from_lsn ((lsn, op) ∷ es) tail h =
      let one : Bytes = encode_wal_entry b lsn op in
      let rest = replay-encode_all-append from_lsn es tail h.1 in
      let step =
        replay_from_bytes-step from_lsn (one ++ (encode_all es ++ tail))
          (read_entry-encode lsn op (encode_all es ++ tail) h.0) in
      rw (append_assoc, step, rest) (ground arith)

  -- What was encoded is what is replayed: exactly the records after `from_lsn`, in their order.
  pub replay-encode_all :
      (from_lsn : ℕ) (es : List (Entry V))
      → All Fits es
      → replay_from_bytes b (encode_all es) from_lsn ≡ filter_by (λ e. ltb from_lsn e.0) es
  replay-encode_all from_lsn es h =
      let all : replay_from_bytes b (encode_all es ++ []) from_lsn
          ≡ filter_by (λ e. ltb from_lsn e.0) es ++ replay_from_bytes b [] from_lsn =
        replay-encode_all-append from_lsn es [] h in
      ap (λ bs. replay_from_bytes b bs from_lsn) (sym (append-nil (encode_all es)))
      ∙ all
      ∙ rw (replay_from_bytes-stop from_lsn [] read_entry-nil, append-nil)

  -- The largest LSN, from a bound on.
  abbrev pub max_lsn_of : ℕ → List (Entry V) → ℕ
  max_lsn_of m [] = m
  max_lsn_of m (e ∷ es) = max_lsn_of (max m e.0) es

  drop-append : (xs ys : Bytes) → drop (length xs) (xs ++ ys) ≡ ys
  drop-append [] ys = refl
  drop-append (x ∷ xs) ys = drop-append xs ys

  drop_body :
      (c : ℕ) (payload rest : Bytes)
      → drop (4 + length payload) (to_be_bytes 4 c ++ (payload ++ rest)) ≡ rest
  drop_body c payload rest =
      let len : 4 + length payload ≡ length (to_be_bytes 4 c ++ payload) =
        omega (arith, length-append (to_be_bytes 4 c) payload, length-to_be_bytes 4 c) in
      rw (← append_assoc, len) (drop-append (to_be_bytes 4 c ++ payload) rest)

  read_header-nil : read_header [] ≡ none
  unfolding read_header read_exact
  read_header-nil = refl

  pub length-encode_wal_entry :
      (lsn : ℕ) (op : WalOp V) → length (encode_wal_entry b lsn op) ≡ 16 + length (b.serialize op)
  unfolding encode_wal_entry
  length-encode_wal_entry lsn op = simp (length-append, length-to_be_bytes) (omega arith)

  max_lsn_loop-encode_all :
      (fuel m : ℕ) (es : List (Entry V))
      → All Fits es
      → length (encode_all es) < fuel
      → max_lsn_loop fuel m (encode_all es) ≡ max_lsn_of m es
  unfolding max_lsn_loop
  max_lsn_loop-encode_all zero m es h enough = absurd (omega arith)
  max_lsn_loop-encode_all (suc fuel) m [] h enough = rw (read_header-nil, max_lsn_loop)
  max_lsn_loop-encode_all (suc fuel) m ((lsn, op) ∷ es) h enough =
      let len = length-append (encode_wal_entry b lsn op) (encode_all es) in
      rw (read_header-encode lsn op (encode_all es) h.0, max_lsn_loop, drop_body)
        (max_lsn_loop-encode_all fuel (max m lsn) es h.1
          (omega (arith, len, length-encode_wal_entry lsn op)))

  -- What `read_max_lsn` finds in a log of whole records is the largest of their LSNs.
  read_max_lsn-encode_all :
      (es : List (Entry V)) → All Fits es → read_max_lsn (encode_all es) ≡ max_lsn_of 0 es
  unfolding read_max_lsn
  read_max_lsn-encode_all es h =
      max_lsn_loop-encode_all (suc (length (encode_all es))) 0 es h (omega arith)
