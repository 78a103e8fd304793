-- ===== src/Wal/Codec/Reading.antt =====
-- What a round of the loops of moodeng-core/src/wal.rs reads, and that the fuel is enough.
use moodeng_sql.Prelude.{
  ℕ, zero, suc, ◌+◌, ◌-◌, ◌<◌, ◌≡◌, refl, inl, inr, Option, none, some, ◌++◌, arith, Option-cases,
}
use moodeng_sql.Prelude.Lists.{length, length-append}
use moodeng_sql.Prelude.Bytes.{Bytes, read_exact, read_exact_inv, read_exact-extend}
use moodeng_sql.Wal.Defs.{WalOp, Bincode}
use moodeng_sql.Wal.Codec.{◌>>=◌, Entry, read_header, read_entry, replay_loop}

-- What a successful bind has computed.
pub data Bound {ℓ κ} {A : Type ℓ} {B : Type κ} (m : Option A) (f : A → Option B) (b : B)
    : Type (ℓ ⊔ κ) where
  bound : (a : A) → m ≡ some a → f a ≡ some b → Bound m f b

pub >>=-Bound {ℓ κ} :
    {A : Type ℓ} {B : Type κ} (m : Option A) (f : A → Option B) {b : B}
    → (m >>= f) ≡ some b
    → Bound m f b
>>=-Bound none f h = cc
>>=-Bound (some a) f h = bound a refl h

pub read_exact-shorter :
    (n : ℕ) (bs : Bytes) {got rest : Bytes}
    → read_exact n bs ≡ some (got, rest)
    → length bs ≡ n + length rest
read_exact-shorter n bs {got} {rest} h =
    let (whole, len) = read_exact_inv n bs h in rw whole (omega (arith, length-append got rest))

-- A header that was read is still read with more bytes behind.
pub read_header-extend :
    (bs more : Bytes) {lsn body_len : ℕ} {rest : Bytes}
    → read_header bs ≡ some (lsn, body_len, rest)
    → read_header (bs ++ more) ≡ some (lsn, body_len, rest ++ more)
unfolding read_header
read_header-extend bs more h = elim (>>=-Bound (read_exact 8 bs) _ h) [
  | bound (a, r) e h1 ↦ elim (>>=-Bound (read_exact 4 r) _ h1) [
    | bound (l, r') e' h2 ↦
        rw (read_exact-extend 8 bs more e, read_exact-extend 4 r more e') (ground arith)
  ]
]

pub read_header-shorter :
    (bs : Bytes) {lsn body_len : ℕ} {rest : Bytes}
    → read_header bs ≡ some (lsn, body_len, rest)
    → length bs ≡ 12 + length rest
unfolding read_header
read_header-shorter bs {rest} h = elim (>>=-Bound (read_exact 8 bs) _ h) [
  | bound (a, r) e h1 ↦ elim (>>=-Bound (read_exact 4 r) _ h1) [
    | bound (l, r') e' h2 ↦
        let same : rest ≡ r' = ground arith in
        rw same (omega (arith, read_exact-shorter 8 bs e, read_exact-shorter 4 r e'))
  ]
]

module _ {V : Type 0} (b : Bincode (WalOp V)) where
  pub read_entry-extend :
      (bs more : Bytes) {e : Entry V} {rest : Bytes}
      → read_entry b bs ≡ some (e, rest)
      → read_entry b (bs ++ more) ≡ some (e, rest ++ more)
  unfolding read_entry
  read_entry-extend bs more h = elim (>>=-Bound (read_header bs) _ h) [
    | bound (lsn, body_len, r) e0 h1 ↦ elim (>>=-Bound (read_exact 4 r) _ h1) [
      | bound (c, r') e1 h2 ↦ elim (>>=-Bound (read_exact (body_len - 4) r') _ h2) [
        | bound (p, r'') e2 h3 ↦
            rw
              (
                read_header-extend bs more e0,
                read_exact-extend 4 r more e1,
                read_exact-extend (body_len - 4) r' more e2,
              )
              (ground arith)
      ]
    ]
  ]

  pub read_entry-shorter :
      (bs : Bytes) {e : Entry V} {rest : Bytes}
      → read_entry b bs ≡ some (e, rest)
      → length rest < length bs
  unfolding read_entry
  read_entry-shorter bs {rest} h = elim (>>=-Bound (read_header bs) _ h) [
    | bound (lsn, body_len, r) e0 h1 ↦ elim (>>=-Bound (read_exact 4 r) _ h1) [
      | bound (c, r') e1 h2 ↦ elim (>>=-Bound (read_exact (body_len - 4) r') _ h2) [
        | bound (p, r'') e2 h3 ↦
            let same : rest ≡ r'' = ground arith in
            rw same (
              omega (
                arith,
                read_header-shorter bs e0,
                read_exact-shorter 4 r e1,
                read_exact-shorter (body_len - 4) r' e2,
              ))
      ]
    ]
  ]

  -- Any fuel above the number of bytes gives the same entries.
  pub replay_loop_fuel :
      (f g from_lsn : ℕ) (bs : Bytes)
      → length bs < f
      → length bs < g
      → replay_loop b f from_lsn bs ≡ replay_loop b g from_lsn bs
  unfolding replay_loop
  replay_loop_fuel zero g from_lsn bs hf hg = absurd (omega arith)
  replay_loop_fuel (suc f) zero from_lsn bs hf hg = absurd (omega arith)
  replay_loop_fuel (suc f) (suc g) from_lsn bs hf hg = elim (Option-cases (read_entry b bs)) [
    | inl e ↦ rw (e, replay_loop)
    | inr ((e, rest), p) ↦
        let shorter : length rest < length bs = read_entry-shorter bs p in
        rw (p, replay_loop, replay_loop_fuel f g from_lsn rest (omega arith) (omega arith))
  ]
