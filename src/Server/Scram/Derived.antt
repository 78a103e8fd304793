-- ===== src/Server/Scram/Derived.antt =====
-- The key derivation of `hi` of moodeng-server/src/scram.rs: the xor of a chain of HMACs.
use Prim.Native.Nat.{bit_xor}
use moodeng_sql.Prelude.{ℕ, zero, suc, ◌+◌, ◌-◌, ◌≡◌, refl, ap, sym, ◌∙◌, [], ◌∷◌, arith}
use moodeng_sql.Prelude.Lists.{length}
use moodeng_sql.Prelude.Bytes.{Bytes}
use moodeng_sql.Server.Scram.{Crypto, xor_bytes, xor_in_place, hi, hi_loop}
use moodeng_sql.Server.Scram.Laws.{IsDocumented}

xor_in_place-xor_bytes : (a b : Bytes) → length a ≡ length b → xor_in_place a b ≡ xor_bytes a b
unfolding xor_in_place xor_bytes
xor_in_place-xor_bytes [] b e = refl
xor_in_place-xor_bytes (x ∷ a) [] e = absurd (omega (arith, e))
xor_in_place-xor_bytes (x ∷ a) (y ∷ b) e =
    ap (λ s. bit_xor x y ∷ s) (xor_in_place-xor_bytes a b (omega (arith, e)))

length-xor_bytes : (a b : Bytes) → length a ≡ length b → length (xor_bytes a b) ≡ length b
unfolding xor_bytes
length-xor_bytes [] b e = e
length-xor_bytes (x ∷ a) [] e = absurd (omega (arith, e))
length-xor_bytes (x ∷ a) (y ∷ b) e = omega (arith, length-xor_bytes a b (omega (arith, e)))

module _ (c : Crypto) (password salt : Bytes) where
  -- The chain: the first HMAC has the salt as its key, each next one the one before.
  unfoldable chain : ℕ → Bytes
  chain zero = c.hmac_sha256_bytes salt password
  chain (suc k) = c.hmac_sha256_bytes (chain k) password

  -- The xor of the chain up to an element.
  unfoldable mixed : ℕ → Bytes
  unfolding chain
  mixed zero = chain zero
  mixed (suc k) = xor_bytes (mixed k) (chain (suc k))

  -- The key after this number of iterations; none counts as one.
  unfoldable pub derived : ℕ → Bytes
  unfolding mixed
  derived iterations = mixed (iterations - 1)

  length-chain : IsDocumented c → (k : ℕ) → length (chain k) ≡ 32
  unfolding chain
  length-chain d zero = (d.hmac_key _ _).0
  length-chain d (suc k) = (d.hmac_key _ _).0

  length-mixed : IsDocumented c → (k : ℕ) → length (mixed k) ≡ 32
  unfolding mixed
  length-mixed d zero = length-chain d zero
  length-mixed d (suc k) =
      length-xor_bytes (mixed k) (chain (suc k)) (length-mixed d k ∙ sym (length-chain d (suc k)))
      ∙ length-chain d (suc k)

  hi_loop-mixed :
      IsDocumented c
      → (rounds k : ℕ) → hi_loop c rounds password (chain k) (mixed k) ≡ mixed (rounds + k)
  unfolding hi_loop chain mixed
  hi_loop-mixed d zero k = ap mixed count
    where
      count : k ≡ 0 + k
      count = omega arith
  hi_loop-mixed d (suc rounds) k =
      ap (hi_loop c rounds password (chain (suc k))) (
        xor_in_place-xor_bytes (mixed k) (chain (suc k))
          (length-mixed d k ∙ sym (length-chain d (suc k))))
      ∙ (hi_loop-mixed d rounds (suc k) ∙ ap mixed count)
    where
      count : rounds + suc k ≡ suc rounds + k
      count = omega arith

  pub hi_lem :
      IsDocumented c → (iterations : ℕ) → hi c password salt iterations ≡ derived iterations
  unfolding hi derived chain mixed
  hi_lem d iterations =
      let count : iterations - 1 + 0 ≡ iterations - 1 = omega arith in
      hi_loop-mixed d (iterations - 1) zero ∙ ap mixed count
