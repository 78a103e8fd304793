-- ===== src/Prelude/Tests.antt =====
-- Tests on the native numbers and texts, decidable keys, the conditional, and case splits.
use Prim.Native.Nat.{ℕ, ◌+◌, ◌%◌, ◌^◌, compare, Ordering}
use Prim.Native.String.{String}
use mathlib.Core.Path.{◌≡◌, refl}
use mathlib.Core.Logic.{◌≢◌, ◌↔◌, ◌⊎◌, inl, inr}
use mathlib.Core.Bool.{Bool, true, false}
use mathlib.Core.Option.{Option, none, some}
use native.Mathlib.Omega.{arith}
use native.Mathlib.Decide.{ℕ_discrete}
pub use text.Mathlib.Text.{◌==◌ as str_eq}
use text.Mathlib.TextEquality.{eq_iff}

-- These compute to `compare`, which `ground` and `grind` read with no lemma listed.
abbrev pub ltb : ℕ → ℕ → Bool
ltb a b = elim (compare a b) [ Ordering.lt ↦ true | _ ↦ false ]

abbrev pub leb : ℕ → ℕ → Bool
leb a b = elim (compare a b) [ Ordering.gt ↦ false | _ ↦ true ]

infix 50 ◌==◌
abbrev pub ◌==◌ : ℕ → ℕ → Bool
a == b = elim (compare a b) [ Ordering.eq ↦ true | _ ↦ false ]

infix 1 if◌then◌else◌
abbrev pub if◌then◌else◌ {ℓ} : {A : Type ℓ} → Bool → A → A → A
if true then x else y = x
if false then x else y = y

pub ==_iff : (a b : ℕ) → ((a == b) ≡ true) ↔ (a ≡ b)
==_iff a b = ground arith

pub ==_self : (a : ℕ) → (a == a) ≡ true
==_self a = ground arith

-- To split on a computed value and keep the equation.
pub Bool-cases : (b : Bool) → (b ≡ true) ⊎ (b ≡ false)
Bool-cases true = inl refl
Bool-cases false = inr refl

pub Option-cases {ℓ} : {A : Type ℓ} (o : Option A) → (o ≡ none) ⊎ ((a : A) × (o ≡ some a))
Option-cases none = inl refl
Option-cases (some a) = inr (a, refl)

-- The keys of a map are compared by a decision.
pub record Key {ℓ} (K : Type ℓ) : Type ℓ where
  pub dec : Discrete K

abbrev pub dec_eq {ℓ} : {K : Type ℓ} ⦃k : Key K⦄ → Discrete K
dec_eq ⦃k⦄ = k.dec

String_discrete_by : (s t : String) → (b : Bool) → ((b ≡ true) ↔ (s ≡ t)) → Dec (s ≡ t)
String_discrete_by s t true e = yes (e.0 refl)
String_discrete_by s t false e = no (λ p. ground (arith, e.1 p))

unfoldable pub String_discrete : Discrete String
unfolding String_discrete_by
String_discrete s t = String_discrete_by s t (str_eq s t) (eq_iff s t)

instance abbrev pub nat_key : Key ℕ
nat_key = record { dec = ℕ_discrete }

instance abbrev pub string_key : Key String
string_key = record { dec = String_discrete }

-- `x += 1` on a `u64`.
abbrev pub suc_u64 : ℕ → ℕ
suc_u64 n = (n + 1) % 2 ^ 64

pub suc_u64_ne : (n : ℕ) → n ≢ suc_u64 n
suc_u64_ne n e = omega arith
