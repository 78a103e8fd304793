-- ===== src/Server/Text.antt =====
-- The texts of moodeng-server/src as their UTF-8 bytes, and the methods of `str` that it calls.
use Prim.Native.Char.{code}
use Prim.Native.String.{String, ◌∷◌ as cons_text, [] as empty_text}
use moodeng_sql.Prelude.{
  ℕ, zero, suc, Bool, true, false, ◌+◌, ◌*◌, ◌-◌, ◌/◌, ◌%◌, ◌^◌, ◌≤◌, ◌<◌, ◌≡◌, ◌≢◌, refl, ap, ◌∙◌,
  Option, none, some, List, [], ◌∷◌, ◌++◌, ltb, leb, ◌==◌, ◌&&◌, if◌then◌else◌, arith, inl, inr,
  ◌⊎◌, Bool-cases, Key, dec_eq, nat_key,
}
use moodeng_sql.Prelude.Lists.{All, All-append, All-weaken, length, length-append}
use native.Mathlib.Nat.{pow-suc}
use moodeng_sql.Prelude.Bytes.{Bytes}

unfoldable pub Bytes_discrete : Discrete Bytes
Bytes_discrete [] [] = yes refl
Bytes_discrete [] (c ∷ t) = no (λ p. ground arith)
Bytes_discrete (b ∷ s) [] = no (λ p. ground arith)
Bytes_discrete (b ∷ s) (c ∷ t) = elim (dec_eq b c) [
  | no other ↦ no (λ p. ground arith)
  | yes same ↦ elim (Bytes_discrete s t) [
    | no other ↦ no (λ p. ground arith)
    | yes rest ↦ yes (λ i. same i ∷ rest i)
  ]
]

instance abbrev pub bytes_key : Key Bytes
bytes_key = record { dec = Bytes_discrete }

-- The bytes of a literal.
abbrev pub ascii : String → Bytes
ascii empty_text = []
ascii (cons_text c s) = code c ∷ ascii s

abbrev pub Lacks : ℕ → Bytes → Type 0
Lacks c s = All (λ b. b ≢ c) s

pub Lacks-append : (c : ℕ) (s t : Bytes) → Lacks c s → Lacks c t → Lacks c (s ++ t)
Lacks-append c [] t h g = g
Lacks-append c (b ∷ s) t h g = (h.0, Lacks-append c s t h.1 g)

-- `split_once(c)`
unfoldable pub split_once : ℕ → Bytes → Option (Bytes × Bytes)
split_once c [] = none
split_once c (b ∷ s) =
    let rest = split_once c s in
    if b == c then some ([], s) else elim rest [ none ↦ none | some (k, v) ↦ some (b ∷ k, v) ]

pub split_once_lem : (c : ℕ) (k v : Bytes) → Lacks c k → split_once c (k ++ c ∷ v) ≡ some (k, v)
unfolding split_once
split_once_lem c [] v h = ground arith
split_once_lem c (b ∷ k) v h = ground (arith, h.0, split_once_lem c k v h.1)

-- `split(c)`
abbrev pub put_front : ℕ → List Bytes → List Bytes
put_front b [] = (b ∷ []) ∷ []
put_front b (p ∷ ps) = (b ∷ p) ∷ ps

unfoldable pub split : ℕ → Bytes → List Bytes
split c [] = [] ∷ []
split c (b ∷ s) = let rest = split c s in if b == c then [] ∷ rest else put_front b rest

pub split-append : (c : ℕ) (k v : Bytes) → Lacks c k → split c (k ++ c ∷ v) ≡ k ∷ split c v
unfolding split
split-append c [] v h = ground arith
split-append c (b ∷ k) v h = ground (arith, h.0, split-append c k v h.1)

pub split_lem : (c : ℕ) (k : Bytes) → Lacks c k → split c k ≡ k ∷ []
unfolding split
split_lem c [] h = refl
split_lem c (b ∷ k) h = ground (arith, h.0, split_lem c k h.1)

unfoldable pub strip_prefix : Bytes → Bytes → Option Bytes
strip_prefix [] s = some s
strip_prefix (p ∷ ps) [] = none
strip_prefix (p ∷ ps) (b ∷ s) = let rest = strip_prefix ps s in if p == b then rest else none

pub strip_prefix-append : (p s : Bytes) → strip_prefix p (p ++ s) ≡ some s
unfolding strip_prefix
strip_prefix-append [] s = refl
strip_prefix-append (c ∷ p) s = ground (arith, strip_prefix-append p s)

abbrev pub starts_with : Bytes → Bytes → Bool
starts_with s p = elim (strip_prefix p s) [ none ↦ false | some _ ↦ true ]

pub starts_with-append : (s t : Bytes) → starts_with (s ++ t) s ≡ true
starts_with-append s t = ground (arith, strip_prefix-append s t)

-- `split(pattern).next()`
unfoldable pub before : Bytes → Bytes → Bytes
unfolding strip_prefix
before pattern [] = []
before pattern (b ∷ s) =
    let rest = before pattern s in
    elim (strip_prefix pattern (b ∷ s)) [ some _ ↦ [] | none ↦ b ∷ rest ]

pub before_lem : (c : ℕ) (p k s : Bytes) → Lacks c k → before (c ∷ p) (k ++ ((c ∷ p) ++ s)) ≡ k
unfolding before strip_prefix
before_lem c p [] s h = ground (arith, strip_prefix-append p s)
before_lem c p (b ∷ k) s h = ground (arith, h.0, before_lem c p k s h.1)

-- The digits of a number, of which a `u32` has at most ten, and a `usize` or a `u64` twenty.
unfoldable pub decimal_of : ℕ → ℕ → Bytes
decimal_of zero n = []
decimal_of (suc more) n =
    let before = decimal_of more (n / 10) in
    if ltb n 10 then (48 + n) ∷ [] else before ++ (48 + n % 10) ∷ []

unfoldable pub decimal : ℕ → Bytes
unfolding decimal_of
decimal = decimal_of 20

-- `parse()` of digits, behind what came before them; none where it is no number below the limit.
unfoldable pub parse_digits : ℕ → ℕ → Bytes → Option ℕ
parse_digits limit acc [] = some acc
parse_digits limit acc (d ∷ ds) =
    let next = acc * 10 + (d - 48) in
    let rest = parse_digits limit next ds in
    if leb 48 d && leb d 57 && ltb next limit then rest else none

-- `parse::<u32>()`: a sign in front is allowed.
unfoldable pub parse_u32 : Bytes → Option ℕ
unfolding parse_digits
parse_u32 [] = none
parse_u32 (d ∷ []) = parse_digits (2 ^ 32) 0 (d ∷ [])
parse_u32 (d ∷ e ∷ ds) =
    if d == 43 then parse_digits (2 ^ 32) 0 (e ∷ ds) else parse_digits (2 ^ 32) 0 (d ∷ e ∷ ds)

parse_digits-snoc :
    (limit acc n d : ℕ) (s : Bytes)
    → parse_digits limit acc s ≡ some n
    → d < 10
    → n * 10 + d < limit
    → parse_digits limit acc (s ++ (48 + d) ∷ []) ≡ some (n * 10 + d)
unfolding parse_digits
parse_digits-snoc limit acc n d [] e lt room = ground arith
parse_digits-snoc limit acc n d (b ∷ s) e lt room =
    ground (arith, parse_digits-snoc limit (acc * 10 + (b - 48)) n d s)

abbrev pub IsDigit : ℕ → Type 0
IsDigit d = (48 ≤ d) × (d ≤ 57)

decimal_of-IsDigit : (more n : ℕ) → All IsDigit (decimal_of more n)
unfolding decimal_of
decimal_of-IsDigit zero n = tt
decimal_of-IsDigit (suc more) n = elim (Bool-cases (ltb n 10)) [
  | inl e ↦ rw e (ground arith)
  | inr e ↦ rw e (
      All-append IsDigit (decimal_of more (n / 10)) ((48 + n % 10) ∷ [])
        (decimal_of-IsDigit more (n / 10)) ((omega arith, omega arith), tt))
]

pub decimal-IsDigit : (n : ℕ) → All IsDigit (decimal n)
unfolding decimal
decimal-IsDigit = decimal_of-IsDigit 20

-- A byte that is no digit does not stand in a number.
pub decimal-Lacks : (c n : ℕ) → (c < 48) ⊎ (57 < c) → Lacks c (decimal n)
decimal-Lacks c n h =
    All-weaken IsDigit (λ b. b ≢ c) (decimal n) (λ b d e. ground (arith, h, d, e))
      (decimal-IsDigit n)

parse_digits-decimal_of :
    (limit more n : ℕ)
    → n < 10 ^ more
    → n < limit
    → parse_digits limit 0 (decimal_of more n) ≡ some n
unfolding decimal_of parse_digits
parse_digits-decimal_of limit zero n few room = ground arith
parse_digits-decimal_of limit (suc more) n few room = elim (Bool-cases (ltb n 10)) [
  | inl e ↦ ground (arith, e)
  | inr e ↦ rw e (
      let tens : n / 10 < 10 ^ more = omega (arith, pow-suc 10 more) in
      let again : n / 10 * 10 + n % 10 ≡ n = omega arith in
      parse_digits-snoc limit 0 (n / 10) (n % 10) (decimal_of more (n / 10))
        (parse_digits-decimal_of limit more (n / 10) tens (omega arith)) (omega arith) (omega arith)
      ∙ ap some again)
]

parse_u32_plain :
    (s : Bytes) → All IsDigit s → 0 < length s → parse_u32 s ≡ parse_digits (2 ^ 32) 0 s
unfolding parse_u32
parse_u32_plain [] h long = absurd (omega arith)
parse_u32_plain (d ∷ []) h long = refl
parse_u32_plain (d ∷ e ∷ s) h long = ground (arith, h.0)

decimal_long : (n : ℕ) → 0 < length (decimal n)
unfolding decimal decimal_of
decimal_long n = elim (Bool-cases (ltb n 10)) [
  | inl e ↦ rw e (omega arith)
  | inr e ↦ rw e (omega (arith, length-append (decimal_of 19 (n / 10)) ((48 + n % 10) ∷ [])))
]

pub parse_u32-decimal : (n : ℕ) → n < 2 ^ 32 → parse_u32 (decimal n) ≡ some n
parse_u32-decimal n room =
    parse_u32_plain (decimal n) (decimal-IsDigit n) (decimal_long n)
    ∙ unfold decimal in parse_digits-decimal_of (2 ^ 32) 20 n (omega arith) room

pub split_once_inv :
    (c : ℕ) (s : Bytes) {k v : Bytes} → split_once c s ≡ some (k, v) → s ≡ k ++ c ∷ v
unfolding split_once
split_once_inv c [] h = absurd (ground (arith, h))
split_once_inv c (b ∷ s) {k} {v} h =
    split_once_inv_at (split_once c s) (λ i j e. split_once_inv c s {k = i} {v = j} e) h
  where
    split_once_inv_at :
        (r : Option (Bytes × Bytes))
        → ((i j : Bytes) → r ≡ some (i, j) → s ≡ i ++ c ∷ j)
        → (if b == c then some ([], s) else elim r as (λ _. Option (Bytes × Bytes)) [
          | none ↦ none
          | some (i, j) ↦ some (b ∷ i, j)
        ])
          ≡ some (k, v)
        → b ∷ s ≡ k ++ c ∷ v
    split_once_inv_at none e g = ground (arith, g)
    split_once_inv_at (some (i, j)) e g =
        let whole : s ≡ i ++ c ∷ j = e i j refl in ground (arith, g, whole)
