-- ===== src/Tests/Coder.antt =====
-- A concrete encoding of the engine's types, which stands for bincode in the examples.
use Prim.Native.Char.{Char, char, code, nul, IsScalar, IsLt}
use Prim.Native.Nat.{compare, Ordering}
use text.Mathlib.TextEquality.{Char-path}
use Prim.Native.String.{[] as empty_text, ◌∷◌ as cons_text}
use mathlib.Core.List.{append_assoc, append-nil}
use moodeng_sql.Prelude.{
  ℕ, zero, suc, String, true, false, Option, none, some, List, [], ◌∷◌, ◌++◌, ◌≡◌, refl, ap, sym,
  ◌∙◌, ◌⊎◌, inl, inr,
}
use moodeng_sql.Prelude.Lists.{length}
use moodeng_sql.Prelude.Bytes.{Bytes}
use moodeng_sql.Types.{Row}
use moodeng_sql.Types.Value.{Value}
use moodeng_sql.Wal.Defs.{WalOp, Bincode, CheckpointState, checkpoint_state}
use moodeng_sql.Storage.Engine.{Codecs}

-- An encoding that is read back from the front of any bytes.
pub record Coder (A : Type 0) : Type 0 where
  pub enc : A → Bytes
  pub dec : Bytes → Option (A × Bytes)
  pub law : (a : A) (rest : Bytes) → dec (enc a ++ rest) ≡ some (a, rest)

abbrev pub number : Coder ℕ
number = record {
  enc = λ n. n ∷ [];
  dec = λ bytes. elim bytes as (λ _. Option (ℕ × Bytes)) [ [] ↦ none | n ∷ rest ↦ some (n, rest) ];
  law = λ n rest. refl;
}

-- A type that is a part of another one.
abbrev pub via :
    {A B : Type 0} (to : A → B) (from : B → A) → ((a : A) → from (to a) ≡ a) → Coder B → Coder A
via {A} {B} to from back c = record {
  enc = λ a. c.enc (to a);
  dec = λ bytes. elim (c.dec bytes) as (λ _. Option (A × Bytes)) [
    | none ↦ none
    | some x ↦ some (from x.0, x.1)
  ];
  law = λ a rest. rw (c.law (to a) rest, back a) refl;
}

abbrev dec_pair : {A B : Type 0} → Coder A → Coder B → Bytes → Option ((A × B) × Bytes)
dec_pair c d bytes = elim (c.dec bytes) [
  | none ↦ none
  | some x ↦ elim (d.dec x.1) [ none ↦ none | some y ↦ some ((x.0, y.0), y.1) ]
]

abbrev dec_pair-law :
    {A B : Type 0} (c : Coder A) (d : Coder B) (x : A × B) (rest : Bytes)
    → dec_pair c d ((c.enc x.0 ++ d.enc x.1) ++ rest) ≡ some (x, rest)
dec_pair-law c d x rest =
    ap (dec_pair c d) (append_assoc (c.enc x.0) (d.enc x.1) rest)
    ∙ rw (c.law x.0 (d.enc x.1 ++ rest), d.law x.1 rest, dec_pair) refl

abbrev pub pair : {A B : Type 0} → Coder A → Coder B → Coder (A × B)
pair c d = record { enc = λ x. c.enc x.0 ++ d.enc x.1; dec = dec_pair c d; law = dec_pair-law c d }

abbrev enc_each : {A : Type 0} → Coder A → List A → Bytes
enc_each c [] = []
enc_each c (x ∷ xs) = c.enc x ++ enc_each c xs

abbrev dec_each : {A : Type 0} → Coder A → ℕ → Bytes → Option (List A × Bytes)
dec_each c zero bytes = some ([], bytes)
dec_each c (suc n) bytes = elim (c.dec bytes) [
  | none ↦ none
  | some x ↦ elim (dec_each c n x.1) [ none ↦ none | some y ↦ some (x.0 ∷ y.0, y.1) ]
]

abbrev dec_each-enc_each :
    {A : Type 0} (c : Coder A) (xs : List A) (rest : Bytes)
    → dec_each c (length xs) (enc_each c xs ++ rest) ≡ some (xs, rest)
dec_each-enc_each c [] rest = refl
dec_each-enc_each c (x ∷ xs) rest =
    rw
      (
        append_assoc (c.enc x) (enc_each c xs) rest,
        c.law x (enc_each c xs ++ rest),
        dec_each-enc_each c xs rest,
      )
      refl

abbrev dec_list : {A : Type 0} → Coder A → Bytes → Option (List A × Bytes)
dec_list c [] = none
dec_list c (n ∷ bytes) = dec_each c n bytes

abbrev pub sequence : {A : Type 0} → Coder A → Coder (List A)
sequence c = record {
  enc = λ xs. length xs ∷ enc_each c xs;
  dec = dec_list c;
  law = λ xs rest. dec_each-enc_each c xs rest;
}

abbrev IsLt-dec : (o : Ordering) → Dec (IsLt o)
IsLt-dec Ordering.lt = yes tt
IsLt-dec Ordering.eq = no (λ x. x)
IsLt-dec Ordering.gt = no (λ x. x)

abbrev Both : Ordering → Ordering → Type 0
Both Ordering.lt o = IsLt o
Both Ordering.eq _ = ⊥
Both Ordering.gt _ = ⊥

abbrev Both-dec : (o p : Ordering) → Dec (Both o p)
Both-dec Ordering.lt o = IsLt-dec o
Both-dec Ordering.eq _ = no (λ x. x)
Both-dec Ordering.gt _ = no (λ x. x)

abbrev Either : Ordering → Ordering → Ordering → Type 0
Either Ordering.lt _ _ = Unit
Either Ordering.eq o p = Both o p
Either Ordering.gt o p = Both o p

abbrev Either-dec : (o p q : Ordering) → Dec (Either o p q)
Either-dec Ordering.lt _ _ = yes tt
Either-dec Ordering.eq o p = Both-dec o p
Either-dec Ordering.gt o p = Both-dec o p

abbrev IsScalar-dec : (n : ℕ) → Dec (IsScalar n)
IsScalar-dec n = Either-dec (compare n 55296) (compare 57343 n) (compare n 1114112)

abbrev to_char : (n : ℕ) → Dec (IsScalar n) → Char
to_char n (yes p) = char n p
to_char n (no _) = nul

abbrev to_char-code : (c : Char) (d : Dec (IsScalar (code c))) → to_char (code c) d ≡ c
to_char-code (char n p) (yes q) = Char-path (char n q) (char n p) refl
to_char-code (char n p) (no q) = absurd (q p)

abbrev codes : String → List ℕ
codes empty_text = []
codes (cons_text c s) = code c ∷ codes s

abbrev from_codes : List ℕ → String
from_codes [] = empty_text
from_codes (n ∷ ns) = cons_text (to_char n (IsScalar-dec n)) (from_codes ns)

abbrev from_codes-codes : (s : String) → from_codes (codes s) ≡ s
from_codes-codes empty_text = refl
from_codes-codes (cons_text c s) =
    ap (λ d. cons_text d (from_codes (codes s))) (to_char-code c (IsScalar-dec (code c)))
    ∙ ap (cons_text c) (from_codes-codes s)

abbrev texts : Coder String
texts = via codes from_codes from_codes-codes (sequence number)

-- A value as the number of its constructor, a number and a text; JSON is a text.
abbrev value_parts : Value String → ℕ × (ℕ × String)
value_parts Value.null = (0, (0, ""))
value_parts (Value.int4 n) = (1, (n, ""))
value_parts (Value.int8 n) = (2, (n, ""))
value_parts (Value.float4 n) = (3, (n, ""))
value_parts (Value.float8 n) = (4, (n, ""))
value_parts (Value.text s) = (5, (0, s))
value_parts (Value.bool true) = (6, (1, ""))
value_parts (Value.bool false) = (6, (0, ""))
value_parts (Value.timestamp n) = (7, (n, ""))
value_parts (Value.json j) = (8, (0, j))

abbrev value_of : ℕ × (ℕ × String) → Value String
value_of (zero, x) = Value.null
value_of (suc zero, x) = Value.int4 x.0
value_of (suc (suc zero), x) = Value.int8 x.0
value_of (suc (suc (suc zero)), x) = Value.float4 x.0
value_of (suc (suc (suc (suc zero))), x) = Value.float8 x.0
value_of (suc (suc (suc (suc (suc zero)))), x) = Value.text x.1
value_of (suc (suc (suc (suc (suc (suc zero))))), (zero, x)) = Value.bool false
value_of (suc (suc (suc (suc (suc (suc zero))))), (suc n, x)) = Value.bool true
value_of (suc (suc (suc (suc (suc (suc (suc zero)))))), x) = Value.timestamp x.0
value_of (suc (suc (suc (suc (suc (suc (suc (suc n))))))), x) = Value.json x.1

abbrev value_of-parts : (v : Value String) → value_of (value_parts v) ≡ v
value_of-parts Value.null = refl
value_of-parts (Value.int4 n) = refl
value_of-parts (Value.int8 n) = refl
value_of-parts (Value.float4 n) = refl
value_of-parts (Value.float8 n) = refl
value_of-parts (Value.text s) = refl
value_of-parts (Value.bool true) = refl
value_of-parts (Value.bool false) = refl
value_of-parts (Value.timestamp n) = refl
value_of-parts (Value.json j) = refl

abbrev values : Coder (Value String)
values = via value_parts value_of value_of-parts (pair number (pair number texts))

abbrev pub rows : Coder (Row (Value String))
rows =
    via (λ r. (r.version, r.values)) (λ x. record { values = x.1; version = x.0 }) (λ r. refl)
      (pair number (sequence values))

abbrev OpParts : Type 0
OpParts = ℕ × (ℕ × (String × (ℕ × Row (Value String))))

abbrev no_row : Row (Value String)
no_row = record { values = []; version = 0 }

abbrev op_parts : WalOp (Value String) → OpParts
op_parts (WalOp.begin t) = (0, (t, ("", (0, no_row))))
op_parts (WalOp.commit t) = (1, (t, ("", (0, no_row))))
op_parts (WalOp.abort t) = (2, (t, ("", (0, no_row))))
op_parts (WalOp.insert t table id row) = (3, (t, (table, (id, row))))
op_parts (WalOp.update t table id row) = (4, (t, (table, (id, row))))
op_parts (WalOp.delete t table id) = (5, (t, (table, (id, no_row))))

abbrev op_of : OpParts → WalOp (Value String)
op_of (zero, (t, x)) = WalOp.begin t
op_of (suc zero, (t, x)) = WalOp.commit t
op_of (suc (suc zero), (t, x)) = WalOp.abort t
op_of (suc (suc (suc zero)), (t, (table, (id, row)))) = WalOp.insert t table id row
op_of (suc (suc (suc (suc zero))), (t, (table, (id, row)))) = WalOp.update t table id row
op_of (suc (suc (suc (suc (suc n)))), (t, (table, (id, row)))) = WalOp.delete t table id

abbrev op_of-parts : (op : WalOp (Value String)) → op_of (op_parts op) ≡ op
op_of-parts (WalOp.begin t) = refl
op_of-parts (WalOp.commit t) = refl
op_of-parts (WalOp.abort t) = refl
op_of-parts (WalOp.insert t table id row) = refl
op_of-parts (WalOp.update t table id row) = refl
op_of-parts (WalOp.delete t table id) = refl

abbrev bincode-law :
    {A : Type 0} (c : Coder A) (a : A)
    → elim (c.dec (c.enc a)) as (λ _. String ⊎ A) [ none ↦ inl "invalid" | some x ↦ inr x.0 ]
      ≡ inr a
bincode-law c a =
    let e : c.dec (c.enc a) ≡ some (a, []) = ap c.dec (sym (append-nil (c.enc a))) ∙ c.law a [] in
    rw e refl

abbrev pub bincode : {A : Type 0} → Coder A → Bincode A
bincode {A} c = record {
  serialize = c.enc;
  deserialize =
      λ bytes. elim (c.dec bytes) as (λ _. String ⊎ A) [ none ↦ inl "invalid" | some x ↦ inr x.0 ];
  deserialize-serialize = λ a. bincode-law c a;
}

abbrev lsn_in : CheckpointState → ℕ
lsn_in (checkpoint_state lsn) = lsn

abbrev lsn_in-back : (s : CheckpointState) → checkpoint_state (lsn_in s) ≡ s
lsn_in-back (checkpoint_state lsn) = refl

-- The encodings of the examples.
unfoldable pub codecs : Codecs (Value String)
codecs = record {
  ops =
      bincode (
        via op_parts op_of op_of-parts (pair number (pair number (pair texts (pair number rows)))));
  states = bincode (via lsn_in checkpoint_state lsn_in-back number);
  tables = bincode (
      via (λ t. (t.next_id, t.rows)) (λ x. record { rows = x.1; next_id = x.0 }) (λ t. refl)
        (pair number (sequence (pair number rows))));
}
