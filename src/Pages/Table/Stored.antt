-- ===== src/Pages/Table/Stored.antt =====
-- What the file of moodeng-core/src/page_table.rs holds, whatever is in the cache.
use moodeng_sql.Prelude.{
  ℕ, suc, ◌+◌, ◌≤◌, ◌<◌, ◌≡◌, ◌≢◌, ap, ◌∙◌, ◌⊎◌, inl, none, some, nat_key, arith,
}
use moodeng_sql.Prelude.Lists.{length}
use moodeng_sql.Prelude.Bytes.{Bytes}
use moodeng_sql.Error.{Result, ok}
use moodeng_sql.Pages.Mapped.{
  Mmap, read_at, write_at, fill_at, to_le_bytes, from_le_bytes, from_le_bytes-to_le_bytes,
  read_at-ext, write_at-outside, read_at-write_at, from_le_bytes-zero,
}
use moodeng_sql.Pages.Table.{
  PageBody, PageCodecs, page_slot_bytes, offset, no_rows, slot_len, decode_page, read_slot,
  with_page,
}

module _ {V : Type 0} (c : PageCodecs V) where
  -- The page that the file holds.
  abbrev pub page_at : Mmap → ℕ → Result (PageBody V)
  page_at m p = elim (read_slot c m p) as (λ _. Result (PageBody V)) [
    | none ↦ ok no_rows
    | some r ↦ r
  ]

  -- A slot lies in the file, and its length within the slot.
  abbrev pub InFile : Mmap → ℕ → Type 0
  InFile m p = (offset (suc p) ≤ m.len) × (slot_len c m.byte p + 4 ≤ page_slot_bytes)

  -- Files that agree on a slot hold the same page there.
  pub page_at-ext :
      (m n : Mmap) (p : ℕ)
      → InFile m p
      → offset (suc p) ≤ n.len
      → ((i : ℕ) → offset p ≤ i → i < offset (suc p) → n.byte i ≡ m.byte i)
      → (slot_len c n.byte p ≡ slot_len c m.byte p) × (page_at n p ≡ page_at m p)
  unfolding read_slot
  page_at-ext m n p (fits, small) fits' same =
      let at_start : read_at n.byte (offset p) 4 ≡ read_at m.byte (offset p) 4 =
        read_at-ext n.byte m.byte (offset p) 4 (λ i le lt. same i le (omega arith)) in
      let len : slot_len c n.byte p ≡ slot_len c m.byte p = ap from_le_bytes at_start in
      let body : read_at n.byte (offset p + 4) (slot_len c m.byte p)
          ≡ read_at m.byte (offset p + 4) (slot_len c m.byte p) =
        read_at-ext n.byte m.byte (offset p + 4) (slot_len c m.byte p)
          (λ i le lt. same i (omega arith) (omega (arith, lt, small))) in
      (len, ground (arith, len, body, fits, fits', small))

  -- A blank slot holds an empty page.
  pub page_at-blank :
      (m : Mmap) (p : ℕ)
      → ((i : ℕ) → offset p ≤ i → m.byte i ≡ 0)
      → (slot_len c m.byte p ≡ 0) × (page_at m p ≡ ok no_rows)
  unfolding read_slot
  page_at-blank m p blank =
      let len : slot_len c m.byte p ≡ 0 = from_le_bytes-zero m.byte (offset p) 4 blank in
      (len, ground (arith, len))

  -- The bytes of a page's write are read back.
  slot_len-with_page :
      (byte : ℕ → ℕ) (p : ℕ) (encoded : Bytes)
      → length encoded + 4 ≤ page_slot_bytes
      → slot_len c (with_page c byte p encoded) p ≡ length encoded
  slot_len-with_page byte p encoded small =
      let inner : ℕ → ℕ =
        write_at (fill_at byte (offset p) page_slot_bytes) (offset p)
          (to_le_bytes (length encoded)) in
      let same : read_at (with_page c byte p encoded) (offset p) 4 ≡ read_at inner (offset p) 4 =
        read_at-ext (with_page c byte p encoded) inner (offset p) 4
          (λ i le lt. write_at-outside inner (offset p + 4) encoded i (inl (omega arith))) in
      let back : read_at inner (offset p) 4 ≡ to_le_bytes (length encoded) =
        read_at-write_at (fill_at byte (offset p) page_slot_bytes) (offset p)
          (to_le_bytes (length encoded)) in
      ap from_le_bytes (same ∙ back) ∙ from_le_bytes-to_le_bytes (length encoded) (omega arith)

  pub with_page-outside :
      (byte : ℕ → ℕ) (p : ℕ) (encoded : Bytes) (i : ℕ)
      → length encoded + 4 ≤ page_slot_bytes
      → (i < offset p) ⊎ (offset (suc p) ≤ i)
      → with_page c byte p encoded i ≡ byte i
  with_page-outside byte p encoded i small out =
      let filled : ℕ → ℕ = fill_at byte (offset p) page_slot_bytes in
      let inner : ℕ → ℕ = write_at filled (offset p) (to_le_bytes (length encoded)) in
      let a : with_page c byte p encoded i ≡ inner i =
        write_at-outside inner (offset p + 4) encoded i (omega arith) in
      let b : inner i ≡ filled i =
        write_at-outside filled (offset p) (to_le_bytes (length encoded)) i (omega arith) in
      let d : filled i ≡ byte i = ground (arith, out) in a ∙ (b ∙ d)

  -- The page that is written is the page that the file then holds.
  pub page_at-with_page :
      (m : Mmap) (p : ℕ) (body : PageBody V)
      → offset (suc p) ≤ m.len
      → length (c.pages.serialize body) + 4 ≤ page_slot_bytes
      → let n = record m { byte = with_page c m.byte p (c.pages.serialize body) } in
        (slot_len c n.byte p + 4 ≤ page_slot_bytes) × (page_at n p ≡ ok body)
  unfolding read_slot
  page_at-with_page m p body fits small =
      let encoded : Bytes = c.pages.serialize body in
      let len = slot_len-with_page m.byte p encoded small in
      let inner : ℕ → ℕ =
        write_at (fill_at m.byte (offset p) page_slot_bytes) (offset p)
          (to_le_bytes (length encoded)) in
      let back : read_at (with_page c m.byte p encoded) (offset p + 4) (length encoded) ≡ encoded =
        read_at-write_at inner (offset p + 4) encoded in
      let decoded : decode_page c encoded ≡ ok body =
        ground (arith, c.pages.deserialize-serialize body) in
      (
        omega (arith, len, small),
        ground (arith, len, back, decoded, fits, small, c.some_bytes body),
      )

  -- A write of one page leaves the others.
  pub page_at-with_page_ne :
      (m : Mmap) (p q : ℕ) (encoded : Bytes)
      → p ≢ q
      → length encoded + 4 ≤ page_slot_bytes
      → InFile m q
      → let n = record m { byte = with_page c m.byte p encoded } in
        (slot_len c n.byte q ≡ slot_len c m.byte q) × (page_at n q ≡ page_at m q)
  page_at-with_page_ne m p q encoded other small inside =
      page_at-ext m (record m { byte = with_page c m.byte p encoded }) q inside inside.0
        (λ i le lt. with_page-outside m.byte p encoded i small (omega (arith, other, le, lt)))
