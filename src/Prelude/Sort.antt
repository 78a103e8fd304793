-- ===== src/Prelude/Sort.antt =====
-- `sort_by_key` over numbers, as a stable insertion sort.
use Prim.Native.Nat.{ℕ, ◌<◌}
use mathlib.Core.Path.{◌≡◌, refl, ap, ◌∙◌}
use mathlib.Core.Logic.{◌≢◌, inl, inr}
use mathlib.Core.Bool.{Bool, true, false, ◌||◌}
use mathlib.Core.List.{List, [], ◌∷◌, ◌++◌}
use native.Mathlib.Omega.{arith}
use moodeng_sql.Prelude.Tests.{leb, if◌then◌else◌, Bool-cases}
use moodeng_sql.Prelude.Lists.{All, All-append, All-weaken, filter_by}

module _ {ℓ} {A : Type ℓ} (key : A → ℕ) where
  unfoldable pub insert_by : A → List A → List A
  insert_by x [] = x ∷ []
  insert_by x (y ∷ ys) = if leb (key x) (key y) then x ∷ y ∷ ys else y ∷ insert_by x ys

  unfoldable pub insert_all : List A → List A → List A
  unfolding insert_by
  insert_all [] l = l
  insert_all (x ∷ xs) l = insert_by x (insert_all xs l)

  unfoldable pub sort_by_key : List A → List A
  unfolding insert_by
  sort_by_key [] = []
  sort_by_key (x ∷ xs) = insert_by x (sort_by_key xs)

  -- The keys grow strictly.
  abbrev pub IsAscending : List A → Type ℓ
  IsAscending [] = Unit
  IsAscending (x ∷ xs) = All (λ y. key x < key y) xs × IsAscending xs

  pub sort_by_key-append :
      (xs ys : List A) → sort_by_key (xs ++ ys) ≡ insert_all xs (sort_by_key ys)
  unfolding sort_by_key insert_all
  sort_by_key-append [] ys = refl
  sort_by_key-append (x ∷ xs) ys = ap (insert_by x) (sort_by_key-append xs ys)

  pub insert_by_first : (x : A) (l : List A) → All (λ y. key x < key y) l → insert_by x l ≡ x ∷ l
  unfolding insert_by
  insert_by_first x [] h = refl
  insert_by_first x (y ∷ ys) h = ground arith

  insert_by_later : (x y : A) (l : List A) → key y < key x → insert_by x (y ∷ l) ≡ y ∷ insert_by x l
  unfolding insert_by
  insert_by_later x y l h = ground arith

  insert_all_later :
      (x : A) (xs l : List A)
      → All (λ y. key x < key y) xs
      → insert_all xs (x ∷ l) ≡ x ∷ insert_all xs l
  unfolding insert_all
  insert_all_later x [] l h = refl
  insert_all_later x (y ∷ ys) l h =
      ap (insert_by y) (insert_all_later x ys l h.1) ∙ insert_by_later y x (insert_all ys l) h.0

  pub All-filter_by {κ} :
      (P : A → Type κ) (p : A → Bool) (l : List A) → All P l → All P (filter_by p l)
  All-filter_by P p [] h = tt
  All-filter_by P p (x ∷ xs) h = elim (Bool-cases (p x)) [
    | inl e ↦ rw e (h.0, All-filter_by P p xs h.1)
    | inr e ↦ rw e (All-filter_by P p xs h.1)
  ]

  -- Two disjoint parts of an ascending list, inserted into one another, are the part that the
  -- two tests select together.
  pub insert_all-filter_by :
      (p q : A → Bool) (l : List A)
      → ((x : A) → q x ≡ true → p x ≡ false)
      → IsAscending l
      → insert_all (filter_by q l) (filter_by p l) ≡ filter_by (λ x. q x || p x) l
  unfolding insert_all
  insert_all-filter_by p q [] d h = refl
  insert_all-filter_by p q (x ∷ xs) d h =
      let rest = insert_all-filter_by p q xs d h.1 in
      elim (Bool-cases (q x)) [
        | inl e ↦
            rw (e, d x e)
              (ap (insert_by x) rest
                ∙ insert_by_first x (filter_by (λ y. q y || p y) xs)
                    (All-filter_by (λ y. key x < key y) (λ y. q y || p y) xs h.0))
        | inr e ↦ elim (Bool-cases (p x)) [
          | inl f ↦
              rw (e, f)
                (insert_all_later x (filter_by q xs) (filter_by p xs)
                    (All-filter_by (λ y. key x < key y) q xs h.0)
                  ∙ ap (◌∷◌ x) rest)
          | inr f ↦ rw (e, f) rest
        ]
      ]

  -- One more element above all others.
  pub IsAscending-snoc :
      (l : List A) (x : A) → IsAscending l → All (λ y. key y < key x) l → IsAscending (l ++ x ∷ [])
  IsAscending-snoc [] x h below = (tt, tt)
  IsAscending-snoc (y ∷ ys) x h below = (
    All-append (λ z. key y < key z) ys (x ∷ []) h.0 (below.0, tt),
    IsAscending-snoc ys x h.1 below.1,
  )

  pub All-insert_by {κ} :
      (P : A → Type κ) (x : A) (l : List A) → P x → All P l → All P (insert_by x l)
  unfolding insert_by
  All-insert_by P x [] px h = (px, tt)
  All-insert_by P x (y ∷ ys) px h = elim (Bool-cases (leb (key x) (key y))) [
    | inl e ↦ rw e (px, h)
    | inr e ↦ rw e (h.0, All-insert_by P x ys px h.1)
  ]

  pub All-sort_by_key {κ} : (P : A → Type κ) (l : List A) → All P l → All P (sort_by_key l)
  unfolding sort_by_key
  All-sort_by_key P [] h = tt
  All-sort_by_key P (x ∷ xs) h = All-insert_by P x (sort_by_key xs) h.0 (All-sort_by_key P xs h.1)

  -- An element with a key of its own finds its place.
  pub insert_by-IsAscending :
      (x : A) (l : List A)
      → All (λ y. key y ≢ key x) l
      → IsAscending l
      → IsAscending (insert_by x l)
  unfolding insert_by
  insert_by-IsAscending x [] new h = (tt, tt)
  insert_by-IsAscending x (y ∷ ys) new h = elim (Bool-cases (leb (key x) (key y))) [
    | inl e ↦
        let lt : key x < key y = ground (arith, new.0) in
        rw e (
          (lt, All-weaken (λ z. key y < key z) (λ z. key x < key z) ys (λ z yz. omega arith) h.0),
          h,
        )
    | inr e ↦ rw e (
      All-insert_by (λ z. key y < key z) x ys (ground arith) h.0,
      insert_by-IsAscending x ys new.1 h.1,
    )
  ]
