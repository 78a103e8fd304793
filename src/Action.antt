-- ===== src/Action.antt =====
-- Methods that change shared state and may fail. What was written before an error stays written,
-- so the state comes back beside the error too.
use moodeng_sql.Prelude.{List, [], ◌∷◌, ◌++◌, Option, none, some, map, ◌≡◌, refl, arith}
use moodeng_sql.Error.{MoodengError, Result, ok, err}

abbrev pub Action : Type 0 → Type 0 → Type 0
Action S A = S → Result A × S

module _ {S A : Type 0} where
  abbrev pub pure : A → Action S A
  pure a s = (ok a, s)

  abbrev pub raise : MoodengError → Action S A
  raise e s = (err e, s)

  abbrev pub gets : (S → A) → Action S A
  gets f s = (ok (f s), s)

  abbrev pub ok_or_raise : Option A → MoodengError → Action S A
  ok_or_raise none e s = (err e, s)
  ok_or_raise (some a) e s = (ok a, s)

abbrev pub modify : {S : Type 0} → (S → S) → Action S (Unit {0})
modify f s = (ok tt, f s)

infixl 5 ◌>>=◌ ◌>>◌
abbrev pub ◌>>=◌ : {S A B : Type 0} → Action S A → (A → Action S B) → Action S B
◌>>=◌ m f s = let (r, s') = m s in elim r [ ok a ↦ f a s' | err e ↦ (err e, s') ]

abbrev pub ◌>>◌ : {S A B : Type 0} → Action S A → Action S B → Action S B
m >> n = m >>= λ _. n

-- `for x in xs { f(x)?; }`
unfoldable pub for_each : {S A : Type 0} → (A → Action S (Unit {0})) → List A → Action S (Unit {0})
for_each f [] = pure tt
for_each f (x ∷ xs) = do f x; for_each f xs

pub for_each-cons :
    {S A : Type 0} (f : A → Action S (Unit {0})) (x : A) (xs : List A) (s : S)
    → (f x s).0 ≡ ok tt
    → for_each f (x ∷ xs) s ≡ for_each f xs (f x s).1
unfolding for_each
for_each-cons f x xs s done = ground (arith, done)

pub for_each-map :
    {S A B : Type 0} (f : B → Action S (Unit {0})) (g : A → B) (xs : List A) (s : S)
    → for_each (λ x. f (g x)) xs s ≡ for_each f (map g xs) s
unfolding for_each
for_each-map f g [] s = refl
for_each-map f g (x ∷ xs) s = ground (arith, for_each-map f g xs (f (g x) s).1)

pub for_each-append :
    {S A : Type 0} (f : A → Action S (Unit {0})) (xs ys : List A) (s : S)
    → (for_each f xs s).0 ≡ ok tt
    → for_each f (xs ++ ys) s ≡ for_each f ys (for_each f xs s).1
unfolding for_each
for_each-append f [] ys s done = refl
for_each-append f (x ∷ xs) ys s done = ground (arith, done, for_each-append f xs ys (f x s).1)
