-- ===== src/Reconciler/Keys.antt =====
-- controller.go: lists of keys, how often a key stands in one, and the total of a weight over one.
use kcp_glbc.Prelude.{
  ℕ, ◌+◌, ◌*◌, ◌≤◌, ◌≡◌, String, List, [], ◌∷◌, ◌++◌, ◌==◌, eq_iff, eq_refl, if◌then◌else◌, arith,
  false, refl, length,
}
use kcp_glbc.Reconciler.Retries.{occurrences}

unfoldable pub total : (String → ℕ) → List String → ℕ
total f [] = 0
total f (k ∷ ks) = f k + total f ks

pub total-append :
    (f : String → ℕ) (xs ys : List String) → total f (xs ++ ys) ≡ total f xs + total f ys
unfolding total
total-append f [] ys = omega arith
total-append f (x ∷ xs) ys = omega (arith, total-append f xs ys)

pub occurrences-append :
    (k : String) (xs ys : List String)
    → occurrences k (xs ++ ys) ≡ occurrences k xs + occurrences k ys
unfolding occurrences
occurrences-append k [] ys = omega arith
occurrences-append k (x ∷ xs) ys = omega (arith, occurrences-append k xs ys)

pub total-split :
    (f : String → ℕ) (k : String) (xs ys : List String)
    → total f (xs ++ k ∷ ys) ≡ f k + total f (xs ++ ys)
unfolding total
total-split f k xs ys = omega (arith, total-append f xs (k ∷ ys), total-append f xs ys)

pub occurrences-split :
    (j k : String) (xs ys : List String)
    → occurrences j (xs ++ k ∷ ys) ≡ (if k == j then 1 else 0) + occurrences j (xs ++ ys)
unfolding occurrences
occurrences-split j k xs ys =
    omega (arith, occurrences-append j xs (k ∷ ys), occurrences-append j xs ys)

pub occurrences-alone :
    (k : String) (xs ys : List String)
    → occurrences k (xs ++ k ∷ ys) ≤ 1
    → occurrences k (xs ++ ys) ≡ 0
occurrences-alone k xs ys h = ground (arith, h, occurrences-split k k xs ys, eq_refl k)

-- The two weights agree but at a key that does not occur.
pub total-other :
    (f g : String → ℕ) (k : String) (xs : List String)
    → ((j : String) → (k == j) ≡ false → f j ≡ g j)
    → occurrences k xs ≡ 0
    → total f xs ≡ total g xs
unfolding total occurrences
total-other f g k [] agree h = refl
total-other f g k (x ∷ xs) agree h =
    let absent : (k == x) ≡ false = ground (arith, h, eq_iff x k, eq_iff k x) in
    let rest = total-other f g k xs agree (ground (arith, h)) in omega (arith, agree x absent, rest)

pub total-same :
    (f g : String → ℕ) (xs : List String) → ((j : String) → f j ≡ g j) → total f xs ≡ total g xs
unfolding total
total-same f g [] agree = refl
total-same f g (x ∷ xs) agree = omega (arith, agree x, total-same f g xs agree)

pub total-le-length :
    (f : String → ℕ) (n : ℕ) (xs : List String)
    → ((j : String) → f j ≤ n)
    → total f xs ≤ n * length xs
unfolding total
total-le-length f n [] h = omega arith
total-le-length f n (x ∷ xs) h = grind (arith, h x, total-le-length f n xs h)
