-- ===== src/Metadata/Finalizers.antt =====
-- finalizers.go: adding is idempotent, and removing takes one occurrence away and keeps the rest,
-- though not their order.
use mathlib.Core.List.{Perm}
use mathlib.Core.List.Perm
use kcp_glbc.Prelude.{
  String, List, [], ◌∷◌, ◌++◌, true, false, Bool-cases, ◌==◌, eq_iff, eq_refl, ◌≡◌, refl, arith,
  inl, inr, ◌||◌,
}
use kcp_glbc.Api.{ObjectMeta}
use kcp_glbc.Metadata.{
  contains_string, has_finalizer, add_finalizer, remove_finalizer, swap_remove, last_init, fill,
}

contains_string-append :
    (xs ys : List String) (s : String)
    → contains_string (xs ++ ys) s ≡ (contains_string xs s || contains_string ys s)
unfolding contains_string
contains_string-append [] ys s = refl
contains_string-append (x ∷ xs) ys s = ground (arith, contains_string-append xs ys s)

pub has_finalizer-add :
    (obj : ObjectMeta) (f g : String)
    → has_finalizer (add_finalizer obj f) g ≡ (f == g || has_finalizer obj g)
unfolding has_finalizer add_finalizer contains_string
has_finalizer-add obj f g =
    ground (arith, contains_string-append obj.finalizers (f ∷ []) g, eq_iff f g)

last_init-perm :
    (x : String) (xs : List String) → Perm ((last_init x xs).0 ∷ (last_init x xs).1) (x ∷ xs)
unfolding last_init
last_init-perm x [] = Perm.refl (x ∷ [])
last_init-perm x (y ∷ ys) =
    Perm.trans (Perm.swap x (last_init y ys).0 (last_init y ys).1)
      (Perm.cons x (last_init-perm y ys))

fill-perm : (xs : List String) → Perm (fill xs) xs
unfolding fill
fill-perm [] = Perm.refl []
fill-perm (x ∷ xs) = last_init-perm x xs

swap_remove-perm :
    (s : String) (xs : List String) → contains_string xs s ≡ true → Perm (s ∷ swap_remove s xs) xs
unfolding swap_remove contains_string
swap_remove-perm s [] h = cc
swap_remove-perm s (x ∷ xs) h = elim (Bool-cases (x == s)) [
  | inl e ↦ rw e (rw (← (eq_iff x s).0 e) (Perm.cons x (fill-perm xs)))
  | inr e ↦ rw e (
      Perm.trans (Perm.swap x s (swap_remove s xs))
        (Perm.cons x (swap_remove-perm s xs (rw e at h))))
]

swap_remove_absent :
    (s : String) (xs : List String) → contains_string xs s ≡ false → swap_remove s xs ≡ xs
unfolding swap_remove contains_string
swap_remove_absent s [] h = refl
swap_remove_absent s (x ∷ xs) h = ground (arith, swap_remove_absent s xs)

swap_remove-append :
    (s : String) (xs : List String)
    → contains_string xs s ≡ false
    → swap_remove s (xs ++ s ∷ []) ≡ xs
unfolding swap_remove contains_string
swap_remove-append s [] h = rw (eq_refl s) refl
swap_remove-append s (x ∷ xs) h = ground (arith, swap_remove-append s xs)

-- Removing a finalizer that is there takes one occurrence of it away and keeps all the others, in
-- some order.
pub remove_finalizer-perm :
    (obj : ObjectMeta) (f : String)
    → has_finalizer obj f ≡ true
    → Perm (f ∷ (remove_finalizer obj f).finalizers) obj.finalizers
unfolding has_finalizer remove_finalizer
remove_finalizer-perm obj f h = swap_remove-perm f obj.finalizers h

-- Adding a finalizer and removing it again gives the object back, if it was not there before.
pub remove_finalizer-add :
    (obj : ObjectMeta) (f : String)
    → has_finalizer obj f ≡ false
    → remove_finalizer (add_finalizer obj f) f ≡ obj
unfolding remove_finalizer add_finalizer has_finalizer
remove_finalizer-add obj f h = ground (arith, swap_remove-append f obj.finalizers)
