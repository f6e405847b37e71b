-- ===== src/Common/Members.antt =====
-- Membership of texts in a list, and lists without a repetition.
use Prim.Native.String.{String}
use mathlib.Core.Path.{◌≡◌, refl}
use mathlib.Core.Bool.{Bool, false, ◌||◌, not, ◌&&◌}
use mathlib.Core.List.{List, [], ◌∷◌, ◌++◌}
use native.Mathlib.Omega.{arith}
use text.Mathlib.TextEquality.{eq_iff}
use open_feishu.Common.Tests.{if◌then◌else◌}
use open_feishu.Common.Equality.{◌==◌, string_eq}

abbrev pub mem : String → List String → Bool
mem s [] = false
mem s (x ∷ xs) = (x == s) || mem s xs

abbrev pub Unique : List String → Type 0
Unique [] = Unit
Unique (x ∷ xs) = (mem x xs ≡ false) × Unique xs

pub mem-append : (s : String) (xs ys : List String) → mem s (xs ++ ys) ≡ (mem s xs || mem s ys)
mem-append s [] ys = refl
mem-append s (x ∷ xs) ys = ground (arith, mem-append s xs ys)

-- An entry at the end that is new.
pub Unique-snoc :
    (x : String) (xs : List String) → mem x xs ≡ false → Unique xs → Unique (xs ++ x ∷ [])
Unique-snoc x [] h u = (refl, tt)
Unique-snoc x (y ∷ xs) h (a, u) =
    ground (arith, mem-append y xs (x ∷ []), eq_iff x y, eq_iff y x, Unique-snoc x xs)

-- The list without the entries that are the text.
unfoldable pub remove : String → List String → List String
remove s [] = []
remove s (x ∷ xs) = let rest = remove s xs in if x == s then rest else x ∷ rest

pub mem-remove :
    (t s : String) (xs : List String) → mem t (remove s xs) ≡ (mem t xs && not (s == t))
unfolding remove
mem-remove t s [] = refl
mem-remove t s (x ∷ xs) = ground (arith, eq_iff x s, eq_iff x t, eq_iff s t, mem-remove t s xs)

pub Unique-remove : (s : String) (xs : List String) → Unique xs → Unique (remove s xs)
unfolding remove
Unique-remove s [] u = tt
Unique-remove s (x ∷ xs) (a, u) =
    ground (arith, eq_iff x s, mem-remove x s xs, Unique-remove s xs u)
