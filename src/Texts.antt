-- ===== src/Texts.antt =====
-- Python's `str.strip` and the sorting of texts, as feishu/agent/scheduled.py and
-- feishu/auth/user_tokens.py use them.
use Prim.Native.Nat.{Ordering}
use Prim.Native.String.{compare}
use open_feishu.Common.{
  ℕ, String, Bool, true, false, ◌&&◌, ◌||◌, not, List, [], ◌∷◌, leb, ◌==◌, string_eq, nat_eq,
  nats_eq, mem, if◌then◌else◌,
}
use open_feishu.Http.Retry.{codes}

-- The code points that `str.strip` takes away.
unfoldable pub is_space : ℕ → Bool
is_space c =
    leb 9 c && leb c 13
    || leb 28 c && leb c 32
    || (c == 133 || c == 160 || c == 5760)
    || leb 8192 c && leb c 8202
    || (c == 8232 || c == 8233 || c == 8239 || c == 8287 || c == 12288)

unfoldable pub lstrip : List ℕ → List ℕ
lstrip [] = []
lstrip (c ∷ cs) = let rest = lstrip cs in if is_space c then rest else c ∷ cs

abbrev before : ℕ → List ℕ → List ℕ
before c [] = if is_space c then [] else c ∷ []
before c (d ∷ ds) = c ∷ d ∷ ds

unfoldable pub rstrip : List ℕ → List ℕ
rstrip [] = []
rstrip (c ∷ cs) = before c (rstrip cs)

-- `text.strip()`, as code points.
unfoldable pub strip : String → List ℕ
strip text = rstrip (lstrip (codes text))

-- `bool(text.strip())`
unfoldable pub has_text : String → Bool
has_text text = not (strip text == [])

abbrev text_leb : String → String → Bool
text_leb s t = elim (compare s t) [ Ordering.gt ↦ false | _ ↦ true ]

unfoldable pub insert : String → List String → List String
insert s [] = s ∷ []
insert s (t ∷ ts) = let rest = insert s ts in if text_leb s t then s ∷ t ∷ ts else t ∷ rest

-- `tuple(sorted(set(keys)))`
unfoldable pub sorted_set : List String → List String
sorted_set [] = []
sorted_set (s ∷ ss) = let rest = sorted_set ss in if mem s ss then rest else insert s rest

unfoldable pub with_text : List String → List String
with_text [] = []
with_text (s ∷ ss) = let rest = with_text ss in if has_text s then s ∷ rest else rest

unfoldable pub texts_eqb : List String → List String → Bool
texts_eqb [] [] = true
texts_eqb (s ∷ ss) (t ∷ ts) = (s == t) && texts_eqb ss ts
texts_eqb _ _ = false

-- `isinstance(text, str) and text.strip() and text == text.strip()`, for a key of a tenant.
unfoldable pub is_tenant : String → Bool
is_tenant tenant_key = has_text tenant_key && (codes tenant_key == strip tenant_key)
