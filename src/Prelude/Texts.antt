-- ===== src/Prelude/Texts.antt =====
-- Texts as sequences of characters.
use Prim.Native.Nat.{ℕ, zero, suc}
use Prim.Native.Char.{code}
use mathlib.Core.Bool.{Bool, true, ◌&&◌, ◌||◌}
use Prim.Native.String.{String, [], ◌∷◌, ◌++◌}
use text.Mathlib.Text.{◌==◌ as str_eq}
use bbd_os.Prelude.Tests.{leb, ◌==◌, if◌then◌else◌}

-- `text[:n]`
unfoldable pub first_characters : ℕ → String → String
first_characters zero s = []
first_characters (suc n) [] = []
first_characters (suc n) (c ∷ s) = c ∷ first_characters n s

-- `a + b`
abbrev pub append : String → String → String
append a b = a ++ b

-- `text.rstrip("/")`
unfoldable pub rstrip_slash : String → String
rstrip_slash [] = []
rstrip_slash (c ∷ s) = let kept = c ∷ rstrip_slash s in if str_eq kept "/" then [] else kept

-- `text.lstrip("/")`
unfoldable pub lstrip_slash : String → String
lstrip_slash [] = []
lstrip_slash (c ∷ s) = let rest = lstrip_slash s in if str_eq (c ∷ []) "/" then rest else c ∷ s

-- `text.endswith(suffix)`
unfoldable pub ends_with : String → String → Bool
ends_with suffix [] = str_eq [] suffix
ends_with suffix (c ∷ s) = str_eq (c ∷ s) suffix || ends_with suffix s

-- The characters that `text.strip()` takes off.
abbrev pub is_space : ℕ → Bool
is_space c =
    leb 9 c && leb c 13
    || leb 28 c && leb c 32
    || c == 133
    || c == 160
    || c == 5760
    || leb 8192 c && leb c 8202
    || c == 8232
    || c == 8233
    || c == 8239
    || c == 8287
    || c == 12288

-- `not text.strip()`
unfoldable pub is_blank : String → Bool
is_blank [] = true
is_blank (c ∷ s) = is_space (code c) && is_blank s

-- `text.split(".", 1)[0]`
unfoldable pub first_part : String → String
first_part [] = []
first_part (c ∷ s) = let rest = first_part s in if code c == 46 then [] else c ∷ rest
