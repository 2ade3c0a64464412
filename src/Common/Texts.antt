-- ===== src/Common/Texts.antt =====
-- The methods of JavaScript strings that the program calls, on a text taken as its code units.
use Prim.Native.Char.{code}
use Prim.Native.Nat.{ℕ, zero, suc, ◌+◌, ◌-◌, ◌≤◌}
use Prim.Native.String.{String, ◌++◌}
use text.Mathlib.TextLemmas.{cons-append, nil-append}
use mathlib.Core.Path.{◌≡◌}
use mathlib.Core.Bool.{Bool, true, false, ◌||◌}
use mathlib.Core.List.{List, [], ◌∷◌}
use native.Mathlib.Omega.{arith}
use scylladb_grpc_microservi.Common.Tests.{if◌then◌else◌, ◌==◌}

-- `s.length`
abbrev pub text_length : String → ℕ
text_length String.[] = 0
text_length (String.◌∷◌ c s) = suc (text_length s)

-- `s.slice(0, n)`
abbrev pub text_take : ℕ → String → String
text_take zero s = ""
text_take (suc n) String.[] = ""
text_take (suc n) (String.◌∷◌ c s) = String.◌∷◌ c (text_take n s)

-- `s.slice(n)`
abbrev pub text_drop : ℕ → String → String
text_drop zero s = s
text_drop (suc n) String.[] = ""
text_drop (suc n) (String.◌∷◌ c s) = text_drop n s

-- `s.startsWith(p)`
abbrev pub begins : (prefix s : String) → Bool
begins String.[] s = true
begins (String.◌∷◌ c p) String.[] = false
begins (String.◌∷◌ c p) (String.◌∷◌ d s) =
    let rest = begins p s in if code c == code d then rest else false

-- `s.includes(part)`
abbrev pub includes : (part s : String) → Bool
includes part String.[] = begins part ""
includes part (String.◌∷◌ c s) = begins part (String.◌∷◌ c s) || includes part s

-- `xs.join(separator)`
abbrev pub join : (separator : String) → List String → String
join separator [] = ""
join separator (x ∷ []) = x
join separator (x ∷ (y ∷ xs)) = x ++ (separator ++ join separator (y ∷ xs))

pub length-append_text : (s t : String) → text_length (s ++ t) ≡ text_length s + text_length t
length-append_text String.[] t = rw (nil-append t) (omega arith)
length-append_text (String.◌∷◌ c s) t =
    rw (cons-append c s t) (omega (arith, length-append_text s t))

pub length-take_text-le : (n : ℕ) (s : String) → text_length (text_take n s) ≤ n
length-take_text-le zero s = omega arith
length-take_text-le (suc n) String.[] = omega arith
length-take_text-le (suc n) (String.◌∷◌ c s) = omega (arith, length-take_text-le n s)

pub length-drop_text : (n : ℕ) (s : String) → text_length (text_drop n s) ≡ text_length s - n
length-drop_text zero s = omega arith
length-drop_text (suc n) String.[] = omega arith
length-drop_text (suc n) (String.◌∷◌ c s) = omega (arith, length-drop_text n s)
