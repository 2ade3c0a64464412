-- ===== src/Notes/Color/Laws.antt =====
-- web/src/modules/notes/components/note-view.tsx: the arithmetic of `hashColor`.
use Prim.Native.Char.{code}
use scylladb_grpc_microservi.Common.{
  ℕ, zero, suc, ◌+◌, ◌*◌, ◌%◌, String, ◌≡◌, refl, ap, ◌∙◌, arith, text_length,
}
use scylladb_grpc_microservi.Notes.Color.{hash_step, hash_from, hex_digits, hash_color}

-- The hash without wrap-around: 31 times the one before plus the character.
unfoldable pub poly : ℕ → String → ℕ
poly n String.[] = n
poly n (String.◌∷◌ c s) = poly (31 * n + code c) s

hash_step-mod : (n c : ℕ) → hash_step (n % 4294967296) c ≡ (31 * n + c) % 4294967296
hash_step-mod n c = omega arith

hash_from-poly : (n : ℕ) (s : String) → hash_from (n % 4294967296) s ≡ poly n s % 4294967296
unfolding hash_from poly
hash_from-poly n String.[] = refl
hash_from-poly n (String.◌∷◌ c s) =
    ap (λ h. hash_from h s) (hash_step-mod n (code c)) ∙ hash_from-poly (31 * n + code c) s

length-hex_digits : (k n : ℕ) → text_length (hex_digits k n) ≡ k
unfolding hex_digits
length-hex_digits zero n = refl
length-hex_digits (suc k) n = ap suc (length-hex_digits k n)

-- The colour of any text has seven characters, and its number is the polynomial hash of the text,
-- with factor 31, modulo 2 ^ 24: the wrap-around of the shifts does not show.
pub hash_color-poly :
    (s : String)
    → (text_length (hash_color s) ≡ 7)
      × (hash_color s ≡ String.◌∷◌ "#" (hex_digits 6 (poly 0 s % 16777216)))
unfolding hash_color
hash_color-poly s =
    let whole : hash_from 0 s ≡ poly 0 s % 4294967296 = hash_from-poly 0 s in
    let low : hash_from 0 s % 16777216 ≡ poly 0 s % 16777216 = omega (arith, whole) in
    (
      ap suc (length-hex_digits 6 (hash_from 0 s % 16777216)),
      ap (λ n. String.◌∷◌ "#" (hex_digits 6 n)) low,
    )
