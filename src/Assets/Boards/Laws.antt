-- ===== src/Assets/Boards/Laws.antt =====
-- web/src/actions/whiteboard-assets.ts with the canvas: an upload, its src and the download of its key.
use Prim.Native.Char.{Char, code}
use Prim.Native.String.{◌++◌}
use text.Mathlib.TextLemmas.{nil-append, cons-append, append_assoc}
use scylladb_grpc_microservi.Common.{
  String, Bool, true, false, Option, none, some, is_blank, is_some, ◌≡◌, refl, sym, ap, ◌∙◌, arith,
  ◌==◌, ◌||◌, if◌then◌else◌, inl, inr, Bool-cases, eq_iff,
}
use scylladb_grpc_microservi.Assets.{strip_prefix}
use scylladb_grpc_microservi.Assets.Canvas.{matched, match_here, match_key, first_of}
use scylladb_grpc_microservi.Assets.Boards.{board_asset_key, direct_src}

-- The text has no "/uploads" in it.
unfoldable pub has_uploads : String → Bool
has_uploads String.[] = false
has_uploads (String.◌∷◌ c s) = is_some (strip_prefix "/uploads" (String.◌∷◌ c s)) || has_uploads s

-- No character of the text is a slash.
no_slash : String → Bool
no_slash String.[] = true
no_slash (String.◌∷◌ c s) = if code c == b'/' then false else no_slash s

strip-append :
    (q p t r : String)
    → no_slash q ≡ true
    → strip_prefix q t ≡ none
    → strip_prefix (q ++ p) (t ++ (String.◌∷◌ "/" r)) ≡ none
unfolding strip_prefix no_slash
strip-append String.[] p t r n h = cc
strip-append (String.◌∷◌ c q) p String.[] r n h =
    rw (cons-append c q p, nil-append (String.◌∷◌ "/" r)) (ground arith)
strip-append (String.◌∷◌ c q) p (String.◌∷◌ d t) r n h =
    rw (cons-append c q p, cons-append d t (String.◌∷◌ "/" r))
      (ground (arith, strip-append q p t r))

match_here_base :
    (c : Char) (t r : String)
    → strip_prefix "/uploads" (String.◌∷◌ c t) ≡ none
    → match_here (String.◌∷◌ c (t ++ (String.◌∷◌ "/" r))) ≡ none
unfolding match_here strip_prefix no_slash
match_here_base c t r h = ground (arith, strip-append "uploads" "/workspaces/" t r refl)

not_some {ℓ} : {A : Type ℓ} (o : Option A) → is_some o ≡ false → o ≡ none
not_some none h = refl
not_some (some a) h = cc

match_key-append :
    (base r : String)
    → has_uploads base ≡ false
    → match_key (base ++ (String.◌∷◌ "/" r)) ≡ match_key (String.◌∷◌ "/" r)
unfolding match_key has_uploads
match_key-append String.[] r h = rw (nil-append (String.◌∷◌ "/" r)) refl
match_key-append (String.◌∷◌ c t) r h = rw (cons-append c t (String.◌∷◌ "/" r)) (
    let here = match_here_base c t r (not_some _ (ground arith)) in
    let later = match_key-append t r (ground arith) in rw here later)

pub strip_prefix-append : (p s : String) → strip_prefix p (p ++ s) ≡ some s
unfolding strip_prefix
strip_prefix-append String.[] s = rw (nil-append s) refl
strip_prefix-append (String.◌∷◌ c p) s =
    rw (cons-append c p s) (ground (arith, strip_prefix-append p s))

slash_uploads :
    (t : String) → "/" ++ ("uploads" ++ ("/" ++ ("workspaces/" ++ t))) ≡ "/uploads/workspaces/" ++ t
slash_uploads t =
    ap (λ x. "/" ++ x)
      (ap (λ x. "uploads" ++ x) (sym (append_assoc "/" "workspaces/" t))
        ∙ sym (append_assoc "uploads" "/workspaces/" t))
    ∙ sym (append_assoc "/" "uploads/workspaces/" t)

match_key-here : (s k : String) → match_here s ≡ some k → match_key s ≡ some k
unfolding match_key match_here strip_prefix
match_key-here String.[] k h = cc
match_key-here (String.◌∷◌ c s) k h = ap (λ o. first_of o (match_key s)) h

match_here-uploads :
    (t : String)
    → is_blank t ≡ false
    → match_here ("/uploads/workspaces/" ++ t) ≡ some ("workspaces/" ++ t)
unfolding match_here
match_here-uploads t full = ap matched (strip_prefix-append "/uploads/workspaces/" t) ∙ rw full refl

not_blank : (s : String) → (s ≡ "" → ⊥) → is_blank s ≡ false
not_blank s n = elim (Bool-cases (is_blank s)) [
  | inl e ↦ absurd (n ((eq_iff s "").0 e))
  | inr e ↦ e
]

append-not_blank : (s : String) (c : Char) (t : String) → is_blank (s ++ (String.◌∷◌ c t)) ≡ false
append-not_blank String.[] c t = rw (nil-append (String.◌∷◌ c t)) (not_blank _ (λ e. cc))
append-not_blank (String.◌∷◌ d s) c t =
    rw (cons-append d s (String.◌∷◌ c t)) (not_blank _ (λ e. cc))

slash : (t : String) → "/" ++ t ≡ String.◌∷◌ "/" t
slash t = cons-append "/" "" t ∙ ap (λ x. String.◌∷◌ "/" x) (nil-append t)

-- The key that the canvas reads from the src of an upload is the key of the upload, if the bucket is
-- "uploads" and the public url has no "/uploads" in it.
pub match_key-direct_src :
    (public_url w n i name : String)
    → has_uploads public_url ≡ false
    → match_key (direct_src public_url "uploads" (board_asset_key w n i name))
      ≡ some (board_asset_key w n i name)
unfolding board_asset_key
match_key-direct_src public_url w n i name apart =
    let path = w ++ ("/boards/" ++ (n ++ ("/assets/" ++ (i ++ ("_" ++ name))))) in
    let full : is_blank path ≡ false =
      ap (λ x. is_blank (w ++ x))
        (cons-append "/" "boards/" (n ++ ("/assets/" ++ (i ++ ("_" ++ name)))))
      ∙ append-not_blank w "/" ("boards/" ++ (n ++ ("/assets/" ++ (i ++ ("_" ++ name))))) in
    ap (λ x. match_key (public_url ++ x)) (slash ("uploads" ++ ("/" ++ ("workspaces/" ++ path))))
    ∙ match_key-append public_url ("uploads" ++ ("/" ++ ("workspaces/" ++ path))) apart
    ∙ ap match_key
        (sym (slash ("uploads" ++ ("/" ++ ("workspaces/" ++ path)))) ∙ slash_uploads path)
    ∙ match_key-here _ _ (match_here-uploads path full)
