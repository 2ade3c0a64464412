-- ===== src/Auth/Typewriter/Laws.antt =====
-- web/src/modules/auth/components/auth.tsx: the ticks of `Typewriter`.
use Prim.Native.String.{◌++◌}
use text.Mathlib.TextLemmas.{nil-append, cons-append}
use scylladb_grpc_microservi.Common.{
  ℕ, zero, suc, ◌+◌, ◌-◌, ◌%◌, ◌<◌, ◌≤◌, String, Bool, true, false, List, ltb, length, is_blank,
  text_length, text_take, ◌≡◌, refl, ap, ◌∙◌, arith,
}
use scylladb_grpc_microservi.Auth.Typewriter.{
  Typing, text_at, char_at, type_on, delete_on, tick, ticks, start,
}

text_take-suc :
    (k : ℕ) (s : String) → k < text_length s → text_take k s ++ char_at k s ≡ text_take (suc k) s
text_take-suc k String.[] h = absurd (omega (arith, h))
text_take-suc zero (String.◌∷◌ c s) h = nil-append (String.◌∷◌ c "")
text_take-suc (suc k) (String.◌∷◌ c s) h =
    cons-append c (text_take k s) (char_at k s)
    ∙ ap (λ x. String.◌∷◌ c x) (text_take-suc k s (omega (arith, h)))

length-text_take : (k : ℕ) (s : String) → k ≤ text_length s → text_length (text_take k s) ≡ k
length-text_take zero s h = refl
length-text_take (suc k) String.[] h = omega (arith, h)
length-text_take (suc k) (String.◌∷◌ c s) h = omega (arith, length-text_take k s)

text_take-take : (k : ℕ) (s : String) → text_take k (text_take (suc k) s) ≡ text_take k s
text_take-take zero s = refl
text_take-take (suc k) String.[] = refl
text_take-take (suc k) (String.◌∷◌ c s) = ap (λ x. String.◌∷◌ c x) (text_take-take k s)

text_take-all : (s : String) → text_take (text_length s) s ≡ s
text_take-all String.[] = refl
text_take-all (String.◌∷◌ c s) = ap (λ x. String.◌∷◌ c x) (text_take-all s)

abbrev mk_typing : String → ℕ → Bool → ℕ → Typing
mk_typing d n b i = record {
  display_text = d;
  current_index = n;
  is_deleting = b;
  text_array_index = i;
}

same_typing :
    (d d' : String) (n m : ℕ) (b : Bool) (i : ℕ)
    → d ≡ d'
    → n ≡ m
    → mk_typing d n b i ≡ mk_typing d' m b i
same_typing d d' n m b i e f = rw (e, f) refl

module _ (loop : Bool) (texts : List String) (i : ℕ)
    (full : is_blank (text_at i texts) ≡ false) where
  abbrev typed : ℕ → Typing
  typed k = mk_typing (text_take k (text_at i texts)) k false i

  -- The text with all but its first `k` characters deleted.
  abbrev deleted : ℕ → Typing
  deleted k = mk_typing (text_take k (text_at i texts)) (text_length (text_at i texts)) true i

  tick-typed :
      (k : ℕ) → k < text_length (text_at i texts) → tick loop texts (typed k) ≡ typed (suc k)
  unfolding tick type_on
  tick-typed k h =
      let more : ltb k (text_length (text_at i texts)) ≡ true = ground (arith, h) in
      rw (full, more)
        (same_typing _ _ (k + 1) (suc k) false i (text_take-suc k (text_at i texts) h)
          (omega arith))

  ticks-typed : (k : ℕ) → k ≤ text_length (text_at i texts) → ticks loop texts k (start i) ≡ typed k
  ticks-typed zero h = refl
  ticks-typed (suc k) h =
      ap (tick loop texts) (ticks-typed k (omega (arith, h))) ∙ tick-typed k (omega (arith, h))

  -- While a text is typed, its first characters are shown, one more with each tick; after as many
  -- ticks as it has characters it is shown in full.
  pub ticks-shown :
      (k : ℕ)
      → k ≤ text_length (text_at i texts)
      → ((ticks loop texts k (start i)).display_text ≡ text_take k (text_at i texts))
        × ((ticks loop texts (text_length (text_at i texts)) (start i)).display_text
            ≡ text_at i texts)
  ticks-shown k h = (
    ap Typing.display_text (ticks-typed k h),
    ap Typing.display_text (ticks-typed (text_length (text_at i texts)) (omega arith))
        ∙ text_take-all (text_at i texts),
  )

  tick-shown_full :
      loop ≡ true
      → tick loop texts (typed (text_length (text_at i texts)))
        ≡ deleted (text_length (text_at i texts))
  unfolding tick type_on
  tick-shown_full on =
      let done : ltb (text_length (text_at i texts)) (text_length (text_at i texts)) ≡ false =
        ground arith in
      rw (full, done, on) refl

  tick-deleted :
      (k : ℕ)
      → suc k ≤ text_length (text_at i texts)
      → tick loop texts (deleted (suc k)) ≡ deleted k
  unfolding tick delete_on
  tick-deleted k h =
      let n = length-text_take (suc k) (text_at i texts) h in
      let some_left : ltb 0 (text_length (text_take (suc k) (text_at i texts))) ≡ true =
        ground (arith, n) in
      let less : text_length (text_take (suc k) (text_at i texts)) - 1 ≡ k = omega (arith, n) in
      rw (full, some_left, less)
        (same_typing _ _ _ _ true i (text_take-take k (text_at i texts)) refl)

  tick-empty : tick loop texts (deleted 0) ≡ start ((i + 1) % length texts)
  unfolding tick delete_on
  tick-empty = rw full refl

  ticks_add :
      (n m : ℕ) (s : Typing)
      → ticks loop texts (n + m) s ≡ ticks loop texts n (ticks loop texts m s)
  ticks_add zero m s = let e : zero + m ≡ m = omega arith in ap (λ x. ticks loop texts x s) e
  ticks_add (suc n) m s =
      let e : suc n + m ≡ suc (n + m) = omega arith in
      ap (λ x. ticks loop texts x s) e ∙ ap (tick loop texts) (ticks_add n m s)

  ticks-deleted :
      (k : ℕ) → k ≤ text_length (text_at i texts) → ticks loop texts k (deleted k) ≡ deleted 0
  ticks-deleted zero h = refl
  ticks-deleted (suc k) h =
      let e : suc k ≡ k + 1 = omega arith in
      ap (λ x. ticks loop texts x (deleted (suc k))) e
      ∙ ticks_add k 1 (deleted (suc k))
      ∙ ap (ticks loop texts k) (tick-deleted k h)
      ∙ ticks-deleted k (omega (arith, h))

  -- With `loop` a text is typed and deleted again, and the next one begins, in twice its length and
  -- two ticks.
  pub ticks-next :
      loop ≡ true
      → let n = text_length (text_at i texts) in
        ticks loop texts (1 + (n + (1 + n))) (start i) ≡ start ((i + 1) % length texts)
  ticks-next on =
      let n = text_length (text_at i texts) in
      ticks_add 1 (n + (1 + n)) (start i)
      ∙ ap (tick loop texts) (
          ticks_add n (1 + n) (start i)
          ∙ ap (ticks loop texts n) (
              ticks_add 1 n (start i)
              ∙ ap (tick loop texts) (ticks-typed n (omega arith))
              ∙ tick-shown_full on)
          ∙ ticks-deleted n (omega arith))
      ∙ tick-empty
