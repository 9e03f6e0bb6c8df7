-- ===== src/Extension/Framework/Lookup.antt =====
-- Which handler a pair of identifiers is dispatched to.
use flare_studio.Base.Text.{Text, codes, text_eq_iff, text_eq_refl, to_lower_case, lower, hex_digit}
use flare_studio.Base.{
  ℕ, ◌/◌, ◌%◌, none, some, List, [], ◌∷◌, ◌++◌, ok, ◌≡◌, ◌⊎◌, ◌↔◌, refl, ap, All, arith,
}
use flare_studio.Extension.Encoding.{hex_digits, bytes_to_hex, string_to_bytes32_hex}
use flare_studio.Extension.Encoding.RoundTrip.{padded, string_to_bytes32_hex_cases}
use flare_studio.Extension.Framework.{first_match, lookup, normalize, empty_bytes32, handle}

module _ {H : Type 0} where
  -- No registration has this pair.
  abbrev pub Absent : Text → Text → List (Text × Text × H) → Type 0
  Absent t c handlers = All (λ e. ¬ ((e.0 ≡ t) × (e.1 ≡ c))) handlers

  -- The first registration with this pair has the handler `h`.
  abbrev pub FirstFor : Text → Text → H → List (Text × Text × H) → Type 0
  FirstFor t c h [] = ⊥
  FirstFor t c h ((t', c', h') ∷ handlers) =
      ((t' ≡ t) × (c' ≡ c) × (h' ≡ h)) ⊎ (¬ ((t' ≡ t) × (c' ≡ c)) × FirstFor t c h handlers)

  first_match-eq-none_iff :
      (t c : Text) (hs : List (Text × Text × H)) → (first_match t c hs ≡ none) ↔ Absent t c hs
  unfolding first_match
  first_match-eq-none_iff t c [] = ground arith
  first_match-eq-none_iff t c ((t', c', h') ∷ hs) =
      ground (arith, first_match-eq-none_iff t c hs, text_eq_iff t' t, text_eq_iff c' c)

  first_match-eq-some_iff :
      (t c : Text) (h : H) (hs : List (Text × Text × H))
      → (first_match t c hs ≡ some h) ↔ FirstFor t c h hs
  unfolding first_match
  first_match-eq-some_iff t c h [] = ground arith
  first_match-eq-some_iff t c h ((t', c', h') ∷ hs) =
      ground (arith, first_match-eq-some_iff t c h hs, text_eq_iff t' t, text_eq_iff c' c)

  -- `lookup` returns a handler exactly if it is the first one registered for the normalised pair, or
  -- no handler is and it is the first one registered for the type with the empty command.
  pub lookup-eq-some_iff :
      (t c : Text) (h : H) (hs : List (Text × Text × H))
      → (lookup t c hs ≡ some h) ↔ (
          FirstFor (normalize t) (normalize c) h hs
          ⊎ (Absent (normalize t) (normalize c) hs × FirstFor (normalize t) empty_bytes32 h hs))
  unfolding lookup
  lookup-eq-some_iff t c h hs = ground (
    arith,
    first_match-eq-some_iff (normalize t) (normalize c) h hs,
    first_match-eq-none_iff (normalize t) (normalize c) hs,
    first_match-eq-some_iff (normalize t) empty_bytes32 h hs,
  )

lower-hex_digit : (d : ℕ) → lower (hex_digit d) ≡ hex_digit d
unfolding lower hex_digit
lower-hex_digit d = ground arith

to_lower_case-hex_digits : (bs : List ℕ) → to_lower_case (hex_digits bs) ≡ hex_digits bs
unfolding hex_digits to_lower_case
to_lower_case-hex_digits [] = refl
to_lower_case-hex_digits (b ∷ bs) =
    ground (arith, lower-hex_digit (b / 16), lower-hex_digit (b % 16), to_lower_case-hex_digits bs)

normalize-prefixed :
    (t : Text) → to_lower_case t ≡ t → normalize (codes "0x" ++ t) ≡ codes "0x" ++ t
unfolding normalize
normalize-prefixed t h = ap (λ s. codes "0x" ++ s) h

normalize-bytes_to_hex : (bs : List ℕ) → normalize (bytes_to_hex bs) ≡ bytes_to_hex bs
normalize-bytes_to_hex bs =
    unfold bytes_to_hex in normalize-prefixed (hex_digits bs) (to_lower_case-hex_digits bs)

normalize-string_to_bytes32_hex : (s h : Text) → string_to_bytes32_hex s ≡ ok h → normalize h ≡ h
normalize-string_to_bytes32_hex s h e =
    let same = (string_to_bytes32_hex_cases s h e).1 in rw same (normalize-bytes_to_hex (padded s))

module _ {H : Type 0} where
  first_match-registered :
      (t c : Text) (h : H) (hs : List (Text × Text × H))
      → first_match t c hs ≡ none
      → first_match t c (hs ++ (t, c, h) ∷ []) ≡ some h
  unfolding first_match
  first_match-registered t c h [] p = ground (arith, text_eq_refl t, text_eq_refl c)
  first_match-registered t c h ((t', c', h') ∷ hs) p =
      ground (arith, first_match-registered t c h hs)

  handle_cases :
      (t c t' c' : Text) (h : H) (hs hs' : List (Text × Text × H))
      → string_to_bytes32_hex t ≡ ok t'
      → string_to_bytes32_hex c ≡ ok c'
      → handle t c h hs ≡ ok hs'
      → hs' ≡ hs ++ (t', c', h) ∷ []
  unfolding handle
  handle_cases t c t' c' h hs hs' p q e = ground arith

  lookup_of_exact :
      (t c : Text) (h : H) (hs : List (Text × Text × H))
      → first_match (normalize t) (normalize c) hs ≡ some h
      → lookup t c hs ≡ some h
  unfolding lookup
  lookup_of_exact t c h hs e = ground arith

  -- A handler registered for a pair of names that had none is the one that their bytes32 forms are
  -- dispatched to.
  pub lookup-handle :
      (t c t' c' : Text) (h : H) (hs hs' : List (Text × Text × H))
      → string_to_bytes32_hex t ≡ ok t'
      → string_to_bytes32_hex c ≡ ok c'
      → Absent t' c' hs
      → handle t c h hs ≡ ok hs'
      → lookup t' c' hs' ≡ some h
  lookup-handle t c t' c' h hs hs' p q a e = lookup_of_exact t' c' h hs' (
      rw
        (
          normalize-string_to_bytes32_hex t t' p,
          normalize-string_to_bytes32_hex c c' q,
          handle_cases t c t' c' h hs hs' p q e,
        )
        (first_match-registered t' c' h hs ((first_match-eq-none_iff t' c' hs).1 a)))
