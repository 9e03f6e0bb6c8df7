-- ===== src/Base/Order.antt =====
-- The order of strings, and sorting by it.
use flare_studio.Base.Text.{Text}
use flare_studio.Base.{
  Bool, true, false, ◌&&◌, ◌||◌, List, [], ◌∷◌, ◌≡◌, refl, arith, ltb, ◌==◌, if◌then◌else◌,
}

-- The order of `Array.prototype.sort` on strings: by UTF-16 code units.
unfoldable pub text_lt : Text → Text → Bool
text_lt [] [] = false
text_lt [] (b ∷ t) = true
text_lt (a ∷ s) [] = false
text_lt (a ∷ s) (b ∷ t) = ltb a b || a == b && text_lt s t

insert_text : Text → List Text → List Text
insert_text t [] = t ∷ []
insert_text t (u ∷ us) =
    let later = insert_text t us in if text_lt u t then u ∷ later else t ∷ u ∷ us

-- `texts.sort()`
unfoldable pub sort_texts : List Text → List Text
unfolding insert_text
sort_texts [] = []
sort_texts (t ∷ ts) = insert_text t (sort_texts ts)

pub text_lt_asymm : (s t : Text) → text_lt s t ≡ true → text_lt t s ≡ false
unfolding text_lt
text_lt_asymm [] [] h = refl
text_lt_asymm [] (b ∷ t) h = refl
text_lt_asymm (a ∷ s) [] h = cc
text_lt_asymm (a ∷ s) (b ∷ t) h = ground (arith, text_lt_asymm s t)

pub text_lt_antisymm : (s t : Text) → text_lt s t ≡ false → text_lt t s ≡ false → s ≡ t
unfolding text_lt
text_lt_antisymm [] [] h k = refl
text_lt_antisymm [] (b ∷ t) h k = cc
text_lt_antisymm (a ∷ s) [] h k = cc
text_lt_antisymm (a ∷ s) (b ∷ t) h k = ground (arith, text_lt_antisymm s t)

pub text_lt_of_le_lt :
    (s t u : Text) → text_lt t s ≡ false → text_lt t u ≡ true → text_lt s u ≡ true
unfolding text_lt
text_lt_of_le_lt [] [] [] h k = cc
text_lt_of_le_lt [] [] (c ∷ u) h k = refl
text_lt_of_le_lt [] (b ∷ t) [] h k = cc
text_lt_of_le_lt [] (b ∷ t) (c ∷ u) h k = refl
text_lt_of_le_lt (a ∷ s) [] u h k = cc
text_lt_of_le_lt (a ∷ s) (b ∷ t) [] h k = cc
text_lt_of_le_lt (a ∷ s) (b ∷ t) (c ∷ u) h k = ground (arith, text_lt_of_le_lt s t u)
