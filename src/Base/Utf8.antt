-- ===== src/Base/Utf8.antt =====
-- `TextEncoder.encode`: the UTF-8 bytes of a string.
use flare_studio.Base.Text.{Text, is_lead, is_trail}
use flare_studio.Base.{
  ℕ, ◌+◌, ◌-◌, ◌*◌, ◌/◌, ◌%◌, ◌<◌, ◌&&◌, ◌||◌, not, List, [], ◌∷◌, ◌++◌, ◌≡◌, refl, ltb, ◌==◌,
  if◌then◌else◌, All, arith,
}

-- The code points of a string; `lead` is the half of a pair read before, or 0. A half that stays
-- alone becomes the replacement character.
code_points : ℕ → Text → List ℕ
code_points lead [] = if lead == 0 then [] else 0xfffd ∷ []
code_points lead (c ∷ s) =
    let paired = not (lead == 0) && is_trail c in
    let before = if lead == 0 || paired then [] else 0xfffd ∷ [] in
    let here =
      if paired
      then (0x10000 + (lead - 0xd800) * 0x400 + (c - 0xdc00)) ∷ []
      else if is_lead c
      then []
      else if is_trail c
      then 0xfffd ∷ []
      else c ∷ [] in
    before ++ (here ++ code_points (if is_lead c then c else 0) s)

point_bytes : ℕ → List ℕ
point_bytes c =
    if ltb c 0x80
    then c ∷ []
    else if ltb c 0x800
    then (0xc0 + c / 64) ∷ (0x80 + c % 64) ∷ []
    else if ltb c 0x10000
    then (0xe0 + c / 4096) ∷ (0x80 + c / 64 % 64) ∷ (0x80 + c % 64) ∷ []
    else (0xf0 + c / 262144) ∷ (0x80 + c / 4096 % 64) ∷ (0x80 + c / 64 % 64) ∷ (0x80 + c % 64) ∷ []

points_bytes : List ℕ → List ℕ
points_bytes [] = []
points_bytes (c ∷ cs) = point_bytes c ++ points_bytes cs

unfoldable pub utf8_encode : Text → List ℕ
unfolding code_points is_lead is_trail point_bytes points_bytes
utf8_encode s = points_bytes (code_points 0 s)

utf8_tests :
    (utf8_encode (b'A' ∷ []) ≡ b'A' ∷ [])
    × (utf8_encode (0x20ac ∷ []) ≡ 0xe2 ∷ 0x82 ∷ 0xac ∷ [])
    × (utf8_encode (0xd83d ∷ 0xde00 ∷ []) ≡ 0xf0 ∷ 0x9f ∷ 0x98 ∷ 0x80 ∷ [])
    × (utf8_encode (0xd83d ∷ b'A' ∷ []) ≡ 0xef ∷ 0xbf ∷ 0xbd ∷ b'A' ∷ [])
unfolding utf8_encode
utf8_tests = (refl, refl, refl, refl)

-- UTF-16 code units.
abbrev pub AreUnits : Text → Type 0
AreUnits s = All (λ c. c < 0x10000) s

abbrev ArePoints : List ℕ → Type 0
ArePoints cs = All (λ c. c < 0x110000) cs

code_points-ArePoints :
    (lead : ℕ) (s : Text) → lead < 0xdc00 → AreUnits s → ArePoints (code_points lead s)
unfolding code_points is_lead is_trail
code_points-ArePoints lead [] h u = ground arith
code_points-ArePoints lead (c ∷ s) h u =
    ground (arith, code_points-ArePoints (if is_lead c then c else 0) s)

All-append {ℓ κ} :
    {A : Type ℓ} (P : A → Type κ) (xs ys : List A) → All P xs → All P ys → All P (xs ++ ys)
All-append P [] ys h k = k
All-append P (x ∷ xs) ys h k = (h.0, All-append P xs ys h.1 k)

point_bytes-bytes : (c : ℕ) → c < 0x110000 → All (λ b. b < 256) (point_bytes c)
unfolding point_bytes
point_bytes-bytes c h = ground arith

points_bytes-bytes : (cs : List ℕ) → ArePoints cs → All (λ b. b < 256) (points_bytes cs)
unfolding points_bytes
points_bytes-bytes [] h = tt
points_bytes-bytes (c ∷ cs) h =
    All-append (λ b. b < 256) (point_bytes c) (points_bytes cs) (point_bytes-bytes c h.0)
      (points_bytes-bytes cs h.1)

pub utf8_encode-bytes : (s : Text) → AreUnits s → All (λ b. b < 256) (utf8_encode s)
unfolding utf8_encode
utf8_encode-bytes s u =
    points_bytes-bytes (code_points 0 s) (code_points-ArePoints 0 s (omega arith) u)
