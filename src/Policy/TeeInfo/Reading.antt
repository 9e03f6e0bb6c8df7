-- ===== src/Policy/TeeInfo/Reading.antt =====
-- Which answers of the proxy give a key, and which key.
use mathlib.Core.Path.{subst}
use flare_studio.Base.Text.{Text, codes, starts_with}
use flare_studio.Base.Value.{Value, str, obj, Fields, get}
use flare_studio.Base.{
  none, some, Option, ◌∷◌, [], refl, inl, inr, false, ◌++◌, ok, ◌⊎◌, ◌≡◌, ◌↔◌, sym, ◌∙◌, ap, ap₂,
  arith, length, take, drop, take-append, drop-append,
}
use flare_studio.Policy.TeeInfo.{
  TeePublicKeyPoint, strip_hex, as_point, section_point, find_public_key, tee_public_key_from_info,
}

-- The section of the answer holds the point, with two strings for its coordinates.
abbrev pub Holds : Fields → Text → Text → Text → Type 0
Holds root key x y =
    (section : Fields) × (point : Fields) × (get key root ≡ obj section)
    × (get (codes "publicKey") section ≡ obj point)
    × (get (codes "x") point ≡ str x)
    × (get (codes "y") point ≡ str y)

-- The point that machineData holds, or, if it holds none, the one of teeInfo.
abbrev pub HoldsFirst : Fields → Text → Text → Type 0
HoldsFirst root x y =
    Holds root (codes "machineData") x y
    ⊎ ((x' y' : Text) → ¬ Holds root (codes "machineData") x' y') × Holds root (codes "teeInfo") x y

-- The point of the answer.
abbrev pub HasPoint : Value → Text → Text → Type 0
HasPoint info x y = (root : Fields) × (info ≡ obj root) × HoldsFirst root x y

-- The text is the digits, alone or after one prefix 0x or 0X.
abbrev pub IsPrefixed : Text → Text → Type 0
IsPrefixed v digits =
    (v ≡ codes "0x" ++ digits)
    ⊎ (v ≡ codes "0X" ++ digits)
    ⊎ (v ≡ digits) × (starts_with (codes "0x") v ≡ false) × (starts_with (codes "0X") v ≡ false)

-- The answer has a point, and both of its coordinates have 32 bytes.
abbrev pub IsKeyOf : Text → Value → Type 0
IsKeyOf k info =
    (x : Text) × (y : Text) × (xs : Text) × (ys : Text) × HasPoint info x y
    × IsPrefixed x xs
    × IsPrefixed y ys
    × (length xs ≡ 64)
    × (length ys ≡ 64)
    × (k ≡ codes "0x04" ++ (xs ++ ys))

section_point-eq-some_iff :
    (key : Text) (root : Fields) (p : TeePublicKeyPoint)
    → (section_point key root ≡ some p) ↔ Holds root key p.x p.y
unfolding section_point as_point
section_point-eq-some_iff key root p = ground arith

point_cases : (o : Option TeePublicKeyPoint) → (o ≡ none) ⊎ (p : TeePublicKeyPoint) × (o ≡ some p)
point_cases none = inl refl
point_cases (some p) = inr (p, refl)

section_point-eq-none_iff :
    (key : Text) (root : Fields)
    → (section_point key root ≡ none) ↔ ((x y : Text) → ¬ Holds root key x y)
section_point-eq-none_iff key root = (
  λ nothing x y held.
      let found = (section_point-eq-some_iff key root (record { x = x; y = y })).1 held in
      cc (nothing, found),
  λ unheld. elim (point_cases (section_point key root)) [
    | inl nothing ↦ nothing
    | inr (p, found) ↦ absurd (unheld p.x p.y ((section_point-eq-some_iff key root p).0 found))
  ],
)

first_found :
    (machine tee : Option TeePublicKeyPoint) (p : TeePublicKeyPoint)
    → ((elim machine [ some point ↦ some point | none ↦ tee ]) ≡ some p)
      ↔ ((machine ≡ some p) ⊎ (machine ≡ none) × (tee ≡ some p))
first_found machine tee p = ground arith

find_public_key-eq-some_iff :
    (info : Value) (p : TeePublicKeyPoint) → (find_public_key info ≡ some p) ↔ HasPoint info p.x p.y
unfolding find_public_key
find_public_key-eq-some_iff (obj root) p =
    let machine = section_point (codes "machineData") root in
    let tee = section_point (codes "teeInfo") root in
    let chosen = first_found machine tee p in
    let in_machine = section_point-eq-some_iff (codes "machineData") root p in
    let in_tee = section_point-eq-some_iff (codes "teeInfo") root p in
    let nowhere = section_point-eq-none_iff (codes "machineData") root in
    (
      λ h. (
        root,
        refl,
        elim (chosen.0 h) [
          | inl m ↦ inl (in_machine.0 m)
          | inr (n, t) ↦ inr (nowhere.0 n, in_tee.0 t)
        ],
      ),
      λ (root', same, held).
          let back : root' ≡ root = cc same in
          chosen.1 (elim (subst (λ (r : Fields). HoldsFirst r p.x p.y) back held) [
            | inl m ↦ inl (in_machine.1 m)
            | inr (n, t) ↦ inr (nowhere.1 n, in_tee.1 t)
          ]),
    )
find_public_key-eq-some_iff info p = (λ h. cc h, λ (root, same, held). cc same)

strip_hex-eq_iff : (v digits : Text) → (strip_hex v ≡ digits) ↔ IsPrefixed v digits
unfolding strip_hex starts_with
strip_hex-eq_iff [] digits = ground arith
strip_hex-eq_iff (a ∷ []) digits = ground arith
strip_hex-eq_iff (a ∷ b ∷ v) digits = ground arith

-- The same with the code's own reading of the answer.
abbrev Reads : Text → Value → Type 0
Reads k info =
    (point : TeePublicKeyPoint) × (find_public_key info ≡ some point)
    × (length (strip_hex point.x) ≡ 64)
    × (length (strip_hex point.y) ≡ 64)
    × (k ≡ codes "0x04" ++ (strip_hex point.x ++ strip_hex point.y))

tee_public_key_from_info-Reads :
    (info : Value) (k : Text) → (tee_public_key_from_info info ≡ ok k) ↔ Reads k info
unfolding tee_public_key_from_info
tee_public_key_from_info-Reads info k = ground arith

-- An answer gives a key exactly if it has a point with two strings for coordinates, under machineData
-- or, if there is none there, under teeInfo, and both coordinates have 64 characters without their
-- prefix 0x or 0X; the key is 0x04 and the two coordinates without the prefixes.
pub tee_public_key_from_info-eq-ok_iff :
    (info : Value) (k : Text) → (tee_public_key_from_info info ≡ ok k) ↔ IsKeyOf k info
tee_public_key_from_info-eq-ok_iff info k = (
  λ h.
      let (p, found, x, y, made) = (tee_public_key_from_info-Reads info k).0 h in
      (
        p.x,
        p.y,
        strip_hex p.x,
        strip_hex p.y,
        (find_public_key-eq-some_iff info p).0 found,
        (strip_hex-eq_iff p.x _).0 refl,
        (strip_hex-eq_iff p.y _).0 refl,
        x,
        y,
        made,
      ),
  λ (x, y, xs, ys, has, px, py, lx, ly, made).
      let p : TeePublicKeyPoint = record { x = x; y = y } in
      let sx = (strip_hex-eq_iff x xs).1 px in
      let sy = (strip_hex-eq_iff y ys).1 py in
      (tee_public_key_from_info-Reads info k).1 (
        p,
        (find_public_key-eq-some_iff info p).1 has,
        ap length sx ∙ lx,
        ap length sy ∙ ly,
        made ∙ sym (ap₂ (λ (a b : Text). codes "0x04" ++ (a ++ b)) sx sy),
      ),
)

split_key :
    (xs ys xs' ys' : Text)
    → length xs ≡ 64
    → length xs' ≡ 64
    → codes "0x04" ++ (xs ++ ys) ≡ codes "0x04" ++ (xs' ++ ys')
    → (xs ≡ xs') × (ys ≡ ys')
split_key xs ys xs' ys' h h' e =
    let rest : xs ++ ys ≡ xs' ++ ys' = ap (λ t. drop 4 t) e in
    let at : length xs ≡ length xs' = h ∙ sym h' in
    (
      sym (take-append xs ys) ∙ ap₂ (λ n t. take n t) at rest ∙ take-append xs' ys',
      sym (drop-append xs ys) ∙ ap₂ (λ n t. drop n t) at rest ∙ drop-append xs' ys',
    )

-- Two answers that give one key have the same coordinates, up to the prefix of each.
pub same_key-find_public_key :
    (info info' : Value) (k : Text) (p p' : TeePublicKeyPoint)
    → find_public_key info ≡ some p
    → find_public_key info' ≡ some p'
    → tee_public_key_from_info info ≡ ok k
    → tee_public_key_from_info info' ≡ ok k
    → (strip_hex p.x ≡ strip_hex p'.x) × (strip_hex p.y ≡ strip_hex p'.y)
same_key-find_public_key info info' k p p' found found' e e' =
    let (q, at, x, y, made) = (tee_public_key_from_info-Reads info k).0 e in
    let (q', at', x', y', made') = (tee_public_key_from_info-Reads info' k).0 e' in
    let one : p ≡ q = ground (arith, found, at) in
    let other : p' ≡ q' = ground (arith, found', at') in
    rw (one, other) (split_key _ _ _ _ x x' (sym made ∙ made'))
