-- ===== src/Cards/Masked.antt =====
-- Masked numbers: which digits a mask shows.
use Prim.Native.Char.{Char}
use Prim.Native.String.{◌++◌}
use Prim.Native.String.append.{nil, cons}
use banking_mobile_backend.Prelude.{
  String, ◌≤◌, ◌<◌, ◌⊎◌, ◌≡◌, refl, sym, ap, ◌∙◌, Bool, true, false, Option, some, leb, ltb,
  or_else, if◌then◌else◌, Bool-cases, inl, inr, arith,
}
use banking_mobile_backend.Cards.Masking.{
  is_digit, digits_of, size, last4, format_masked_number, mask_clabe,
}

abbrev IsDigits : String → Type 0
IsDigits String.[] = Unit
IsDigits (String.◌∷◌ c s) = (is_digit c ≡ true) × IsDigits s

digits_of-IsDigits : (s : String) → IsDigits (digits_of s)
unfolding digits_of
digits_of-IsDigits String.[] = tt
digits_of-IsDigits (String.◌∷◌ c s) = elim (Bool-cases (is_digit c)) [
  | inl digit ↦ rw digit (digit, digits_of-IsDigits s)
  | inr other ↦ rw other (digits_of-IsDigits s)
]

digits_of-kept : (s : String) → IsDigits s → digits_of s ≡ s
unfolding digits_of
digits_of-kept String.[] h = refl
digits_of-kept (String.◌∷◌ c s) (h, hs) = rw (h, digits_of-kept s hs) refl

append-nil : (t : String) → String.[] ++ t ≡ t
append-nil t = λ i. nil t i

append-cons : (c : Char) (s t : String) → String.◌∷◌ c s ++ t ≡ String.◌∷◌ c (s ++ t)
append-cons c s t = λ i. cons c s t i

digits_of-append : (s t : String) → digits_of (s ++ t) ≡ digits_of s ++ digits_of t
unfolding digits_of
digits_of-append String.[] t = ap digits_of (append-nil t) ∙ sym (append-nil (digits_of t))
digits_of-append (String.◌∷◌ c s) t = elim (Bool-cases (is_digit c)) [
  | inl digit ↦
      rw (append-cons c s t, digit, digits_of-append s t)
        (sym (append-cons c (digits_of s) (digits_of t)))
  | inr other ↦ rw (append-cons c s t, other, digits_of-append s t) refl
]

last4-IsDigits : (s : String) → IsDigits s → IsDigits (last4 s)
unfolding last4
last4-IsDigits String.[] h = tt
last4-IsDigits (String.◌∷◌ c s) (h, hs) = elim (Bool-cases (leb 4 (size s))) [
  | inl long ↦ rw long (last4-IsDigits s hs)
  | inr short ↦ rw short (h, hs)
]

last4-size : (s : String) → 4 ≤ size s → size (last4 s) ≡ 4
unfolding last4
last4-size String.[] h = omega (arith, h)
last4-size (String.◌∷◌ c s) h = elim (Bool-cases (leb 4 (size s))) [
  | inl long ↦ rw long (last4-size s (ground (arith, long)))
  | inr short ↦ rw short (ground (arith, short, h))
]

last4-kept : (s : String) → size s ≤ 4 → last4 s ≡ s
unfolding last4
last4-kept String.[] h = refl
last4-kept (String.◌∷◌ c s) h = elim (Bool-cases (leb 4 (size s))) [
  | inl long ↦ absurd (ground (arith, long, h))
  | inr short ↦ rw short refl
]

-- The last four characters are the end of the text.
last4-suffix : (s : String) → (p : String) × (p ++ last4 s ≡ s)
unfolding last4
last4-suffix String.[] = (String.[], append-nil String.[])
last4-suffix (String.◌∷◌ c s) = elim (Bool-cases (leb 4 (size s))) [
  | inl long ↦
      let (p, same) = last4-suffix s in
      rw long (String.◌∷◌ c p, append-cons c p (last4 s) ∙ ap (λ t. String.◌∷◌ c t) same)
  | inr short ↦ rw short (String.[], append-nil (String.◌∷◌ c s))
]

stars : digits_of "**** **** **** ****" ≡ ""
unfolding digits_of
stars = refl

stars_compact : digits_of "****************" ≡ ""
unfolding digits_of
stars_compact = refl

prefix_stars : digits_of "**** **** **** " ≡ ""
unfolding digits_of
prefix_stars = refl

prefix_compact : digits_of "************" ≡ ""
unfolding digits_of
prefix_compact = refl

prefix_clabe : digits_of "***" ≡ ""
unfolding digits_of
prefix_clabe = refl

module _ (number : Option String) where
  abbrev digits : String
  digits = digits_of (or_else number "")

  -- What is shown of a number with four digits or more, behind any text without digits.
  shown :
      (mask : String)
      → digits_of mask ≡ ""
      → ltb (size digits) 4 ≡ false
      → digits_of (mask ++ last4 digits) ≡ last4 digits
  shown mask blank long =
      digits_of-append mask (last4 digits)
      ∙ rw blank (
          append-nil (digits_of (last4 digits))
          ∙ digits_of-kept (last4 digits)
              (last4-IsDigits digits (digits_of-IsDigits (or_else number ""))))

  long_enough : ltb (size digits) 4 ≡ false → 4 ≤ size digits
  long_enough h = ground (arith, h)

  short_mask :
      (with_spaces : Bool)
      → ltb (size digits) 4 ≡ true
      → format_masked_number number with_spaces
        ≡ (if with_spaces then "**** **** **** ****" else "****************")
  unfolding format_masked_number
  short_mask with_spaces short = rw short refl

  long_mask :
      (with_spaces : Bool)
      → ltb (size digits) 4 ≡ false
      → format_masked_number number with_spaces ≡ (
          if with_spaces then "**** **** **** " ++ last4 digits else "************" ++ last4 digits)
  unfolding format_masked_number
  long_mask with_spaces long = rw long refl

  -- The mask shows no digit of a number with fewer than four, and of any other number four digits,
  -- which are the last ones.
  pub ShowsLast : String → Type 0
  ShowsLast mask =
      ((size digits < 4) × (digits_of mask ≡ ""))
      ⊎ ((hidden : String) × (size (digits_of mask) ≡ 4) × (hidden ++ digits_of mask ≡ digits))

  ShowsLast-long :
      (blank mask : String)
      → digits_of blank ≡ ""
      → ltb (size digits) 4 ≡ false
      → mask ≡ blank ++ last4 digits
      → ShowsLast mask
  unfolding ShowsLast
  ShowsLast-long blank mask blanks long same =
      let seen = ap digits_of same ∙ shown blank blanks long in
      let (hidden, split) = last4-suffix digits in
      inr (
        hidden,
        ap size seen ∙ last4-size digits (long_enough long),
        ap (λ t. hidden ++ t) seen ∙ split,
      )

  ShowsLast-short :
      (mask : String) → digits_of mask ≡ "" → ltb (size digits) 4 ≡ true → ShowsLast mask
  unfolding ShowsLast
  ShowsLast-short mask blank short = inl (ground (arith, short), blank)

  -- A masked number shows no digit of a number with fewer than four digits; of any other number it
  -- shows four digits, which are the last four of the number, and no other digit.
  pub format_masked_number-ShowsLast :
      (with_spaces : Bool) → ShowsLast (format_masked_number number with_spaces)
  format_masked_number-ShowsLast true = elim (Bool-cases (ltb (size digits) 4)) [
    | inl short ↦ rw (short_mask true short) (ShowsLast-short _ stars short)
    | inr long ↦ ShowsLast-long "**** **** **** " _ prefix_stars long (long_mask true long)
  ]
  format_masked_number-ShowsLast false = elim (Bool-cases (ltb (size digits) 4)) [
    | inl short ↦ rw (short_mask false short) (ShowsLast-short _ stars_compact short)
    | inr long ↦ ShowsLast-long "************" _ prefix_compact long (long_mask false long)
  ]

mask_clabe-long :
    (clabe : String)
    → ltb (size (digits_of clabe)) 4 ≡ false
    → mask_clabe clabe ≡ "***" ++ last4 (digits_of clabe)
unfolding mask_clabe
mask_clabe-long clabe long = rw long refl

mask_clabe-short :
    (clabe : String) → ltb (size (digits_of clabe)) 4 ≡ true → mask_clabe clabe ≡ "***"
unfolding mask_clabe
mask_clabe-short clabe short = rw short refl

-- Masking a masked account number changes nothing: the mask shows the last four digits and no
-- others.
pub mask_clabe-again : (clabe : String) → mask_clabe (mask_clabe clabe) ≡ mask_clabe clabe
mask_clabe-again clabe = elim (Bool-cases (ltb (size (digits_of clabe)) 4)) [
  | inl short ↦ rw (mask_clabe-short clabe short) (mask_clabe-short "***" (rw prefix_clabe refl))
  | inr long ↦
      let d = digits_of clabe in
      let four = last4-size d (long_enough (some clabe) long) in
      let seen = shown (some clabe) "***" prefix_clabe long in
      rw (mask_clabe-long clabe long) (
        mask_clabe-long ("***" ++ last4 d) (rw (seen, four) refl)
        ∙ ap (λ t. "***" ++ t) (ap last4 seen ∙ last4-kept (last4 d) (omega (arith, four))))
]
