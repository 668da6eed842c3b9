-- ===== src/Cards/Masking.antt =====
-- src/utils/card.utils.ts: formatMaskedNumber, and src/utils/transfer-receipt.utils.ts: maskClabe.
use Prim.Native.Char.{Char, code}
use Prim.Native.String.{◌++◌}
use banking_mobile_backend.Prelude.{
  ℕ, String, suc, Bool, ◌&&◌, Option, leb, ltb, or_else, if◌then◌else◌,
}

abbrev pub is_digit : Char → Bool
is_digit c = leb 48 (code c) && leb (code c) 57

-- `replace(/\D/g, '')`
unfoldable pub digits_of : String → String
digits_of String.[] = ""
digits_of (String.◌∷◌ c s) =
    let rest = digits_of s in if is_digit c then String.◌∷◌ c rest else rest

abbrev pub size : String → ℕ
size String.[] = 0
size (String.◌∷◌ c s) = suc (size s)

-- `slice(-4)`
unfoldable pub last4 : String → String
last4 String.[] = ""
last4 (String.◌∷◌ c s) = let rest = last4 s in if leb 4 (size s) then rest else String.◌∷◌ c s

unfoldable pub format_masked_number : Option String → (with_spaces : Bool) → String
unfolding digits_of last4
format_masked_number number with_spaces =
    let digits = digits_of (or_else number "") in
    if ltb (size digits) 4
    then if with_spaces then "**** **** **** ****" else "****************"
    else if with_spaces
    then "**** **** **** " ++ last4 digits
    else "************" ++ last4 digits

unfoldable pub mask_clabe : String → String
unfolding digits_of last4
mask_clabe clabe =
    let digits = digits_of clabe in if ltb (size digits) 4 then "***" else "***" ++ last4 digits
