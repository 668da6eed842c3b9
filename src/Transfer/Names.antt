-- ===== src/Transfer/Names.antt =====
-- src/utils/buildFullName.ts: a name from its parts.
use Prim.Native.Char.{code}
use Prim.Native.String.{◌++◌}
use banking_mobile_backend.Prelude.{
  String, ◌&&◌, Option, none, some, List, [], ◌∷◌, map, str_eq, if◌then◌else◌,
}
use banking_mobile_backend.Payments.Utils.{is_space}

pub record NameParts : Type 0 where
  pub first_name : Option String
  pub middle_name : Option String
  pub last_name : Option String
  pub second_last_name : Option String

unfoldable pub trim_start : String → String
trim_start String.[] = ""
trim_start (String.◌∷◌ c s) =
    let rest = trim_start s in if is_space (code c) then rest else String.◌∷◌ c s

unfoldable pub trim_end : String → String
trim_end String.[] = ""
trim_end (String.◌∷◌ c s) =
    let rest = trim_end s in if str_eq rest "" && is_space (code c) then "" else String.◌∷◌ c rest

abbrev pub trim : String → String
trim s = trim_end (trim_start s)

-- `.filter(part => Boolean(part && part.trim()))`
unfoldable pub not_blank : List (Option String) → List String
unfolding trim_start trim_end
not_blank [] = []
not_blank (none ∷ parts) = not_blank parts
not_blank (some part ∷ parts) =
    let rest = not_blank parts in if str_eq (trim part) "" then rest else part ∷ rest

-- `.join(' ')`
unfoldable pub join : List String → String
join [] = ""
join (part ∷ []) = part
join (part ∷ next ∷ parts) = part ++ " " ++ join (next ∷ parts)

unfoldable pub build_full_name : NameParts → String
unfolding trim_start trim_end not_blank join
build_full_name p =
    join
      (map trim (not_blank (p.first_name ∷ p.middle_name ∷ p.last_name ∷ p.second_last_name ∷ [])))
