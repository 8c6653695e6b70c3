-- ===== src/Access/Keys.antt =====
-- lib/auth.ts: the caller of a request. The digest of a key and the decoding of a cookie's value are
-- the platform's, so they are parameters; a header is a text or missing.
use settlementos.Base.{
  ℕ, Bool, true, false, ◌||◌, ◌&&◌, List, [], ◌∷◌, ◌==◌, leb, if◌then◌else◌, Option, none, some,
}
use settlementos.Base.Texts.{String, str_eq, codes}
use settlementos.Decimal.{Text, split}

pub data Role : Type 0 where
  operator reviewer entity : Role

-- A row of ApiKey. An empty entity id counts as none.
pub record ApiKey : Type 0 where
  pub id : String
  pub key_hash : Text
  pub role : String
  pub entity_id : Option String
  pub label : String

pub record Principal : Type 0 where
  pub key_id : String
  pub role : Role
  pub entity_id : Option String
  pub label : String

-- The headers that are read here.
pub record Headers : Type 0 where
  pub api_key : Option Text
  pub cookie : Option Text
  pub forwarded_for : Option Text
  pub real_ip : Option Text
  pub content_length : Option Text

pub record Platform : Type 0 where
  pub digest : Text → Text
  pub decode : Text → Option Text

-- `isRole`, with the role that the text names.
unfoldable pub role_of : String → Option Role
role_of value =
    if str_eq value "OPERATOR"
    then some operator
    else if str_eq value "REVIEWER"
    then some reviewer
    else if str_eq value "ENTITY"
    then some entity
    else none

unfoldable pub is_platform_role : Principal → Bool
is_platform_role p = elim p.role [ operator ↦ true | reviewer ↦ true | entity ↦ false ]

abbrev pub same_text : Text → Text → Bool
same_text [] [] = true
same_text (c ∷ s) (d ∷ t) = c == d && same_text s t
same_text _ _ = false

unfoldable pub find_key : Text → List ApiKey → Option ApiKey
find_key hash [] = none
find_key hash (k ∷ ks) = if same_text k.key_hash hash then some k else find_key hash ks

-- A tenant's key without a tenant is nobody's.
abbrev pub tenant : Option String → Option String
tenant none = none
tenant (some id) = if str_eq id "" then none else some id

abbrev pub scoped : Role → Option String → Bool
scoped entity none = false
scoped _ _ = true

unfoldable pub principal_of : ApiKey → Option Principal
principal_of k = elim (role_of k.role) [
  | none ↦ none
  | some r ↦
      if scoped r (tenant k.entity_id)
      then some
          (record { key_id = k.id; role = r; entity_id = tenant k.entity_id; label = k.label })
      else none
]

unfoldable pub principal_for_key : Platform → List ApiKey → Text → Option Principal
principal_for_key platform keys raw = elim (find_key (platform.digest raw) keys) [
  | none ↦ none
  | some k ↦ principal_of k
]

-- `trim()`, for the white space of the language.
abbrev pub is_space : ℕ → Bool
is_space c =
    (leb 9 c && leb c 13)
    || c == 32
    || c == 160
    || c == 5_760
    || (leb 8_192 c && leb c 8_202)
    || c == 8_232
    || c == 8_233
    || c == 8_239
    || c == 8_287
    || c == 12_288
    || c == 65_279

unfoldable pub trim_start : Text → Text
trim_start [] = []
trim_start (c ∷ s) = if is_space c then trim_start s else c ∷ s

abbrev pub keep_end : ℕ → Text → Text
keep_end c [] = if is_space c then [] else c ∷ []
keep_end c (d ∷ s) = c ∷ d ∷ s

unfoldable pub trim_end : Text → Text
trim_end [] = []
trim_end (c ∷ s) = keep_end c (trim_end s)

unfoldable pub trim : Text → Text
trim s = trim_end (trim_start s)

-- `part.indexOf("=")`, with what stands before and after it.
unfoldable pub at_equals : Text → Option (Text × Text)
at_equals [] = none
at_equals (c ∷ s) =
    let rest = at_equals s in
    if c == b'='
    then some ([], s)
    else elim rest [ none ↦ none | some (name, value) ↦ some (c ∷ name, value) ]

-- `x || null`.
abbrev pub or_null : Option Text → Option Text
or_null none = none
or_null (some []) = none
or_null (some (c ∷ s)) = some (c ∷ s)

unfoldable pub cookie_value : Platform → List Text → Option Text
cookie_value platform [] = none
cookie_value platform (part ∷ parts) =
    let rest = cookie_value platform parts in
    elim (at_equals part) [
      | none ↦ rest
      | some (name, value) ↦
          if same_text (trim name) (codes "sos_key")
          then or_null (platform.decode (trim value))
          else rest
    ]

unfoldable pub key_from_cookie : Platform → Headers → Option Text
key_from_cookie platform headers = elim (or_null headers.cookie) [
  | none ↦ none
  | some header ↦ cookie_value platform (split b';' header)
]

abbrev pub raw_key : Platform → Headers → Option Text
raw_key platform headers = elim headers.api_key [
  | some raw ↦ some raw
  | none ↦ key_from_cookie platform headers
]

unfoldable pub authenticate : Platform → List ApiKey → Headers → Option Principal
authenticate platform keys headers = elim (or_null (raw_key platform headers)) [
  | none ↦ none
  | some raw ↦ principal_for_key platform keys raw
]
