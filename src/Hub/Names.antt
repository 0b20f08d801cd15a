-- ===== src/Hub/Names.antt =====
-- Names of roles and channel types in the database: role_from_string and channel_type_from_string
-- of infra/persistence/repositories/RepositoryUtils.h, normalize_db_role of HubRepository.cpp, and
-- role_to_string and channel_type_from_storage of HubService.cpp.
use Prim.Native.Char.{code}
use kergit_server.Base.{
  ℕ, ◌+◌, String, Bool, true, false, ◌&&◌, List, [], ◌∷◌, map, ◌≡◌, refl, leb, ◌==◌, if◌then◌else◌,
}
use kergit_server.Hub.RolePolicy.{Role, user, admin, owner}
use kergit_server.Hub.Domain.{ChannelType, chat, voice}

-- The bytes of an ASCII text.
abbrev pub codes : String → List ℕ
codes String.[] = []
codes (String.◌∷◌ c s) = code c ∷ codes s

-- `std::tolower` of the "C" locale.
unfoldable pub tolower : ℕ → ℕ
tolower c = if leb 65 c && leb c 90 then c + 32 else c

unfoldable pub same_codes : List ℕ → List ℕ → Bool
same_codes [] [] = true
same_codes (a ∷ s) (b ∷ t) = a == b && same_codes s t
same_codes _ _ = false

-- Lower case first, then `==`.
unfoldable pub is_word : String → String → Bool
unfolding tolower same_codes
is_word word s = same_codes (map tolower (codes s)) (codes word)

unfoldable pub role_from_string : String → Role
unfolding is_word
role_from_string s = if is_word "owner" s then owner else if is_word "admin" s then admin else user

unfoldable pub normalize_db_role : String → String
unfolding role_from_string
normalize_db_role s = elim (role_from_string s) [
  | owner ↦ "owner"
  | admin ↦ "admin"
  | user ↦ "member"
]

unfoldable pub role_to_string : Role → String
role_to_string owner = "owner"
role_to_string admin = "admin"
role_to_string user = "member"

unfoldable pub channel_type_from_string : String → ChannelType
unfolding is_word
channel_type_from_string s = if is_word "voice" s then voice else chat

unfoldable pub channel_type_from_storage : String → ChannelType
unfolding is_word
channel_type_from_storage s = if is_word "voice" s then voice else chat

pub channel_types_agree : (s : String) → channel_type_from_storage s ≡ channel_type_from_string s
unfolding channel_type_from_storage channel_type_from_string
channel_types_agree s = refl

-- A role written to the database and read back is the same role.
pub role_round_trip :
    (role : Role) → role_from_string (normalize_db_role (role_to_string role)) ≡ role
unfolding role_from_string normalize_db_role role_to_string
role_round_trip owner = refl
role_round_trip admin = refl
role_round_trip user = refl
