-- ===== src/Api/Requests.antt =====
-- crates/rcx-registry-api/src/lib.rs: the bodies and queries of the handlers that prove control, and the
-- client of a request.
use rcx_registry.Prelude.{
  ℕ, Option, none, some, List, [], ◌∷◌, Bytes, codes, ◌||◌, ◌==◌, if◌then◌else◌,
}
use rcx_registry.Prelude.Texts.{split_on}

pub record DnsChallengeRequest : Type 0 where
  pub public_key_hex : Bytes
  pub server_name : Bytes
  pub publisher_passport : Bytes
  pub passport_fingerprint : Bytes

pub record DnsChallengeResponse : Type 0 where
  pub publisher_passport : Bytes
  pub namespace : Bytes
  pub server_name : Bytes
  pub verification_method : Bytes
  pub record_name : Bytes
  pub expected_value : Bytes
  pub nonce : Bytes
  pub nonce_expires_at : ℕ

pub record DnsVerifyRequest : Type 0 where
  pub server_name : Bytes
  pub publisher_passport : Bytes
  pub passport_fingerprint : Bytes
  pub public_key_hex : Bytes
  pub nonce : Bytes
  pub signature : Bytes

pub record GithubStartQuery : Type 0 where
  pub server_name : Bytes
  pub publisher_passport : Bytes
  pub redirect_uri : Bytes

pub record GithubCallbackQuery : Type 0 where
  pub server_name : Bytes
  pub publisher_passport : Bytes
  pub code : Bytes
  pub state : Bytes
  pub redirect_uri : Bytes

-- `trim`, of the spaces and tabs that a header's text may hold
unfoldable pub trim_start : Bytes → Bytes
trim_start [] = []
trim_start (b ∷ text) = let rest = trim_start text in if b == 32 || b == 9 then rest else b ∷ text

abbrev unless_blank : ℕ → Bytes → Bytes
unless_blank b [] = if b == 32 || b == 9 then [] else b ∷ []
unless_blank b (x ∷ text) = b ∷ x ∷ text

unfoldable pub trim_end : Bytes → Bytes
trim_end [] = []
trim_end (b ∷ text) = unless_blank b (trim_end text)

abbrev first_part : List Bytes → Bytes
first_part [] = []
first_part (part ∷ parts) = part

abbrev or_unknown : Bytes → Bytes
or_unknown [] = codes "unknown"
or_unknown (b ∷ text) = b ∷ text

-- of the header `x-forwarded-for`, where it is a text
unfoldable pub client_key : Option Bytes → Bytes
unfolding trim_start trim_end
client_key none = codes "unknown"
client_key (some forwarded) =
    or_unknown (trim_end (trim_start (first_part (split_on b',' forwarded))))
