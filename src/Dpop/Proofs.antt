-- ===== src/Dpop/Proofs.antt =====
-- internal/dpop/dpop.go: `Validate`. base64, JSON and SHA-256 are parameters. Times are numbers of
-- nanoseconds since Go's zero time; a proof's time is not before 1970.
use oauth4os.Common.{
  ℕ, ◌+◌, ◌-◌, ◌*◌, String, Option, none, some, List, [], ◌∷◌, ◌==◌, ◌!=◌, ltb, if◌then◌else◌,
}
use oauth4os.Common.Text.{split}

pub record Header : Type 0 where
  pub typ : String
  pub alg : String
  pub jwk : Option String

-- `iat` is a number of seconds since 1970.
pub record Payload : Type 0 where
  pub htm : String
  pub htu : String
  pub iat : ℕ

pub record Library : Type 0 where
  pub base64 : String → Option String
  pub decode_header : String → Option Header
  pub decode_payload : String → Option Payload
  pub thumbprint : String → String

pub record Proof : Type 0 where
  pub jwk_thumbprint : String
  pub method : String
  pub uri : String
  pub issued_at : ℕ

pub data Verdict : Type 0 where
  not_required : Verdict
  bad : Verdict
  proven : Proof → Verdict

abbrev pub second : ℕ
second = 1000000000

-- time.Unix(iat, 0)
abbrev pub from_unix : ℕ → ℕ
from_unix iat = (iat + 62135596800) * second

abbrev pub decode :
    {A : Type 0} → (String → Option String) → (String → Option A) → String → Option A
decode base64 json s = elim (base64 s) [ none ↦ none | some raw ↦ json raw ]

module _ (lib : Library) where
  abbrev pub check_payload : String → Option Payload → String → ℕ → Verdict
  check_payload jwk none method now = bad
  check_payload jwk (some p) method now =
      if p.htm != method
      then bad
      else if ltb (300 * second) (now - from_unix p.iat)
      then bad
      else proven (record {
        jwk_thumbprint = lib.thumbprint jwk;
        method = p.htm;
        uri = p.htu;
        issued_at = from_unix p.iat;
      })

  abbrev pub check_header : Option Header → String → String → ℕ → Verdict
  check_header none payload method now = bad
  check_header (some h) payload method now = if h.typ != "dpop+jwt" then bad else elim h.jwk [
    | none ↦ bad
    | some jwk ↦ check_payload jwk (decode lib.base64 lib.decode_payload payload) method now
  ]

  abbrev pub check_parts : List String → String → ℕ → Verdict
  check_parts [] method now = bad
  check_parts (a ∷ []) method now = bad
  check_parts (a ∷ b ∷ []) method now = bad
  check_parts (a ∷ b ∷ c ∷ []) method now =
      check_header (decode lib.base64 lib.decode_header a) b method now
  check_parts (a ∷ b ∷ c ∷ d ∷ rest) method now = bad

  unfoldable pub validate : String → String → ℕ → Verdict
  validate dpop_header method now =
      if dpop_header == "" then not_required else check_parts (split b'.' dpop_header) method now
