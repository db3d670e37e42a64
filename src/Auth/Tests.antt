-- ===== src/Auth/Tests.antt =====
-- A server of tokens that knows one token.
use yappa_core.Common.{
  both_of_&&, string_eq, ◌==◌, ℕ, ◌+◌, ◌≤◌, leb, String, Bool, true, false, ◌&&◌, Option, none,
  some, List, [], ◌∷◌, ◌≡◌, refl, contains, Any, inl, inr, if◌then◌else◌, arith, Bool-cases,
}
use yappa_core.Auth.{Claims, validate_jwt}
use yappa_core.Auth.Config.{Validation, Jwt, new, new_config, authenticate}
use yappa_core.Auth.Genuine.{IsDocumented, Genuine, authenticate-Genuine}

abbrev ann_claims : Claims
ann_claims = record { tenant_id = "acme"; user_id = "ann"; exp = 9; iss = some "i"; aud = some "a" }

abbrev admits : Option (List String) → String → Bool
admits none x = true
admits (some xs) x = contains x xs

abbrev has_hs256 : List Bool → Bool
has_hs256 [] = false
has_hs256 (a ∷ algorithms) = if a then true else has_hs256 algorithms

abbrev is_signed : String → Bool → String → Bool
is_signed key algorithm token = algorithm && (key == "s" && token == "t")

abbrev accepts : String → Validation Bool → ℕ → String → Bool
accepts key v now token =
    (key == "s" && token == "t")
    && (has_hs256 v.algorithms
        && (leb now (9 + v.leeway) && (admits v.iss "i" && admits v.aud "a")))

-- `true` stands for HS256.
abbrev jwt : Jwt
jwt = record {
  Algorithm = Bool;
  hs256 = true;
  DecodingKey = String;
  from_secret = λ s. s;
  new_validation = λ a. record {
    algorithms = a ∷ [];
    required_spec_claims = "exp" ∷ [];
    iss = none;
    aud = none;
    validate_exp = true;
    leeway = 60;
  };
  decode = λ key v now token. if accepts key v now token then some ann_claims else none;
}

record Accepted (key : String) (v : Validation Bool) (now : ℕ) (token : String) (claims : Claims)
    : Type 0 where
  named : claims ≡ ann_claims
  key_lem : (key == "s" && token == "t") ≡ true
  algorithm : has_hs256 v.algorithms ≡ true
  time : leb now (9 + v.leeway) ≡ true
  issuer : admits v.iss "i" ≡ true
  audience : admits v.aud "a" ≡ true

accepted :
    (key : String) (v : Validation Bool) (now : ℕ) (token : String) (claims : Claims)
    → jwt.decode key v now token ≡ some claims
    → Accepted key v now token claims
accepted key v now token claims h = elim (Bool-cases (accepts key v now token)) [
  | inl e ↦
      let (k, e₁) = both_of_&& (key == "s" && token == "t") _ e in
      let (a, e₂) = both_of_&& (has_hs256 v.algorithms) _ e₁ in
      let (t, e₃) = both_of_&& (leb now (9 + v.leeway)) _ e₂ in
      let (i, u) = both_of_&& (admits v.iss "i") _ e₃ in
      record {
        named = let h' : some ann_claims ≡ some claims = rw e at h in cc;
        key_lem = k;
        algorithm = a;
        time = t;
        issuer = i;
        audience = u;
      }
  | inr e ↦ absurd (let h' : none ≡ some claims = rw e at h in cc)
]

signed_by :
    (key token : String) (algorithms : List Bool)
    → (key == "s" && token == "t") ≡ true
    → has_hs256 algorithms ≡ true
    → Any (λ algorithm. is_signed key algorithm token ≡ true) algorithms
signed_by key token [] k h = cc
signed_by key token (true ∷ algorithms) k h = inl k
signed_by key token (false ∷ algorithms) k h = inr (signed_by key token algorithms k h)

before : (m n : ℕ) → leb m n ≡ true → m ≤ n
before m n h = ground arith

documented : IsDocumented jwt is_signed
documented = record {
  leeway-new = refl;
  signed = λ key v now token claims h.
      let a = accepted key v now token claims h in
      signed_by key token v.algorithms a.key_lem a.algorithm;
  unexpired = λ key v now token claims h e.
      let a = accepted key v now token claims h in rw a.named (before now (9 + v.leeway) a.time);
  issued = λ key v now token claims issuers h e r.
      let a = accepted key v now token claims h in ("i", rw a.named refl, rw e at a.issuer);
  addressed = λ key v now token claims audiences h e r.
      let a = accepted key v now token claims h in ("a", rw a.named refl, rw e at a.audience);
}

authenticate-Genuine_example :
    Genuine jwt is_signed documented "s" "i" "a" 65 "t"
      (record { tenant_id = "acme"; user_id = "ann" })
unfolding authenticate new validate_jwt new_config
authenticate-Genuine_example =
    authenticate-Genuine jwt is_signed documented "s" "i" "a" 65 "t"
      (record { tenant_id = "acme"; user_id = "ann" }) refl
