-- ===== src/App/Cors.antt =====
-- src/app.rs, `build_cors`: the origins, methods and headers that cross-origin requests may use.
pub mod Origins
use yappa_core.Common.{
  string_eq, String, Bool, true, false, ◌||◌, Option, none, some, List, [], ◌∷◌, ◌≡◌, ◌≢◌, ◌==◌,
  if◌then◌else◌, split, trim,
}

pub data Method : Type 0 where
  get : Method
  post : Method
  options : Method

-- The CORS layer of tower-http, with what its documentation says: a layer that is new allows nothing, each
-- of the calls replaces what the same call has set before and leaves the others, and a list of
-- origins panics, `none`, exactly if it has a wildcard. The header values are those of the http crate.
pub record Cors : Type 1 where
  pub HeaderValue : Type 0
  pub try_from : String → Option HeaderValue
  pub is_wildcard : HeaderValue → Bool
  pub CorsLayer : Type 0
  pub new : CorsLayer
  pub allow_origin : CorsLayer → List HeaderValue → Option CorsLayer
  pub allow_methods : CorsLayer → List Method → CorsLayer
  pub allow_headers : CorsLayer → List String → CorsLayer
  pub origins : CorsLayer → List HeaderValue
  pub methods : CorsLayer → List Method
  pub headers : CorsLayer → List String

abbrev pub any_wildcard : {V : Type 0} → (V → Bool) → List V → Bool
any_wildcard is_wildcard [] = false
any_wildcard is_wildcard (v ∷ vs) = is_wildcard v || any_wildcard is_wildcard vs

pub record IsDocumented (cors : Cors) : Type 0 where
  pub origins-new : cors.origins cors.new ≡ []
  pub wildcard-panics :
      (l : cors.CorsLayer) (vs : List cors.HeaderValue)
      → any_wildcard cors.is_wildcard vs ≡ true
      → cors.allow_origin l vs ≡ none
  pub listed :
      (l : cors.CorsLayer) (vs : List cors.HeaderValue)
      → any_wildcard cors.is_wildcard vs ≡ false
      → (l' : cors.CorsLayer) × (cors.allow_origin l vs ≡ some l') × (cors.origins l' ≡ vs)
  pub methods-allow_methods :
      (l : cors.CorsLayer) (ms : List Method) → cors.methods (cors.allow_methods l ms) ≡ ms
  pub origins-allow_methods :
      (l : cors.CorsLayer) (ms : List Method)
      → cors.origins (cors.allow_methods l ms) ≡ cors.origins l
  pub headers-allow_headers :
      (l : cors.CorsLayer) (hs : List String) → cors.headers (cors.allow_headers l hs) ≡ hs
  pub origins-allow_headers :
      (l : cors.CorsLayer) (hs : List String)
      → cors.origins (cors.allow_headers l hs) ≡ cors.origins l
  pub methods-allow_headers :
      (l : cors.CorsLayer) (hs : List String)
      → cors.methods (cors.allow_headers l hs) ≡ cors.methods l

module _ (cors : Cors) where
  open cors use {HeaderValue, CorsLayer, try_from, new, allow_origin, allow_methods, allow_headers}

  -- `filter_map` with `HeaderValue::try_from`, of the parts that are not empty.
  abbrev pub keep_valid : Option HeaderValue → List HeaderValue → List HeaderValue
  keep_valid none vs = vs
  keep_valid (some v) vs = v ∷ vs

  abbrev pub header_values : List String → List HeaderValue
  header_values [] = []
  header_values (s ∷ parts) =
      let rest = header_values parts in
      if trim s == "" then rest else keep_valid (try_from (trim s)) rest

  -- The calls that follow `allow_origin`.
  abbrev pub with_methods_and_headers : CorsLayer → CorsLayer
  with_methods_and_headers layer =
      allow_headers
        (allow_headers (allow_methods layer (get ∷ post ∷ options ∷ []))
          ("authorization" ∷ "content-type" ∷ []))
        ("x-requested-with" ∷ [])

  unfoldable pub build_cors : String → Option CorsLayer
  build_cors origins =
      if origins == ""
      then some (allow_headers (allow_methods new (get ∷ [])) [])
      else elim (allow_origin new (header_values (split "," origins))) [
        | none ↦ none
        | some layer ↦ some (with_methods_and_headers layer)
      ]
