-- ===== src/App/Cors/Origins.antt =====
-- Which cross-origin requests a configuration of origins lets in.
use yappa_core.Common.{
  string_eq, ◌==◌, ==-false, ==-cases, subst, String, Bool, true, false, Option, none, some, List,
  [], ◌∷◌, ◌≡◌, ◌≢◌, refl, ◌∙◌, sym, ap, inl, inr, if◌then◌else◌, split, trim, join, split-join,
  Lacks, Every,
}
use yappa_core.App.Cors.{
  get, post, options, Cors, IsDocumented, any_wildcard, header_values, build_cors,
  with_methods_and_headers,
}

module _ (cors : Cors) (documented : IsDocumented cors) where
  open cors use {HeaderValue, CorsLayer, try_from, is_wildcard, origins, methods, headers}

  -- The origins of the parts of a configured text: a part of white space has none, and one that is no header
  -- value is dropped.
  pub data Listed : List String → List HeaderValue → Type 0 where
    done : Listed [] []
    blank :
        (p : String) {ps : List String} {vs : List HeaderValue}
        → trim p ≡ ""
        → Listed ps vs
        → Listed (p ∷ ps) vs
    invalid :
        (p : String) {ps : List String} {vs : List HeaderValue}
        → trim p ≢ ""
        → try_from (trim p) ≡ none
        → Listed ps vs
        → Listed (p ∷ ps) vs
    origin :
        (p : String) (v : HeaderValue) {ps : List String} {vs : List HeaderValue}
        → trim p ≢ ""
        → try_from (trim p) ≡ some v
        → Listed ps vs
        → Listed (p ∷ ps) (v ∷ vs)

  header_values-Listed :
      {ps : List String} {vs : List HeaderValue} → Listed ps vs → header_values cors ps ≡ vs
  header_values-Listed done = refl
  header_values-Listed (blank p e l) = rw e (header_values-Listed l)
  header_values-Listed (invalid p ne e l) = rw (==-false (trim p) "" ne, e) (header_values-Listed l)
  header_values-Listed (origin p v ne e l) =
      rw (==-false (trim p) "" ne, e) (ap (λ vs. v ∷ vs) (header_values-Listed l))

  -- What is allowed for a text with these origins, by whether a wildcard is one of them.
  abbrev pub Allows : String → List HeaderValue → Bool → Option CorsLayer → Type 0
  Allows text vs true o = o ≡ none
  Allows text vs false o =
      (layer : CorsLayer) × (o ≡ some layer)
      × (origins layer ≡ vs)
      × (methods layer ≡ (if text == "" then get ∷ [] else get ∷ post ∷ options ∷ []))
      × (headers layer ≡ (if text == "" then [] else "x-requested-with" ∷ []))

  build_cors-nil :
      (vs : List HeaderValue)
      → header_values cors (split "," "") ≡ vs
      → Allows "" vs (any_wildcard is_wildcard vs) (build_cors cors "")
  unfolding build_cors split trim
  build_cors-nil vs e =
      subst (λ vs. Allows "" vs (any_wildcard is_wildcard vs) (build_cors cors "")) e
        (
          _,
          refl,
          documented.origins-allow_headers _ _
              ∙ documented.origins-allow_methods _ _
              ∙ documented.origins-new,
          documented.methods-allow_headers _ _ ∙ documented.methods-allow_methods _ _,
          documented.headers-allow_headers _ _,
        )

  build_cors-listed :
      (text : String) (vs : List HeaderValue) (b : Bool)
      → (text == "") ≡ false
      → header_values cors (split "," text) ≡ vs
      → any_wildcard is_wildcard vs ≡ b
      → Allows text vs b (build_cors cors text)
  unfolding build_cors
  build_cors-listed text vs true given e w =
      rw (given, build_cors) (rw (e, documented.wildcard-panics cors.new vs w) refl)
  build_cors-listed text vs false given e w =
      let (layer, made, here) = documented.listed cors.new vs w in
      rw given (
        with_methods_and_headers cors layer,
        rw (e, made) refl,
        documented.origins-allow_headers _ _
            ∙ documented.origins-allow_headers _ _
            ∙ documented.origins-allow_methods _ _
            ∙ here,
        documented.methods-allow_headers _ _
            ∙ documented.methods-allow_headers _ _
            ∙ documented.methods-allow_methods _ _,
        documented.headers-allow_headers _ _,
      )

  build_cors-Allows-split :
      (text : String) (vs : List HeaderValue)
      → header_values cors (split "," text) ≡ vs
      → Allows text vs (any_wildcard is_wildcard vs) (build_cors cors text)
  build_cors-Allows-split text vs e = elim (==-cases text "") [
    | inl (same, empty) ↦
        subst
          (λ text.
            header_values cors (split "," text) ≡ vs
            → Allows text vs (any_wildcard is_wildcard vs) (build_cors cors text))
          (sym empty) (build_cors-nil vs) e
    | inr (given, other) ↦ build_cors-listed text vs _ given e refl
  ]

  -- A configured list of origins, joined by commas, with white space around them and blank parts in between,
  -- gives a layer that allows just these origins, in order, without those that are no header
  -- value; a wildcard among them makes the program panic at its start. The only request header that is allowed
  -- is `x-requested-with`, neither `authorization` nor `content-type`. An empty text allows
  -- no origin and no header.
  pub build_cors-Allows :
      (p : String) (ps : List String) (vs : List HeaderValue)
      → Every (Lacks b',') (p ∷ ps)
      → Listed (p ∷ ps) vs
      → Allows
          (join "," (p ∷ ps))
          vs
          (any_wildcard is_wildcard vs)
          (build_cors cors (join "," (p ∷ ps)))
  build_cors-Allows p ps vs plain listed =
      build_cors-Allows-split (join "," (p ∷ ps)) vs
        (ap (header_values cors) (split-join "," p ps plain) ∙ header_values-Listed listed)
